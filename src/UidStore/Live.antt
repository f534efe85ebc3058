-- ===== src/UidStore/Live.antt =====
-- imapgw/uidstore.py: the live map of a valid store, and what `mailbox_info` reports and leaves.
use imap_work_trial.Base.{
  ℕ, ◌<◌, ◌≡◌, nat_eq, list_eq, ==_iff, ap, true, Bytes, contains, IsDistinct, All, Dict, lookup,
  some, List, [], ◌∷◌, arith,
}
use imap_work_trial.UidStore.Tables.{Box, box_eq, same_box_iff, MailboxRow, UidRow, select_live}
use imap_work_trial.UidStore.Calls.{UidStore, Env, live_map, ensure_mailbox, mailbox_info}
use imap_work_trial.UidStore.Valid.{next_of, IsValid}
use imap_work_trial.UidStore.Mailboxes.{ensure_mailbox_lem}
use imap_work_trial.UidStore.Allocation.{transaction_commits}
use imap_work_trial.UidStore.Extends.{ensure_mailbox-IsValid}
use imap_work_trial.UidStore.Vanish.{values, select_live-IsDistinct}

contains-values :
    (k : Bytes) (u : ℕ) (live : Dict Bytes ℕ)
    → lookup k live ≡ some u
    → contains (values live) u ≡ true
unfolding lookup
contains-values k u [] h = absurd (ground arith)
contains-values k u ((q, w) ∷ live) h =
    ground (arith, ==_iff u u, ==_iff w u, contains-values k u live)

IsDistinct-lookup :
    (live : Dict Bytes ℕ) (k q : Bytes) (u : ℕ)
    → IsDistinct (values live)
    → lookup k live ≡ some u
    → lookup q live ≡ some u
    → k ≡ q
unfolding lookup
IsDistinct-lookup [] k q u d h g = absurd (ground arith)
IsDistinct-lookup ((j, w) ∷ live) k q u d h g = ground (
  arith,
  ==_iff j k,
  ==_iff j q,
  d.0,
  contains-values k u live,
  contains-values q u live,
  IsDistinct-lookup live k q u d.1,
)

-- Two live keys of a mailbox have different UIDs.
pub live_map_injective :
    (box : Box) (s : UidStore)
    → IsValid s
    → (k q : Bytes) (u : ℕ) → lookup k (live_map box s) ≡ some u
    → lookup q (live_map box s) ≡ some u
    → k ≡ q
unfolding live_map
live_map_injective box s v k q u =
    IsDistinct-lookup (select_live box s.uid_map) k q u
      (select_live-IsDistinct box s.uid_map v.keyed)

select_live-lt :
    (box : Box) (ms : List MailboxRow) (rows : List UidRow) (k : Bytes) (u : ℕ)
    → All (λ r. r.uid < next_of r.box ms) rows
    → lookup k (select_live box rows) ≡ some u
    → u < next_of box ms
unfolding select_live lookup
select_live-lt box ms [] k u h l = absurd (ground arith)
select_live-lt box ms (r ∷ rows) k u h l =
    ground (
      arith,
      h.0,
      same_box_iff r.box box,
      ==_iff r.remote_key k,
      select_live-lt box ms rows k u h.1,
    )

pub live_map-lt :
    (box : Box) (s : UidStore)
    → IsValid s
    → (k : Bytes) (u : ℕ) → lookup k (live_map box s) ≡ some u
    → u < next_of box s.mailbox
unfolding live_map
live_map-lt box s v k u = select_live-lt box s.mailbox s.uid_map k u v.below

-- What a committed `mailbox_info` reports and leaves.
pub record Reports (box : Box) (s s' : UidStore) (info : ℕ × ℕ) : Type 0 where
  pub valid : IsValid s'
  pub live : live_map box s' ≡ live_map box s
  pub next : info.1 ≡ next_of box s'.mailbox
  pub nexts : (b : Box) → next_of b s'.mailbox ≡ next_of b s.mailbox

pub mailbox_info-Reports :
    (env : Env) (box : Box) (s : UidStore)
    → IsValid s
    → env.commits ≡ true
    → (info : ℕ × ℕ) × ((mailbox_info env box s).0 ≡ some info)
      × Reports box s (mailbox_info env box s).1 info
unfolding mailbox_info
mailbox_info-Reports env box s v c =
    let e = ensure_mailbox_lem env box s v.ranges in
    let (info, s') = ensure_mailbox env box s in
    (
      info,
      rw (transaction_commits env s s' info c),
      rw (transaction_commits env s s' info c) (record {
        valid = ensure_mailbox-IsValid env box s v;
        live = unfold live_map in ap (select_live box) e.same_rows;
        next = unfold next_of in ground (arith, e.reports, e.found);
        nexts = e.nexts;
      }),
    )
