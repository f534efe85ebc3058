-- ===== src/Session/Selected.antt =====
-- imapgw/session.py: `Selected`, `from_snapshot` and `flush_pending`.
use imap_work_trial.Base.{
  ℕ, zero, suc, ◌+◌, ◌==◌, nat_eq, Bool, not, if◌then◌else◌, length, get_elem?, filter, contains,
  Bytes, Dict, lookup, insert, erase, sorted, Option, none, some, List, [], ◌∷◌, ◌++◌,
}
use imap_work_trial.Mailbox.Flags.{
  Flags, flags_eq, Item, MailboxSnapshot, item_uids, by_uid, flags_of,
}

-- `Selected`
pub record Selected : Type 0 where
  pub name : Bytes
  pub read_only : Bool
  pub uids : List ℕ
  pub seq_of : Dict ℕ ℕ
  pub view_version : ℕ
  pub flags_seen : Dict ℕ Flags

-- What `flush_pending` writes: `r.expunge`, `r.exists`, and `r.fetch_response` with UID and FLAGS.
pub data Response : Type 0 where
  expunge : ℕ → Response
  exists : ℕ → Response
  fetch_flags : ℕ → ℕ → Flags → Response

-- `{uid: i + 1 for i, uid in enumerate(uids)}`, from `i` on
unfoldable pub number_from : ℕ → List ℕ → Dict ℕ ℕ → Dict ℕ ℕ
number_from i [] d = d
number_from i (uid ∷ uids) d = number_from (i + 1) uids (insert uid (i + 1) d)

unfoldable pub flags_from : List Item → List ℕ → Dict ℕ Flags → Dict ℕ Flags
flags_from [] marked d = d
flags_from (item ∷ items) marked d =
    flags_from items marked (insert item.uid (flags_of item marked) d)

unfoldable pub from_snapshot : Bytes → MailboxSnapshot → Bool → List ℕ → Selected
unfolding number_from flags_from
from_snapshot name snapshot read_only marked = record {
  name = name;
  read_only = read_only;
  uids = item_uids snapshot.items;
  seq_of = number_from 0 (item_uids snapshot.items) [];
  view_version = snapshot.version;
  flags_seen = flags_from snapshot.items marked [];
}

-- `del xs[i]`
unfoldable pub delete_at {ℓ} : {A : Type ℓ} → ℕ → List A → List A
delete_at i [] = []
delete_at zero (x ∷ xs) = xs
delete_at (suc i) (x ∷ xs) = x ∷ delete_at i xs

-- The first loop, for the sequence numbers from the given one down to 1.
unfoldable pub expunge_loop :
    List ℕ → ℕ → List ℕ → Dict ℕ Flags → List Response × List ℕ × Dict ℕ Flags
unfolding delete_at
expunge_loop live zero uids seen = ([], uids, seen)
expunge_loop live (suc m) uids seen = elim (get_elem? uids m) [
  | none ↦ ([], uids, seen)
  | some uid ↦
      let kept = expunge_loop live m uids seen in
      let (out, uids', seen') = expunge_loop live m (delete_at m uids) (erase uid seen) in
      if contains live uid then kept else (expunge (suc m) ∷ out, uids', seen')
]

-- `[item.uid for item in latest.items if item.uid not in known]`
unfoldable pub arrivals : List ℕ → List Item → List ℕ
arrivals known items = filter (λ uid. not (contains known uid)) (item_uids items)

-- What the arrivals make of the view.
unfoldable pub admit : List ℕ → List ℕ → List Response × List ℕ
unfolding sorted
admit uids [] = ([], uids)
admit uids (uid ∷ added) =
    let all_uids = sorted (uids ++ uid ∷ added) in (exists (length all_uids) ∷ [], all_uids)

-- The last loop, from the given sequence number on.
unfoldable pub announce_flags :
    Dict ℕ Item → List ℕ → ℕ → List ℕ → Dict ℕ Flags → List Response × Dict ℕ Flags
unfolding lookup insert
announce_flags items marked seq [] seen = ([], seen)
announce_flags items marked seq (uid ∷ uids) seen = elim (lookup uid items) [
  | none ↦ announce_flags items marked (suc seq) uids seen
  | some item ↦
      let flags = flags_of item marked in
      let (out, seen') = announce_flags items marked (suc seq) uids (insert uid flags seen) in
      elim (lookup uid seen) [
        | none ↦ (out, seen')
        | some previous ↦
            (if previous == flags then out else fetch_flags seq uid flags ∷ out, seen')
      ]
]

-- `flush_pending`, behind its early returns
unfoldable pub flush_view : MailboxSnapshot → List ℕ → Selected → List Response × Selected
flush_view latest marked sel =
    let (gone, kept, seen) =
      expunge_loop (item_uids latest.items) (length sel.uids) sel.uids sel.flags_seen in
    let (grown, uids) = admit kept (arrivals kept latest.items) in
    let (changed, flags_seen) = announce_flags (by_uid latest) marked 1 uids seen in
    (
      gone ++ (grown ++ changed),
      record sel {
        uids = uids;
        seq_of = number_from 0 uids [];
        view_version = latest.version;
        flags_seen = flags_seen;
      },
    )

-- The part of `Session` that a view is about.
pub record Session : Type 0 where
  pub inbox_id : Option Bytes
  pub selected : Option Selected

-- What the session asks of the mailbox service.
pub record MailboxService : Type 0 where
  pub latest : Bytes → Bytes → Option MailboxSnapshot
  pub deleted_uids : Bytes → Bytes → List ℕ

unfoldable pub flush_pending : MailboxService → Session → List Response × Session
flush_pending mailboxes session = elim session.selected [
  | none ↦ ([], session)
  | some sel ↦ elim session.inbox_id [
    | none ↦ ([], session)
    | some inbox ↦ elim (mailboxes.latest inbox sel.name) [
      | none ↦ ([], session)
      | some latest ↦
          let (out, sel') = flush_view latest (mailboxes.deleted_uids inbox sel.name) sel in
          (out, record session { selected = some sel' })
    ]
  ]
]
