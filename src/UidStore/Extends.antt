-- ===== src/UidStore/Extends.antt =====
-- imapgw/uidstore.py: what each call leaves of the store before it.
use imap_work_trial.Base.{
  ℕ, ◌≤◌, ◌<◌, ◌≡◌, refl, ◌==◌, nat_eq, list_eq, ==_iff, Bool, true, All, ◌&&◌, sorted, All-map,
  Bytes, Bool-cases, Option-cases, Option, none, some, List, [], ◌∷◌, ◌++◌, arith, inl, inr,
  if◌then◌else◌,
}
use imap_work_trial.UidStore.Tables.{
  Box, box_eq, same_box_iff, MailboxRow, UidRow, find_mailbox, set_next_uid, set_vanished,
}
use imap_work_trial.UidStore.Calls.{
  Alloc, UidStore, Env, transaction, ensure_mailbox, mailbox_info, ensure_uids, tombstone_missing,
  set_deleted, live_map, missing,
}
use imap_work_trial.UidStore.Valid.{next_of, IsValid, Added, Allocates}
use imap_work_trial.UidStore.Mailboxes.{ensure_mailbox_lem, find_mailbox-set_next_uid}
use imap_work_trial.UidStore.Allocation.{
  opened, start, ensured, start_next, committed, committed_nexts, ensure_uids_lem,
}

-- The key that a UID of a mailbox names, live or vanished.
unfoldable pub key_of : Box → ℕ → List UidRow → Option Bytes
key_of box uid [] = none
key_of box uid (r ∷ rows) =
    if r.box == box && r.uid == uid then some r.remote_key else key_of box uid rows

unfoldable pub uidvalidity_of : Box → List MailboxRow → Option ℕ
uidvalidity_of box rows = elim (find_mailbox box rows) [ none ↦ none | some m ↦ some m.uidvalidity ]

-- What a later store has of an earlier one.
pub record Extends (s s' : UidStore) : Type 0 where
  pub keys :
      (box : Box) (uid : ℕ) (k : Bytes)
      → key_of box uid s.uid_map ≡ some k
      → key_of box uid s'.uid_map ≡ some k
  pub nexts : (box : Box) → next_of box s.mailbox ≤ next_of box s'.mailbox
  pub validities :
      (box : Box) (n : ℕ)
      → uidvalidity_of box s.mailbox ≡ some n
      → uidvalidity_of box s'.mailbox ≡ some n

pub Extends-refl : (s : UidStore) → Extends s s
Extends-refl s = record {
  keys = λ box uid k h. h;
  nexts = λ box. omega arith;
  validities = λ box n h. h;
}

pub Extends-trans : {s t u : UidStore} → Extends s t → Extends t u → Extends s u
Extends-trans a b = record {
  keys = λ box uid k h. b.keys box uid k (a.keys box uid k h);
  nexts = λ box. omega (arith, a.nexts box, b.nexts box);
  validities = λ box n h. b.validities box n (a.validities box n h);
}

transaction-Extends :
    {A : Type 0} (env : Env) (s s' : UidStore) (r : Option A)
    → Extends s s'
    → Extends s (transaction env s (r, s')).1
unfolding transaction
transaction-Extends env s s' none x = record {
  keys = λ box uid k h. h;
  nexts = λ box. omega arith;
  validities = λ box n h. h;
}
transaction-Extends env s s' (some a) x = elim (Bool-cases env.commits) [
  | inl yes' ↦ rw (yes', transaction) x
  | inr no' ↦
      rw (no', transaction)
        (record { keys = λ box uid k h. h; nexts = λ box. omega arith; validities = λ box n h. h })
]

key_of-set_vanished :
    (b : Box) (u : ℕ) (box : Box) (gone : List ℕ) (now : Bytes) (rows : List UidRow)
    → key_of b u (set_vanished box gone now rows) ≡ key_of b u rows
unfolding key_of set_vanished
key_of-set_vanished b u box gone now [] = refl
key_of-set_vanished b u box gone now (r ∷ rows) =
    ground (arith, key_of-set_vanished b u box gone now rows)

-- A UID with a row is below the mailbox's next UID.
key_of-lt :
    (b : Box) (u : ℕ) (ms : List MailboxRow) (rows : List UidRow) (k : Bytes)
    → All (λ r. r.uid < next_of r.box ms) rows
    → key_of b u rows ≡ some k
    → u < next_of b ms
unfolding key_of
key_of-lt b u ms [] k h e = absurd (ground arith)
key_of-lt b u ms (r ∷ rows) k h e =
    ground (arith, same_box_iff r.box b, ==_iff r.uid u, key_of-lt b u ms rows k h.1)

-- The rows that an allocation adds stand above the UIDs that are taken.
key_of-Added :
    (b : Box) (u : ℕ) (box : Box) (lo hi : ℕ) (now : Bytes) (added rows : List UidRow) (k : Bytes)
    → ((box == b) ≡ true → u < lo)
    → All (Added box now lo hi) added
    → key_of b u rows ≡ some k
    → key_of b u (added ++ rows) ≡ some k
unfolding key_of
key_of-Added b u box lo hi now [] rows k n h e = e
key_of-Added b u box lo hi now (r ∷ added) rows k n h e = ground (
  arith,
  n,
  h.0,
  same_box_iff r.box b,
  same_box_iff box b,
  ==_iff r.uid u,
  key_of-Added b u box lo hi now added rows k n,
)

uidvalidity_of-set_next_uid :
    (b box : Box) (n : ℕ) (ms : List MailboxRow)
    → uidvalidity_of b (set_next_uid box n ms) ≡ uidvalidity_of b ms
unfolding uidvalidity_of
uidvalidity_of-set_next_uid b box n ms = ground (arith, find_mailbox-set_next_uid box b n ms)

uidvalidity_of-kept :
    (b : Box) (n : ℕ) (ms ms' : List MailboxRow)
    → ((m : MailboxRow) → find_mailbox b ms ≡ some m → find_mailbox b ms' ≡ some m)
    → uidvalidity_of b ms ≡ some n
    → uidvalidity_of b ms' ≡ some n
unfolding uidvalidity_of
uidvalidity_of-kept b n ms ms' keep h = elim (Option-cases (find_mailbox b ms)) [
  | inl miss ↦ absurd (ground arith)
  | inr (m, hit) ↦ ground (arith, keep m hit)
]

ensure_mailbox-Extends :
    (env : Env) (box : Box) (s : UidStore) → IsValid s → Extends s (ensure_mailbox env box s).1
ensure_mailbox-Extends env box s v =
    let e = ensure_mailbox_lem env box s v.ranges in
    record {
      keys = λ b u k h. rw e.same_rows h;
      nexts = λ b. omega (arith, e.nexts b);
      validities = λ b n h. uidvalidity_of-kept b n s.mailbox _ (e.kept b) h;
    }

pub ensure_mailbox-IsValid :
    (env : Env) (box : Box) (s : UidStore) → IsValid s → IsValid (ensure_mailbox env box s).1
ensure_mailbox-IsValid env box s v =
    let e = ensure_mailbox_lem env box s v.ranges in
    record {
      below = rw e.same_rows (
          All-map (λ r. r.uid < next_of r.box s.mailbox)
            (λ r. r.uid < next_of r.box (ensure_mailbox env box s).1.mailbox) (λ r h. rw e.nexts h)
            s.uid_map v.below);
      keyed = rw e.same_rows v.keyed;
      ranges = e.ranges;
    }

pub mailbox_info-Extends :
    (env : Env) (box : Box) (s : UidStore) → IsValid s → Extends s (mailbox_info env box s).1
unfolding mailbox_info
mailbox_info-Extends env box s v =
    transaction-Extends env s _ _ (ensure_mailbox-Extends env box s v)

committed-Extends :
    (env : Env) (box : Box) (keys : List (Bytes × Bytes)) (s : UidStore) (v : IsValid s) (a : Alloc)
    → Allocates box env.now (start env box keys s v) a
    → Extends s (committed env box keys s v a)
committed-Extends env box keys s v a d =
    let e = ensured env box keys s v in
    let lo = next_of box s.mailbox in
    let first : (start env box keys s v).next ≡ lo = start_next env box keys s v in
    record {
      keys = λ b u k h.
          rw (d.rows, e.same_rows)
            (key_of-Added b u box _ a.next env.now d.added s.uid_map k
              (λ same.
                rw (first, (same_box_iff box b).0 same)
                  (key_of-lt b u s.mailbox s.uid_map k v.below h))
              d.ranges h);
      nexts = λ b.
          rw (committed_nexts env box keys s v a b d)
            (ground (arith, same_box_iff box b, d.grows, first));
      validities = λ b n h.
          let opened_mailbox = (opened env box keys s v).mailbox in
          ground (
            arith,
            uidvalidity_of-set_next_uid b box a.next opened_mailbox,
            uidvalidity_of-kept b n s.mailbox opened_mailbox (e.kept b) h,
          );
    }

pub tombstone_missing-Extends :
    (env : Env) (box : Box) (present : List Bytes) (s : UidStore)
    → Extends s (tombstone_missing env box present s).1
unfolding tombstone_missing
tombstone_missing-Extends env box present s =
    let gone = sorted (missing present (live_map box s)) in
    elim (Bool-cases (gone == [])) [
      | inl nothing ↦ rw (nothing, tombstone_missing) (Extends-refl s)
      | inr some' ↦
          rw (some', tombstone_missing)
            (transaction-Extends env s _ (some gone) (record {
              keys = λ b u k h. rw key_of-set_vanished h;
              nexts = λ b. omega arith;
              validities = λ b n h. h;
            }))
    ]

pub set_deleted-Extends :
    (env : Env) (box : Box) (uids : List ℕ) (value : Bool) (s : UidStore)
    → Extends s (set_deleted env box uids value s).1
unfolding set_deleted
set_deleted-Extends env box uids value s = elim (Bool-cases (uids == [])) [
  | inl nothing ↦ rw (nothing, set_deleted) (Extends-refl s)
  | inr some' ↦
      rw (some', set_deleted)
        (transaction-Extends env s _ (some tt)
          (record { keys = λ b u k h. h; nexts = λ b. omega arith; validities = λ b n h. h }))
]

pub ensure_uids-Extends :
    (env : Env) (box : Box) (keys : List (Bytes × Bytes)) (s : UidStore)
    → IsValid s
    → Extends s (ensure_uids env box keys s).1
ensure_uids-Extends env box keys s v =
    let (a, d, runs, _) = ensure_uids_lem env box keys s v in
    rw runs (transaction-Extends env s _ (some a.live) (committed-Extends env box keys s v a d))
