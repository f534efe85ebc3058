-- ===== src/UidStore/Allocation.antt =====
-- imapgw/uidstore.py, `ensure_uids`: the transaction as a whole.
use imap_work_trial.Base.{
  ◌≤◌, ◌<◌, ◌≡◌, refl, ◌==◌, nat_eq, list_eq, Bool, true, false, All, All-map, All-append, Bytes,
  Bool-cases, Option, none, some, List, [], ◌∷◌, arith, inl, inr, if◌then◌else◌,
}
use imap_work_trial.UidStore.Tables.{
  Box, box_eq, same_box_iff, MailboxRow, UidRow, find_mailbox, set_next_uid,
}
use imap_work_trial.UidStore.Calls.{
  UidStore, Env, Alloc, transaction, ensure_mailbox, live_map, allocate_all, ensure_uids,
}
use imap_work_trial.UidStore.Valid.{
  next_of, InRange, IsValid, Fits, Added, Allocates, allocate_all_lem,
}
use imap_work_trial.UidStore.Mailboxes.{
  Ensures, ensure_mailbox_lem, next_of-set_next_uid, InRange-set_next_uid,
}

-- A transaction leaves a valid store if its statements do.
pub transaction-IsValid :
    {A : Type 0} (env : Env) (s s' : UidStore) (r : Option A)
    → IsValid s
    → IsValid s'
    → IsValid (transaction env s (r, s')).1
unfolding transaction
transaction-IsValid env s s' none v v' = record {
  below = v.below;
  keyed = v.keyed;
  ranges = v.ranges;
}
transaction-IsValid env s s' (some a) v v' = elim (Bool-cases env.commits) [
  | inl yes' ↦ rw (yes', transaction) v'
  | inr no' ↦ rw (no', transaction) (record { below = v.below; keyed = v.keyed; ranges = v.ranges })
]

pub transaction_commits :
    {A : Type 0} (env : Env) (s s' : UidStore) (a : A)
    → env.commits ≡ true
    → transaction env s (some a, s') ≡ (some a, s')
unfolding transaction
transaction_commits env s s' a c = ground (arith, c)

next_of-pos : (b : Box) (rows : List MailboxRow) → All InRange rows → 1 ≤ next_of b rows
unfolding next_of find_mailbox
next_of-pos b [] h = omega arith
next_of-pos b (m ∷ rows) h = ground (arith, next_of-pos b rows h.1)

if_All :
    (b : Bool) (xs ys : List MailboxRow)
    → All InRange xs
    → All InRange ys
    → All InRange (if b then xs else ys)
if_All true xs ys h k = h
if_All false xs ys h k = k

module _ (env : Env) (box : Box) (keys : List (Bytes × Bytes)) (s : UidStore) (v : IsValid s) where
  abbrev pub opened : UidStore
  opened = (ensure_mailbox env box s).1

  abbrev pub start : Alloc
  start = record {
    rows = opened.uid_map;
    live = live_map box opened;
    next = (ensure_mailbox env box s).0.1;
    allocated = 0;
  }

  pub ensured : Ensures box s opened (ensure_mailbox env box s).0
  ensured = ensure_mailbox_lem env box s v.ranges

  pub start_next : start.next ≡ next_of box s.mailbox
  unfolding next_of
  start_next = ground (arith, ensured.reports, ensured.found, ensured.nexts box)

  pub start-Fits : Fits box start
  unfolding live_map
  start-Fits = record {
    bound = rw (ensured.same_rows) (
        All-map (λ r. r.uid < next_of r.box s.mailbox)
          (λ r. (r.box == box) ≡ true → r.uid < start.next)
          (λ r h e. rw (start_next, ← (same_box_iff r.box box).0 e) h) s.uid_map v.below);
    keyed = rw (ensured.same_rows) v.keyed;
    agree = λ k. refl;
  }

  abbrev pub committed : Alloc → UidStore
  committed a = record opened {
    uid_map = a.rows;
    mailbox = if a.allocated == 0 then opened.mailbox else set_next_uid box a.next opened.mailbox;
  }

  pub committed_nexts :
      (a : Alloc) (b : Box)
      → Allocates box env.now start a
      → next_of b (committed a).mailbox ≡ (if box == b then a.next else next_of b s.mailbox)
  committed_nexts a b d = ground (
    arith,
    ensured.nexts b,
    start_next,
    same_box_iff box b,
    d.counted,
    next_of-set_next_uid box b a.next opened.mailbox ensured.row ensured.found,
  )

  below_of :
      (a : Alloc) (r : UidRow)
      → Allocates box env.now start a
      → r.uid < (if box == r.box then a.next else next_of r.box s.mailbox)
      → r.uid < next_of r.box (committed a).mailbox
  below_of a r d h = rw (committed_nexts a r.box d) h

  committed-IsValid : (a : Alloc) → Allocates box env.now start a → IsValid (committed a)
  committed-IsValid a d = record {
    below =
        rw (d.rows, ensured.same_rows)
          (All-append (λ r. r.uid < next_of r.box (committed a).mailbox) d.added s.uid_map
            (All-map (Added box env.now start.next a.next)
              (λ r. r.uid < next_of r.box (committed a).mailbox)
              (λ r h.
                below_of a r d
                  (ground (arith, h.0, h.2, same_box_iff r.box box, same_box_iff box r.box)))
              d.added d.ranges)
            (All-map (λ r. r.uid < next_of r.box s.mailbox)
              (λ r. r.uid < next_of r.box (committed a).mailbox)
              (λ r h.
                below_of a r d (ground (arith, h, start_next, d.grows, same_box_iff box r.box)))
              s.uid_map v.below));
    keyed = d.fits.keyed;
    ranges =
        if_All (a.allocated == 0) opened.mailbox (set_next_uid box a.next opened.mailbox)
          ensured.ranges
          (InRange-set_next_uid box a.next opened.mailbox
            (omega (arith, d.grows, start_next, next_of-pos box s.mailbox v.ranges))
            ensured.ranges);
  }

  -- The call allocates as its loop does and then commits: no key constraint is met.
  pub ensure_uids_lem :
      (a : Alloc) × Allocates box env.now start a
      × (ensure_uids env box keys s ≡ transaction env s (some a.live, committed a))
      × (allocate_all box env.now keys start ≡ some a)
  unfolding ensure_uids
  ensure_uids_lem =
      let (a, runs, d) = allocate_all_lem box env.now keys start start-Fits in (a, d, rw runs, runs)

-- `ensure_uids` keeps the tables valid, whether it commits or rolls back.
pub ensure_uids-IsValid :
    (env : Env) (box : Box) (keys : List (Bytes × Bytes)) (s : UidStore)
    → IsValid s
    → IsValid (ensure_uids env box keys s).1
ensure_uids-IsValid env box keys s v =
    let (a, d, runs, _) = ensure_uids_lem env box keys s v in
    rw runs (transaction-IsValid env s _ _ v (committed-IsValid env box keys s v a d))
