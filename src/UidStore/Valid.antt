-- ===== src/UidStore/Valid.antt =====
-- imapgw/uidstore.py: what holds of the tables between calls, and why no INSERT into `uid_map`
-- meets a key constraint.
use imap_work_trial.Base.{
  ℕ, ◌+◌, ◌≤◌, ◌<◌, ◌≡◌, refl, sym, ◌∙◌, ◌==◌, nat_eq, list_eq, ==_iff, true, false, Bytes, lookup,
  insert, lookup-insert, any, All, All-map, All-append, Option-cases, none, some, List, [], ◌∷◌,
  ◌++◌, arith, inl, inr, append_assoc,
}
use imap_work_trial.UidStore.Tables.{
  Box, box_eq, same_box_iff, MailboxRow, UidRow, find_mailbox, clash, insert_uid, select_live,
}
use imap_work_trial.UidStore.Calls.{UidStore, Alloc, allocate, allocate_all, max_uidvalidity}

-- The next UID of a mailbox, 1 if it has no row yet.
unfoldable pub next_of : Box → List MailboxRow → ℕ
next_of box rows = elim (find_mailbox box rows) [ none ↦ 1 | some m ↦ m.next_uid ]

-- The primary key and the unique index hold for every two rows.
abbrev pub HasKeys : List UidRow → Type 0
HasKeys [] = Unit
HasKeys (r ∷ rows) = (any (clash r) rows ≡ false) × HasKeys rows

abbrev pub InRange : MailboxRow → Type 0
InRange m = (1 ≤ m.next_uid) × (1 ≤ m.uidvalidity) × (m.uidvalidity ≤ max_uidvalidity)

pub record IsValid (s : UidStore) : Type 0 where
  pub below : All (λ r. r.uid < next_of r.box s.mailbox) s.uid_map
  pub keyed : HasKeys s.uid_map
  pub ranges : All InRange s.mailbox

-- What the loop of `ensure_uids` keeps.
pub record Fits (box : Box) (a : Alloc) : Type 0 where
  pub bound : All (λ r. (r.box == box) ≡ true → r.uid < a.next) a.rows
  pub keyed : HasKeys a.rows
  pub agree : (k : Bytes) → lookup k a.live ≡ lookup k (select_live box a.rows)

-- A UID above those of the mailbox, with a key that is not live, meets no constraint.
no_clash :
    (r : UidRow) (rows : List UidRow)
    → All (λ q. (q.box == r.box) ≡ true → q.uid < r.uid) rows
    → lookup r.remote_key (select_live r.box rows) ≡ none
    → any (clash r) rows ≡ false
unfolding clash select_live lookup
no_clash r [] h l = refl
no_clash r (q ∷ rows) h l = ground (
  arith,
  h.0,
  same_box_iff q.box r.box,
  same_box_iff r.box q.box,
  ==_iff r.uid q.uid,
  ==_iff r.remote_key q.remote_key,
  ==_iff q.remote_key r.remote_key,
  no_clash r rows h.1,
)

abbrev pub new_row : Box → Bytes → Bytes × Bytes → ℕ → UidRow
new_row box now key uid = record {
  box = box;
  uid = uid;
  remote_key = key.0;
  remote_id = key.1;
  first_seen_at = now;
  vanished_at = none;
}

abbrev pub after : Box → Bytes → Bytes × Bytes → Alloc → Alloc
after box now key a = record {
  rows = new_row box now key a.next ∷ a.rows;
  live = insert key.0 a.next a.live;
  next = a.next + 1;
  allocated = a.allocated + 1;
}

module _ (box : Box) (now : Bytes) where
  fresh :
      (key : Bytes × Bytes) (a : Alloc)
      → Fits box a
      → lookup key.0 a.live ≡ none
      → any (clash (new_row box now key a.next)) a.rows ≡ false
  fresh key a f new =
      no_clash (new_row box now key a.next) a.rows f.bound (sym (f.agree key.0) ∙ new)

  pub allocate_lem :
      (key : Bytes × Bytes) (a : Alloc)
      → Fits box a
      → lookup key.0 a.live ≡ none
      → allocate box now key a ≡ some (after box now key a)
  unfolding allocate insert_uid
  allocate_lem key a f new = ground (arith, fresh key a f new)

  pub after-Fits :
      (key : Bytes × Bytes) (a : Alloc)
      → Fits box a
      → lookup key.0 a.live ≡ none
      → Fits box (after box now key a)
  after-Fits key a f new = record {
    bound = (
      λ _. omega arith,
      All-map (λ r. (r.box == box) ≡ true → r.uid < a.next)
          (λ r. (r.box == box) ≡ true → r.uid < a.next + 1) (λ r h e. omega (arith, h e)) a.rows
          f.bound,
    );
    keyed = (fresh key a f new, f.keyed);
    agree = λ k.
        unfold select_live lookup in
        rw lookup-insert (ground (arith, f.agree k, ==_iff key.0 k, ==_iff box box));
  }

  -- The rows that a loop adds: its own mailbox's, live, with UIDs between `lo` and `hi`.
  abbrev pub Added : ℕ → ℕ → UidRow → Type 0
  Added lo hi r = (r.box ≡ box) × (lo ≤ r.uid) × (r.uid < hi) × (r.vanished_at ≡ none)

  pub record Allocates (a a' : Alloc) : Type 0 where
    pub fits : Fits box a'
    pub counted : a'.next + a.allocated ≡ a.next + a'.allocated
    pub grows : a.next ≤ a'.next
    pub added : List UidRow
    pub rows : a'.rows ≡ added ++ a.rows
    pub ranges : All (Added a.next a'.next) added

  -- The loop of `ensure_uids` meets no key constraint, and only adds rows.
  pub allocate_all_lem :
      (keys : List (Bytes × Bytes)) (a : Alloc)
      → Fits box a
      → (a' : Alloc) × (allocate_all box now keys a ≡ some a') × Allocates a a'
  unfolding allocate_all
  allocate_all_lem [] a f = (
    a,
    refl,
    record { fits = f; counted = refl; grows = omega arith; added = []; rows = refl; ranges = tt },
  )
  allocate_all_lem (key ∷ keys) a f = elim (Option-cases (lookup key.0 a.live)) [
    | inr (uid, known) ↦
        let (a', runs, d) = allocate_all_lem keys a f in (a', rw (known, allocate_all) runs, d)
    | inl new ↦
        let b = after box now key a in
        let (a', runs, d) = allocate_all_lem keys b (after-Fits key a f new) in
        (
          a',
          rw (new, allocate_all) (rw (allocate_lem key a f new) runs),
          record {
            fits = d.fits;
            counted = omega (arith, d.counted);
            grows = omega (arith, d.grows);
            added = d.added ++ new_row box now key a.next ∷ [];
            rows = d.rows ∙ sym (append_assoc d.added (new_row box now key a.next ∷ []) a.rows);
            ranges =
                All-append (Added a.next a'.next) d.added (new_row box now key a.next ∷ [])
                  (All-map (Added b.next a'.next) (Added a.next a'.next)
                    (λ r h. (h.0, omega (arith, h.1), h.2, h.3)) d.added d.ranges)
                  ((refl, omega arith, omega (arith, d.grows), refl), tt);
          },
        )
  ]
