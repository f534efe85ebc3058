-- ===== src/UidStore/Mailboxes.antt =====
-- imapgw/uidstore.py, the table `mailbox`: its rows' next UID and UIDVALIDITY.
use imap_work_trial.Base.{
  ℕ, ◌≤◌, ◌<◌, ◌≡◌, refl, ◌==◌, nat_eq, All, Option-cases, Option, none, some, List, [], ◌∷◌, arith,
  inl, inr, if◌then◌else◌,
}
use imap_work_trial.UidStore.Tables.{
  Box, box_eq, same_box_iff, MailboxRow, find_mailbox, set_next_uid,
}
use imap_work_trial.UidStore.Calls.{
  UidStore, Env, next_uidvalidity, read_watermark, ensure_mailbox, max_uidvalidity,
}
use imap_work_trial.UidStore.Valid.{next_of, InRange}

-- A value that is issued is at least 1 and below 2 ^ 32; it is at least the clock's and above the
-- watermark as read, unless that would pass 2 ^ 32 - 1.
pub next_uidvalidity_bounds :
    (env : Env) (s : UidStore)
    → let value = (next_uidvalidity env s).0 in
      (1 ≤ value)
      × (value ≤ max_uidvalidity)
      × (env.clock ≤ max_uidvalidity → env.clock ≤ value)
      × (read_watermark env s < max_uidvalidity → read_watermark env s < value)
unfolding next_uidvalidity
next_uidvalidity_bounds env s = (omega arith, omega arith, λ h. omega arith, λ h. omega arith)

-- What an UPDATE of `next_uid` leaves to find.
abbrev pub updated : Box → ℕ → Box → List MailboxRow → Option MailboxRow
updated box n b rows = elim (find_mailbox b rows) [
  | none ↦ none
  | some m ↦ some (if box == b then record m { next_uid = n } else m)
]

pub find_mailbox-set_next_uid :
    (box b : Box) (n : ℕ) (rows : List MailboxRow)
    → find_mailbox b (set_next_uid box n rows) ≡ updated box n b rows
unfolding set_next_uid find_mailbox
find_mailbox-set_next_uid box b n [] = refl
find_mailbox-set_next_uid box b n (m ∷ rows) = ground (
  arith,
  same_box_iff m.box box,
  same_box_iff m.box b,
  same_box_iff box b,
  find_mailbox-set_next_uid box b n rows,
)

pub next_of-set_next_uid :
    (box b : Box) (n : ℕ) (rows : List MailboxRow) (m : MailboxRow)
    → find_mailbox box rows ≡ some m
    → next_of b (set_next_uid box n rows) ≡ (if box == b then n else next_of b rows)
unfolding next_of
next_of-set_next_uid box b n rows m h =
    ground (arith, find_mailbox-set_next_uid box b n rows, same_box_iff box b)

pub InRange-set_next_uid :
    (box : Box) (n : ℕ) (rows : List MailboxRow)
    → 1 ≤ n
    → All InRange rows
    → All InRange (set_next_uid box n rows)
unfolding set_next_uid
InRange-set_next_uid box n [] h r = tt
InRange-set_next_uid box n (m ∷ rows) h r = ground (arith, InRange-set_next_uid box n rows)

-- Issuing a value touches no table.
next_uidvalidity-tables :
    (env : Env) (s : UidStore)
    → ((next_uidvalidity env s).1.mailbox ≡ s.mailbox)
      × ((next_uidvalidity env s).1.uid_map ≡ s.uid_map)
      × ((next_uidvalidity env s).1.deleted_mark ≡ s.deleted_mark)
unfolding next_uidvalidity
next_uidvalidity-tables env s = ground arith

new_nexts :
    (box b : Box) (v : ℕ) (rows : List MailboxRow)
    → find_mailbox box rows ≡ none
    → next_of b (record { box = box; uidvalidity = v; next_uid = 1 } ∷ rows) ≡ next_of b rows
unfolding next_of find_mailbox
new_nexts box b v rows new = ground (arith, same_box_iff box b)

new_kept :
    (box b : Box) (v : ℕ) (rows : List MailboxRow) (m : MailboxRow)
    → find_mailbox box rows ≡ none
    → find_mailbox b rows ≡ some m
    → find_mailbox b (record { box = box; uidvalidity = v; next_uid = 1 } ∷ rows) ≡ some m
unfolding find_mailbox
new_kept box b v rows m new h = ground (arith, same_box_iff box b)

-- `_ensure_mailbox` finds or adds the mailbox's row; it moves no next UID.
pub record Ensures (box : Box) (s s' : UidStore) (info : ℕ × ℕ) : Type 0 where
  pub row : MailboxRow
  pub found : find_mailbox box s'.mailbox ≡ some row
  pub reports : info ≡ (row.uidvalidity, row.next_uid)
  pub nexts : (b : Box) → next_of b s'.mailbox ≡ next_of b s.mailbox
  pub kept :
      (b : Box) (m : MailboxRow)
      → find_mailbox b s.mailbox ≡ some m
      → find_mailbox b s'.mailbox ≡ some m
  pub same_rows : s'.uid_map ≡ s.uid_map
  pub same_marks : s'.deleted_mark ≡ s.deleted_mark
  pub ranges : All InRange s'.mailbox

pub ensure_mailbox_lem :
    (env : Env) (box : Box) (s : UidStore)
    → All InRange s.mailbox
    → Ensures box s (ensure_mailbox env box s).1 (ensure_mailbox env box s).0
unfolding ensure_mailbox
ensure_mailbox_lem env box s h = elim (Option-cases (find_mailbox box s.mailbox)) [
  | inr (m, known) ↦
      rw (known, ensure_mailbox)
        (record {
          row = m;
          found = known;
          reports = refl;
          nexts = λ b. refl;
          kept = λ b m e. e;
          same_rows = refl;
          same_marks = refl;
          ranges = h;
        })
  | inl new ↦
      let value = (next_uidvalidity env s).0 in
      let (mailbox, uid_map, marks) = next_uidvalidity-tables env s in
      let (low, high, _, _) = next_uidvalidity_bounds env s in
      rw (new, ensure_mailbox)
        (record {
          row = record { box = box; uidvalidity = value; next_uid = 1 };
          found = unfold find_mailbox in ground (arith, same_box_iff box box);
          reports = refl;
          nexts = λ b. rw mailbox (new_nexts box b value s.mailbox new);
          kept = λ b m e. rw mailbox (new_kept box b value s.mailbox m new e);
          same_rows = uid_map;
          same_marks = marks;
          ranges = ((omega arith, low, high), rw mailbox h);
        })
]
