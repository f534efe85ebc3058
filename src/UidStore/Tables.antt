-- ===== src/UidStore/Tables.antt =====
-- imapgw/uidstore.py, the tables of the schema and the statements that the store executes on them.
-- A table is the list of its rows; an INSERT that a key constraint refuses is `none`.
use imap_work_trial.Base.{
  ℕ, Eq, ◌==◌, ==_iff, nat_eq, list_eq, Bool, true, false, ◌&&◌, ◌||◌, ◌≡◌, ◌↔◌, Bytes, any,
  contains, if◌then◌else◌, Option, none, some, List, [], ◌∷◌, arith,
}

-- The columns `inbox_id` and `name`, by which each row names its mailbox.
pub record Box : Type 0 where
  pub inbox_id : Bytes
  pub name : Bytes

unfoldable pub same_box : Box → Box → Bool
same_box a b = a.inbox_id == b.inbox_id && a.name == b.name

pub same_box_iff : (a b : Box) → (same_box a b ≡ true) ↔ (a ≡ b)
unfolding same_box
same_box_iff a b = ground (arith, ==_iff a.inbox_id b.inbox_id, ==_iff a.name b.name)

instance abbrev pub box_eq : Eq Box
box_eq = record { equal = same_box; equal_iff = same_box_iff }

pub record MailboxRow : Type 0 where
  pub box : Box
  pub uidvalidity : ℕ
  pub next_uid : ℕ

-- `vanished_at` is NULL as long as the item is live.
pub record UidRow : Type 0 where
  pub box : Box
  pub uid : ℕ
  pub remote_key : Bytes
  pub remote_id : Bytes
  pub first_seen_at : Bytes
  pub vanished_at : Option Bytes

pub record Mark : Type 0 where
  pub box : Box
  pub uid : ℕ

abbrev pub is_null : Option Bytes → Bool
is_null none = true
is_null (some _) = false

-- `SELECT … FROM mailbox WHERE inbox_id = ? AND name = ?`
unfoldable pub find_mailbox : Box → List MailboxRow → Option MailboxRow
find_mailbox box [] = none
find_mailbox box (m ∷ rows) = if m.box == box then some m else find_mailbox box rows

-- `UPDATE mailbox SET next_uid = ? WHERE inbox_id = ? AND name = ?`
unfoldable pub set_next_uid : Box → ℕ → List MailboxRow → List MailboxRow
set_next_uid box next [] = []
set_next_uid box next (m ∷ rows) =
    (if m.box == box then record m { next_uid = next } else m) ∷ set_next_uid box next rows

-- The primary key of `uid_map`, and its unique index on the live keys.
unfoldable pub clash : UidRow → UidRow → Bool
clash r q =
    r.box == q.box
    && (r.uid == q.uid
        || (is_null r.vanished_at && is_null q.vanished_at && r.remote_key == q.remote_key))

-- `INSERT INTO uid_map`
unfoldable pub insert_uid : UidRow → List UidRow → Option (List UidRow)
insert_uid r rows = if any (clash r) rows then none else some (r ∷ rows)

-- `SELECT remote_key, uid FROM uid_map WHERE … AND vanished_at IS NULL`, as a dictionary
unfoldable pub select_live : Box → List UidRow → List (Bytes × ℕ)
select_live box [] = []
select_live box (r ∷ rows) =
    let rest = select_live box rows in
    if r.box == box && is_null r.vanished_at then (r.remote_key, r.uid) ∷ rest else rest

-- `UPDATE uid_map SET vanished_at = ? WHERE … AND uid = ?`, executed for each of `gone`
unfoldable pub set_vanished : Box → List ℕ → Bytes → List UidRow → List UidRow
set_vanished box gone now [] = []
set_vanished box gone now (r ∷ rows) =
    (if r.box == box && contains gone r.uid then record r { vanished_at = some now } else r)
    ∷ set_vanished box gone now rows

-- `SELECT uid FROM deleted_mark WHERE inbox_id = ? AND name = ?`
unfoldable pub select_marks : Box → List Mark → List ℕ
select_marks box [] = []
select_marks box (m ∷ marks) =
    let rest = select_marks box marks in if m.box == box then m.uid ∷ rest else rest

abbrev pub marked : Box → ℕ → List Mark → Bool
marked box uid = any (λ m. m.box == box && m.uid == uid)

-- `INSERT OR IGNORE INTO deleted_mark`, executed for each of `uids`
unfoldable pub insert_marks : Box → List ℕ → List Mark → List Mark
insert_marks box [] marks = marks
insert_marks box (uid ∷ uids) marks =
    insert_marks box uids
      (if marked box uid marks then marks else record { box = box; uid = uid } ∷ marks)

-- `DELETE FROM deleted_mark WHERE … AND uid = ?`, executed for each of `uids`
unfoldable pub delete_marks : Box → List ℕ → List Mark → List Mark
delete_marks box uids [] = []
delete_marks box uids (m ∷ marks) =
    let rest = delete_marks box uids marks in
    if m.box == box && contains uids m.uid then rest else m ∷ rest
