-- ===== src/UidStore/Calls.antt =====
-- imapgw/uidstore.py, the methods of `UidStore` after the database is open.
use imap_work_trial.Base.{
  ℕ, ◌+◌, ◌-◌, ◌^◌, min, max, nat_eq, list_eq, ◌==◌, Bool, Bytes, Dict, lookup, insert, contains,
  sorted, if◌then◌else◌, Option, none, some, List, [], ◌∷◌,
}
use mathlib.Core.Option
use imap_work_trial.UidStore.Tables.{
  Box, box_eq, MailboxRow, UidRow, Mark, find_mailbox, set_next_uid, insert_uid, select_live,
  set_vanished, select_marks, insert_marks, delete_marks,
}

-- The database and, beside it, the number in the watermark file (0 if there is none).
pub record UidStore : Type 0 where
  pub mailbox : List MailboxRow
  pub uid_map : List UidRow
  pub deleted_mark : List Mark
  pub watermark : ℕ

-- What a call meets outside: the clock, the time stamp, whether the watermark file can be read and
-- written, and whether the statements of the transaction go through.
pub record Env : Type 0 where
  pub clock : ℕ
  pub now : Bytes
  pub readable : Bool
  pub writable : Bool
  pub commits : Bool

-- `BEGIN IMMEDIATE` … `COMMIT`, with `ROLLBACK` on an exception, which is `none`. The watermark is
-- a file, so what was written to it stays; where `BEGIN` itself raises, nothing is written to it, as in
-- an environment whose file is not writable.
unfoldable pub transaction :
    {A : Type 0} → Env → UidStore → Option A × UidStore → Option A × UidStore
transaction env s (none, s') = (none, record s { watermark = s'.watermark })
transaction env s (some a, s') =
    if env.commits then (some a, s') else (none, record s { watermark = s'.watermark })

abbrev pub max_uidvalidity : ℕ
max_uidvalidity = 2 ^ 32 - 1

unfoldable pub read_watermark : Env → UidStore → ℕ
read_watermark env s = if env.readable then s.watermark else 0

unfoldable pub write_watermark : Env → ℕ → UidStore → UidStore
write_watermark env value s = if env.writable then record s { watermark = value } else s

unfoldable pub next_uidvalidity : Env → UidStore → ℕ × UidStore
unfolding read_watermark write_watermark
next_uidvalidity env s =
    let value = min (max (max 1 env.clock) (read_watermark env s + 1)) max_uidvalidity in
    (value, write_watermark env value s)

-- `_ensure_mailbox`
unfoldable pub ensure_mailbox : Env → Box → UidStore → (ℕ × ℕ) × UidStore
ensure_mailbox env box s = elim (find_mailbox box s.mailbox) [
  | some m ↦ ((m.uidvalidity, m.next_uid), s)
  | none ↦
      let (uidvalidity, s') = next_uidvalidity env s in
      let row : MailboxRow = record { box = box; uidvalidity = uidvalidity; next_uid = 1 } in
      ((uidvalidity, 1), record s' { mailbox = row ∷ s'.mailbox })
]

unfoldable pub mailbox_info : Env → Box → UidStore → Option (ℕ × ℕ) × UidStore
mailbox_info env box s =
    let (row, s') = ensure_mailbox env box s in transaction env s (some row, s')

-- `next_uid`
unfoldable pub next_uid : Env → Box → UidStore → Option ℕ × UidStore
next_uid env box s =
    let (row, s') = mailbox_info env box s in (Option.map (λ (r : ℕ × ℕ). r.1) row, s')

-- `live_map`
unfoldable pub live_map : Box → UidStore → Dict Bytes ℕ
live_map box s = select_live box s.uid_map

-- The variables of the loop of `ensure_uids`.
pub record Alloc : Type 0 where
  pub rows : List UidRow
  pub live : Dict Bytes ℕ
  pub next : ℕ
  pub allocated : ℕ

-- One round for a key that has no UID; `none` if the INSERT meets a key constraint.
unfoldable pub allocate : Box → Bytes → Bytes × Bytes → Alloc → Option Alloc
allocate box now (remote_key, remote_id) a =
    let row : UidRow = record {
      box = box;
      uid = a.next;
      remote_key = remote_key;
      remote_id = remote_id;
      first_seen_at = now;
      vanished_at = none;
    } in
    elim (insert_uid row a.rows) [
      | none ↦ none
      | some rows ↦ some (record {
        rows = rows;
        live = insert remote_key a.next a.live;
        next = a.next + 1;
        allocated = a.allocated + 1;
      })
    ]

-- The `for` of `ensure_uids`.
unfoldable pub allocate_all : Box → Bytes → List (Bytes × Bytes) → Alloc → Option Alloc
allocate_all box now [] a = some a
allocate_all box now (key ∷ keys) a = elim (lookup key.0 a.live) [
  | some _ ↦ allocate_all box now keys a
  | none ↦ elim (allocate box now key a) [ none ↦ none | some a' ↦ allocate_all box now keys a' ]
]

unfoldable pub ensure_uids :
    Env → Box → List (Bytes × Bytes) → UidStore → Option (Dict Bytes ℕ) × UidStore
ensure_uids env box keys s =
    let ((_, next), s') = ensure_mailbox env box s in
    let start : Alloc = record {
      rows = s'.uid_map;
      live = live_map box s';
      next = next;
      allocated = 0;
    } in
    transaction env s (elim (allocate_all box env.now keys start) [
      | none ↦ (none, s')
      | some a ↦ (
        some a.live,
        record s' {
          uid_map = a.rows;
          mailbox = if a.allocated == 0 then s'.mailbox else set_next_uid box a.next s'.mailbox;
        },
      )
    ])

-- The UIDs of the entries of `live` whose key is not in `present`.
unfoldable pub missing : List Bytes → Dict Bytes ℕ → List ℕ
missing present [] = []
missing present ((key, uid) ∷ live) =
    let rest = missing present live in if contains present key then rest else uid ∷ rest

unfoldable pub tombstone_missing : Env → Box → List Bytes → UidStore → Option (List ℕ) × UidStore
tombstone_missing env box present s =
    let gone = sorted (missing present (live_map box s)) in
    if gone == []
    then (some [], s)
    else transaction env s (
      some gone,
      record s {
        uid_map = set_vanished box gone env.now s.uid_map;
        deleted_mark = delete_marks box gone s.deleted_mark;
      },
    )

-- `deleted_uids`
unfoldable pub deleted_uids : Box → UidStore → List ℕ
deleted_uids box s = select_marks box s.deleted_mark

unfoldable pub set_deleted : Env → Box → List ℕ → Bool → UidStore → Option (Unit {0}) × UidStore
set_deleted env box uids value s =
    if uids == []
    then (some tt, s)
    else transaction env s (
      some tt,
      record s {
        deleted_mark =
            if value
            then insert_marks box uids s.deleted_mark
            else delete_marks box uids s.deleted_mark;
      },
    )
