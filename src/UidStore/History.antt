-- ===== src/UidStore/History.antt =====
-- imapgw/uidstore.py: what no sequence of calls changes.
use mathlib.Core.List.{foldl}
use imap_work_trial.Base.{ℕ, ◌≤◌, ◌≡◌, Bool, Bytes, some, List, [], ◌∷◌}
use imap_work_trial.UidStore.Tables.{Box}
use imap_work_trial.UidStore.Calls.{
  UidStore, Env, ensure_mailbox, mailbox_info, ensure_uids, tombstone_missing, set_deleted,
}
use imap_work_trial.UidStore.Valid.{next_of, IsValid}
use imap_work_trial.UidStore.Allocation.{ensure_uids-IsValid, transaction-IsValid}
use imap_work_trial.UidStore.Tombstones.{tombstone_missing-IsValid, set_deleted-IsValid}
use imap_work_trial.UidStore.Extends.{
  key_of, uidvalidity_of, Extends, Extends-refl, Extends-trans, ensure_mailbox-IsValid,
  mailbox_info-Extends, ensure_uids-Extends, tombstone_missing-Extends, set_deleted-Extends,
}

-- The calls of the store that write.
pub data Call : Type 0 where
  info_call : Box → Call
  ensure_call : Box → List (Bytes × Bytes) → Call
  tombstone_call : Box → List Bytes → Call
  set_deleted_call : Box → List ℕ → Bool → Call

unfoldable pub step : UidStore → Env × Call → UidStore
step s (env, info_call box) = (mailbox_info env box s).1
step s (env, ensure_call box keys) = (ensure_uids env box keys s).1
step s (env, tombstone_call box present) = (tombstone_missing env box present s).1
step s (env, set_deleted_call box uids value) = (set_deleted env box uids value s).1

step_lem : (s : UidStore) (c : Env × Call) → IsValid s → IsValid (step s c) × Extends s (step s c)
unfolding step
step_lem s (env, info_call box) v = (
  unfold mailbox_info in
      transaction-IsValid env s _ (some (ensure_mailbox env box s).0) v
        (ensure_mailbox-IsValid env box s v),
  mailbox_info-Extends env box s v,
)
step_lem s (env, ensure_call box keys) v =
    (ensure_uids-IsValid env box keys s v, ensure_uids-Extends env box keys s v)
step_lem s (env, tombstone_call box present) v =
    (tombstone_missing-IsValid env box present s v, tombstone_missing-Extends env box present s)
step_lem s (env, set_deleted_call box uids value) v =
    (set_deleted-IsValid env box uids value s v, set_deleted-Extends env box uids value s)

-- A database with no row yet.
abbrev pub empty : UidStore
empty = record { mailbox = []; uid_map = []; deleted_mark = []; watermark = 0 }

pub run_lem :
    (calls : List (Env × Call)) (s : UidStore)
    → IsValid s
    → IsValid (foldl step s calls) × Extends s (foldl step s calls)
run_lem [] s v = (v, Extends-refl s)
run_lem (c ∷ calls) s v =
    let (v', x) = step_lem s c v in
    let (w, y) = run_lem calls (step s c) v' in (w, Extends-trans x y)

-- Whatever the calls on a new database, and whichever of them roll back, the tables are valid:
-- each row's UID is below the next UID of its mailbox, no two rows break the primary key or the
-- unique index, and next UIDs and UIDVALIDITY values are in their ranges.
pub run-IsValid : (calls : List (Env × Call)) → IsValid (foldl step empty calls)
run-IsValid calls = (run_lem calls empty (record { below = tt; keyed = tt; ranges = tt })).0

-- UIDs are never reused: on valid tables, a UID that names a remote key in a mailbox, live or
-- vanished, names that key after any calls.
pub run-key_of :
    (calls : List (Env × Call)) (s : UidStore) (box : Box) (uid : ℕ) (k : Bytes)
    → IsValid s
    → key_of box uid s.uid_map ≡ some k
    → key_of box uid (foldl step s calls).uid_map ≡ some k
run-key_of calls s box uid k v h = (run_lem calls s v).1.keys box uid k h

-- From valid tables no call changes the UIDVALIDITY of a mailbox that has a row, and the next UID
-- of no mailbox falls.
pub run-uidvalidity :
    (calls : List (Env × Call)) (s : UidStore) (box : Box) (n : ℕ)
    → IsValid s
    → uidvalidity_of box s.mailbox ≡ some n
    → (uidvalidity_of box (foldl step s calls).mailbox ≡ some n)
      × (next_of box s.mailbox ≤ next_of box (foldl step s calls).mailbox)
run-uidvalidity calls s box n v h =
    let x = (run_lem calls s v).1 in (x.validities box n h, x.nexts box)
