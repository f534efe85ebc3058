-- ===== src/Examples/Store.antt =====
-- Runs of the model of imapgw/uidstore.py at concrete inputs.
use mathlib.Core.List.{foldl}
use imap_work_trial.Base.{
  ℕ, ◌≤◌, ◌≡◌, refl, nat_eq, list_eq, true, Bytes, codes, lookup, insert, Dict, some, List, [], ◌∷◌,
}
use imap_work_trial.UidStore.Tables.{
  Box, marked, find_mailbox, select_live, insert_uid, clash, set_next_uid, same_box,
}
use imap_work_trial.UidStore.Calls.{
  UidStore, Env, ensure_uids, tombstone_missing, set_deleted, next_uidvalidity, ensure_mailbox,
  read_watermark, write_watermark, live_map, allocate_all, allocate, transaction,
}
use imap_work_trial.UidStore.Valid.{IsValid, next_of}
use imap_work_trial.UidStore.Extends.{key_of, uidvalidity_of}
use imap_work_trial.UidStore.History.{
  Call, ensure_call, tombstone_call, set_deleted_call, step, empty, run-IsValid, run-key_of,
  run-uidvalidity,
}
use imap_work_trial.UidStore.Results.{Answers, ensure_uids-Answers}
use imap_work_trial.UidStore.Vanish.{Vanishes, tombstone_missing-Vanishes}
use imap_work_trial.UidStore.Marks.{marks_after, marked-set_deleted}

abbrev env : Env
env = record {
  clock = 1700000000;
  now = codes "2026-08-17";
  readable = true;
  writable = true;
  commits = true;
}

abbrev box : Box
box = record { inbox_id = codes "a@x"; name = codes "INBOX" }

abbrev keys : List (Bytes × Bytes)
keys = (codes "k1", codes "r1") ∷ (codes "k2", codes "r2") ∷ []

abbrev first_calls : List (Env × Call)
first_calls = (env, ensure_call box keys) ∷ []

-- The listing loses `k1`, gains `k3`, and `k2` is marked.
abbrev later_calls : List (Env × Call)
later_calls =
    (env, tombstone_call box (codes "k2" ∷ codes "k3" ∷ []))
    ∷ (env, ensure_call box ((codes "k3", codes "r3") ∷ keys))
    ∷ (env, set_deleted_call box (2 ∷ []) true)
    ∷ []

abbrev filled : UidStore
filled = foldl step empty first_calls

filled-IsValid : IsValid filled
filled-IsValid = run-IsValid first_calls

-- After the first call the UIDs 1 and 2 are the keys', and the UIDVALIDITY is the clock's.
filled_lem :
    (key_of box 1 filled.uid_map ≡ some (codes "k1"))
    × (uidvalidity_of box filled.mailbox ≡ some 1700000000)
unfolding step ensure_uids ensure_mailbox find_mailbox next_uidvalidity read_watermark
    write_watermark live_map select_live allocate_all allocate insert_uid clash transaction
    set_next_uid same_box lookup insert key_of uidvalidity_of
filled_lem = (refl, refl)

run-IsValid_example : IsValid (foldl step empty first_calls)
run-IsValid_example = run-IsValid first_calls

run-key_of_example : key_of box 1 (foldl step filled later_calls).uid_map ≡ some (codes "k1")
run-key_of_example = run-key_of later_calls filled box 1 (codes "k1") filled-IsValid filled_lem.0

run-uidvalidity_example :
    (uidvalidity_of box (foldl step filled later_calls).mailbox ≡ some 1700000000)
    × (next_of box filled.mailbox ≤ next_of box (foldl step filled later_calls).mailbox)
run-uidvalidity_example =
    run-uidvalidity later_calls filled box 1700000000 filled-IsValid filled_lem.1

abbrev new_keys : List (Bytes × Bytes)
new_keys = (codes "k3", codes "r3") ∷ keys

ensure_uids-Answers_example :
    (m : Dict Bytes ℕ) × ((ensure_uids env box new_keys filled).0 ≡ some m)
    × Answers box new_keys filled (ensure_uids env box new_keys filled).1 m
ensure_uids-Answers_example = ensure_uids-Answers env box new_keys filled filled-IsValid refl

tombstone_missing-Vanishes_example :
    (gone : List ℕ) × ((tombstone_missing env box (codes "k2" ∷ []) filled).0 ≡ some gone)
    × Vanishes box
        (codes "k2" ∷ [])
        filled
        (tombstone_missing env box (codes "k2" ∷ []) filled).1
        gone
tombstone_missing-Vanishes_example =
    tombstone_missing-Vanishes env box (codes "k2" ∷ []) filled filled-IsValid refl

marked-set_deleted_example :
    marked box 2 (set_deleted env box (1 ∷ 2 ∷ []) true filled).1.deleted_mark
    ≡ marks_after box (1 ∷ 2 ∷ []) true box 2 (marked box 2 filled.deleted_mark)
marked-set_deleted_example = marked-set_deleted env box (1 ∷ 2 ∷ []) true filled box 2 refl
