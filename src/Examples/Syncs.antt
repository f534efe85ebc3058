-- ===== src/Examples/Syncs.antt =====
-- Runs of the model of `_do_sync` of imapgw/mailbox.py at concrete inputs.
use mathlib.Core.List.{foldl}
use imap_work_trial.Base.{
  ℕ, ◌≡◌, refl, nat_eq, list_eq, true, false, Bytes, codes, contains, lookup, insert, IsAscending,
  none, some, Option, List, [], ◌∷◌, inl, arith,
}
use imap_work_trial.UidStore.Tables.{
  Box, find_mailbox, select_live, insert_uid, clash, set_next_uid, same_box,
}
use imap_work_trial.UidStore.Calls.{
  Env, live_map, ensure_uids, next_uidvalidity, ensure_mailbox, read_watermark, write_watermark,
  live_map, allocate_all, allocate, transaction,
}
use imap_work_trial.UidStore.Valid.{IsValid, next_of}
use imap_work_trial.UidStore.History.{Call, ensure_call, step, empty, run-IsValid}
use imap_work_trial.Mailbox.Flags.{MailboxSnapshot}
use imap_work_trial.Mailbox.Catalog.{inbox}
use imap_work_trial.Mailbox.Listing.{
  Message, Entry, Overrides, message_entry, collect_messages, collect, effective_labels, held_in,
}
use imap_work_trial.Mailbox.Sync.{Service, Outside, do_sync, pins_of}
use imap_work_trial.Mailbox.Entries.{IsListing, collect_messages-IsListing}
use imap_work_trial.Mailbox.Pins.{AllPinsFit, no_pins}
use imap_work_trial.Mailbox.Snapshots.{Synced, do_sync-Synced}
use imap_work_trial.Session.Selected.{Selected, flush_view}
use imap_work_trial.Session.Client.{Mirrors, done, known, unknown, follow}
use imap_work_trial.Session.Follows.{Follows, InStep, sync-InStep, ensure_uids-Follows}

abbrev env : Env
env = record {
  clock = 1700000000;
  now = codes "2026-08-17";
  readable = true;
  writable = true;
  commits = true;
}

abbrev out : Outside
out = record { now = 50; allocating = env; striking = env; reading = env }

abbrev box : Box
box = record { inbox_id = codes "a@x"; name = codes "INBOX" }

abbrev message : Bytes → ℕ → List Bytes → Message
message id timestamp labels = record {
  message_id = id;
  labels = labels;
  timestamp = timestamp;
  size_hint = none;
  from_ = [];
  to = [];
  subject = [];
}

-- `m2` is in the trash, `m1` stands twice, and `m3` is older than `m1`.
abbrev listing : List Message
listing =
    message (codes "m1") 20 (codes "received" ∷ [])
    ∷ message (codes "m2") 15 (codes "received" ∷ codes "trash" ∷ [])
    ∷ message (codes "m1") 21 []
    ∷ message (codes "m3") 10 (codes "received" ∷ codes "unread" ∷ [])
    ∷ []

abbrev collection : Overrides → Option (List Entry) × Overrides
collection = collect_messages 50 (codes "a@x") inbox listing false

abbrev entries : List Entry
entries =
    message_entry (message (codes "m1") 20 (codes "received" ∷ [])) (codes "received" ∷ [])
    ∷ message_entry (message (codes "m3") 10 (codes "received" ∷ codes "unread" ∷ []))
        (codes "received" ∷ codes "unread" ∷ [])
    ∷ []

collected : (collection []).0 ≡ some entries
unfolding collect_messages collect effective_labels held_in lookup
collected = refl

entries-IsListing : IsListing entries
entries-IsListing =
    collect_messages-IsListing 50 (codes "a@x") inbox listing false [] entries collected

-- The store knew `m0`, now gone, as 1, and `m1` as 2.
abbrev calls : List (Env × Call)
calls = (env, ensure_call box ((codes "m0", codes "m0") ∷ (codes "m1", codes "m1") ∷ [])) ∷ []

abbrev service : Service
service = record {
  store = foldl step empty calls;
  latest = [];
  versions = [];
  generation = [];
  pinned = [];
  label_overrides = [];
}

service-IsValid : IsValid service.store
service-IsValid = run-IsValid calls

service-AllPinsFit : AllPinsFit service
unfolding pins_of lookup
service-AllPinsFit key = no_pins

do_sync-Synced_example : Synced box service.store (do_sync out box collection service)
do_sync-Synced_example =
    do_sync-Synced out box refl refl refl collection service entries collected entries-IsListing
      service-IsValid service-AllPinsFit

abbrev before : Selected
before = record {
  name = codes "INBOX";
  read_only = false;
  uids = 1 ∷ 2 ∷ [];
  seq_of = (1, 1) ∷ (2, 2) ∷ [];
  view_version = 1;
  flags_seen = [];
}

-- The UIDs of the store are 1 and 2, and the next is 3.
store_lem :
    (live_map box service.store ≡ (codes "m1", 2) ∷ (codes "m0", 1) ∷ [])
    × (next_of box service.store.mailbox ≡ 3)
unfolding step ensure_uids ensure_mailbox find_mailbox next_uidvalidity read_watermark
    write_watermark live_map select_live allocate_all allocate insert_uid clash set_next_uid
    same_box transaction lookup insert next_of
store_lem = (refl, refl)

live_two :
    (k : Bytes) (u : ℕ)
    → lookup k ((codes "m1", 2) ∷ (codes "m0", 1) ∷ []) ≡ some u
    → contains before.uids u ≡ true
unfolding lookup
live_two k u l = ground arith

before-Follows : Follows before.uids box service.store
before-Follows = record {
  known = λ k u l. inl (live_two k u (rw store_lem.0 at l));
  below = rw store_lem.1 (omega arith, (omega arith, tt));
}

before-IsAscending : IsAscending before.uids
before-IsAscending = ground arith

abbrev client : List (Option ℕ)
client = some 1 ∷ none ∷ []

client-Mirrors : Mirrors client before.uids
client-Mirrors = known 1 _ _ (unknown 2 _ _ done)

sync-InStep_example :
    (snap : MailboxSnapshot) × ((do_sync out box collection service).0 ≡ some snap)
    × InStep box (do_sync out box collection service).1.store (flush_view snap [] before).1
    × Mirrors (foldl follow client (flush_view snap [] before).0) (flush_view snap [] before).1.uids
sync-InStep_example =
    sync-InStep out box refl refl refl collection service entries before [] client collected
      entries-IsListing service-IsValid service-AllPinsFit before-IsAscending before-Follows
      client-Mirrors

ensure_uids-Follows_example :
    Follows before.uids box (ensure_uids env box ((codes "m9", codes "m9") ∷ []) service.store).1
ensure_uids-Follows_example =
    ensure_uids-Follows env before.uids box ((codes "m9", codes "m9") ∷ []) service.store
      service-IsValid refl before-Follows
