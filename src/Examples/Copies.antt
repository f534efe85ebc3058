-- ===== src/Examples/Copies.antt =====
-- A run of the model of `copy_to_trash` of imapgw/mailbox.py at a concrete input.
use mathlib.Core.List.{foldl}
use imap_work_trial.Base.{
  ℕ, ◌≡◌, ◌⊎◌, refl, true, Bytes, codes, lookup, length, none, some, List, [], ◌∷◌,
}
use imap_work_trial.UidStore.Tables.{Box}
use imap_work_trial.UidStore.Calls.{Env}
use imap_work_trial.UidStore.History.{Call, ensure_call, step, empty, run-IsValid}
use imap_work_trial.Mailbox.Flags.{Item, message_flags}
use imap_work_trial.Mailbox.Sync.{Service, pins_of}
use imap_work_trial.Mailbox.Pins.{AllPinsFit, no_pins}
use imap_work_trial.Mailbox.Trash.{Outside, copy_to_trash}
use imap_work_trial.Session.Copies.{Keeps, Matched, Refused, copy_to_trash-Keeps}

abbrev env : Env
env = record {
  clock = 1700000000;
  now = codes "2026-08-17";
  readable = true;
  writable = true;
  commits = true;
}

abbrev box : Bytes → Box
box name = record { inbox_id = codes "a@x"; name = name }

-- The answer of the service does not show the label yet.
abbrev out : Outside
out = record { now = 50; env = env; update = λ item add remove. some item.labels }

abbrev message : ℕ → Bytes → Item
message uid id = record {
  uid = uid;
  remote_key = id;
  remote_id = id;
  flags = message_flags (codes "received" ∷ []);
  internaldate = 20;
  size_hint = none;
  labels = codes "received" ∷ [];
  from_ = [];
  to = [];
  subject = [];
}

abbrev items : List Item
items = message 4 (codes "m1") ∷ message 6 (codes "m2") ∷ []

-- The trash has `m0` and `m2`.
abbrev calls : List (Env × Call)
calls =
    (
      env,
      ensure_call (box (codes "Trash")) ((codes "m0", codes "m0") ∷ (codes "m2", codes "m2") ∷ []),
    )
    ∷ []

abbrev service : Service
service = record {
  store = foldl step empty calls;
  latest = [];
  versions = [];
  generation = [];
  pinned = [];
  label_overrides = [];
}

service-AllPinsFit : AllPinsFit service
unfolding pins_of lookup
service-AllPinsFit key = no_pins

copy_to_trash-Keeps_example :
    let trash = box (codes "Trash") in
    let (answer, s') = copy_to_trash out (box (codes "INBOX")) trash items service in
    Keeps trash service s'
    × (((answer ≡ none) × Refused out items)
        ⊎ ((pairs : List (ℕ × ℕ)) × (answer ≡ some pairs)
            × Matched trash items pairs s'.store
            × (length pairs ≡ length items)))
copy_to_trash-Keeps_example =
    copy_to_trash-Keeps out (box (codes "INBOX")) (box (codes "Trash")) refl items service
      (run-IsValid calls) service-AllPinsFit
