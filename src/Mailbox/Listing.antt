-- ===== src/Mailbox/Listing.antt =====
-- imapgw/mailbox.py: the entries of a listing of messages, with the labels and the new items that the
-- service itself wrote and that a listing may lack yet. Times are those of the loop's clock, which stands still during a collection.
use imap_work_trial.Base.{
  ℕ, ◌+◌, ◌==◌, list_eq, nat_eq, ltb, Bytes, contains, any, all, Bool, true, false, ◌&&◌, ◌||◌,
  if◌then◌else◌, Dict, lookup, insert, erase, map, Option, none, some, List, [], ◌∷◌,
}
use imap_work_trial.Mailbox.Flags.{Item, message_flags}
use imap_work_trial.Mailbox.Catalog.{MailboxDef}

-- What `list_messages` yields, once the fields are read from the JSON object: no id is empty.
pub record Message : Type 0 where
  pub message_id : Bytes
  pub labels : List Bytes
  pub timestamp : ℕ
  pub size_hint : Option ℕ
  pub from_ : Bytes
  pub to : List Bytes
  pub subject : Bytes

-- `(sort_key, remote_key, remote_id, build)`
pub record Entry : Type 0 where
  pub sort_key : ℕ × Bytes
  pub remote_key : Bytes
  pub remote_id : Bytes
  pub build : ℕ → Item

-- `_label_overrides`: for an inbox and a message, when the hold expires, and the labels held.
abbrev pub Overrides : Type 0
Overrides = Dict Bytes (Dict Bytes (ℕ × List Bytes))

abbrev pub override_ttl : ℕ
override_ttl = 60

-- Equality of frozensets of labels.
unfoldable pub same_labels : List Bytes → List Bytes → Bool
same_labels a b = all (contains b) a && all (contains a) b

-- `overrides.get(inbox_id)`, where a missing one is empty
unfoldable pub held_in : Bytes → Overrides → Dict Bytes (ℕ × List Bytes)
unfolding lookup
held_in inbox_id overrides = elim (lookup inbox_id overrides) [ none ↦ [] | some held ↦ held ]

-- `_hold_labels`
unfoldable pub hold_labels : ℕ → Bytes → Bytes → List Bytes → Overrides → Overrides
unfolding insert held_in
hold_labels now inbox_id message_id labels overrides =
    insert inbox_id (insert message_id (now + override_ttl, labels) (held_in inbox_id overrides))
      overrides

-- `_effective_labels`
unfoldable pub effective_labels :
    ℕ → Bytes → Bytes → List Bytes → Overrides → List Bytes × Overrides
unfolding lookup insert erase held_in same_labels
effective_labels now inbox_id message_id listed overrides =
    elim (lookup message_id (held_in inbox_id overrides)) [
      | none ↦ (listed, overrides)
      | some (expires, held) ↦
          if same_labels listed held || ltb expires now
          then (listed, insert inbox_id (erase message_id (held_in inbox_id overrides)) overrides)
          else (held, overrides)
    ]

-- `build` of `_collect_messages`
abbrev pub message_item : Message → List Bytes → ℕ → Item
message_item m labels uid = record {
  uid = uid;
  remote_key = m.message_id;
  remote_id = m.message_id;
  flags = message_flags labels;
  internaldate = m.timestamp;
  size_hint = m.size_hint;
  labels = labels;
  from_ = m.from_;
  to = m.to;
  subject = m.subject;
}

-- The entry of a message; its time is in whole seconds.
abbrev pub message_entry : Message → List Bytes → Entry
message_entry m labels = record {
  sort_key = (m.timestamp, m.message_id);
  remote_key = m.message_id;
  remote_id = m.message_id;
  build = message_item m labels;
}

-- An entry in front of the others, if these were collected.
abbrev pub put : Entry → Option (List Entry) × Overrides → Option (List Entry) × Overrides
put entry (none, overrides) = (none, overrides)
put entry (some entries, overrides) = (some (entry ∷ entries), overrides)

module _ (now : ℕ) (inbox_id : Bytes) (mdef : MailboxDef) where
  -- The loop over a listing, which may end in an error of its own; `none` if the collection raises.
  unfoldable pub collect :
      List Bytes → List Message → Bool → Overrides → Option (List Entry) × Overrides
  unfolding effective_labels
  collect seen [] failed overrides = (if failed then none else some [], overrides)
  collect seen (m ∷ listing) failed overrides = elim (m.message_id == []) [
    | true ↦ (none, overrides)
    | false ↦ elim (contains seen m.message_id) [
      | true ↦ collect seen listing failed overrides
      | false ↦
          let (labels, overrides') =
            effective_labels now inbox_id m.message_id m.labels overrides in
          let rest = collect (m.message_id ∷ seen) listing failed overrides' in
          if any (contains mdef.exclude_labels) labels
          then rest
          else put (message_entry m labels) rest
    ]
  ]

  -- `_collect_messages`
  unfoldable pub collect_messages :
      List Message → Bool → Overrides → Option (List Entry) × Overrides
  unfolding collect
  collect_messages listing failed overrides = collect [] listing failed overrides

-- The pins of a mailbox: when each expires, and its entry.
abbrev pub Pins : Type 0
Pins = Dict Bytes (ℕ × Entry)

-- The pins that a listing does not show and that have not expired.
unfoldable pub live_pins : ℕ → List Bytes → Pins → Pins
live_pins now listed [] = []
live_pins now listed ((remote_key, pin) ∷ pins) =
    let rest = live_pins now listed pins in
    if contains listed remote_key || ltb pin.0 now then rest else (remote_key, pin) ∷ rest

abbrev pub pinned_entries : Pins → List Entry
pinned_entries pins = map (λ (p : Bytes × (ℕ × Entry)). p.1.1) pins

abbrev pub keys_of : List Entry → List Bytes
keys_of entries = map (λ (e : Entry). e.remote_key) entries
