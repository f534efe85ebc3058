-- ===== src/Mailbox/Sync.antt =====
-- imapgw/mailbox.py: the state of `MailboxService`, its pins, and `_do_sync`.
use imap_work_trial.Base.{
  ℕ, ◌+◌, ◌==◌, list_eq, nat_eq, ltb, leb, Bytes, Bool, true, false, ◌&&◌, ◌||◌, if◌then◌else◌,
  Dict, lookup, insert, erase, map, Option, none, some, List, [], ◌∷◌, ◌++◌,
}
use imap_work_trial.UidStore.Tables.{Box, box_eq}
use imap_work_trial.UidStore.Calls.{UidStore, Env, ensure_uids, tombstone_missing, mailbox_info}
use imap_work_trial.Mailbox.Flags.{Item, MailboxSnapshot}
use imap_work_trial.Mailbox.Listing.{Entry, Overrides, Pins, live_pins, pinned_entries, keys_of}

-- The fields of `MailboxService` that a sync reads and writes; a key is an inbox and a name.
pub record Service : Type 0 where
  pub store : UidStore
  pub latest : Dict Box MailboxSnapshot
  pub versions : Dict Box ℕ
  pub generation : Dict Box ℕ
  pub pinned : Dict Box Pins
  pub label_overrides : Overrides

abbrev pub pin_ttl : ℕ
pin_ttl = 120

-- `_pinned.get(key)`, where a missing one is empty
unfoldable pub pins_of : Box → Dict Box Pins → Pins
unfolding lookup
pins_of key pinned = elim (lookup key pinned) [ none ↦ [] | some pins ↦ pins ]

-- `if not pins: self._pinned.pop(key, None)`
unfoldable pub set_pins : Box → Pins → Dict Box Pins → Dict Box Pins
unfolding insert erase
set_pins key [] pinned = erase key pinned
set_pins key (pin ∷ pins) pinned = insert key (pin ∷ pins) pinned

-- `_pin`
unfoldable pub pin : ℕ → Box → Bytes → Entry → Service → Service
unfolding insert pins_of
pin now key remote_key entry s = record s {
  pinned = insert key (insert remote_key (now + pin_ttl, entry) (pins_of key s.pinned)) s.pinned;
}

-- `_unpin`
unfoldable pub unpin : Box → Bytes → Service → Service
unfolding erase pins_of set_pins
unpin key remote_key s = elim (pins_of key s.pinned) [
  | [] ↦ s
  | p ∷ pins ↦ record s { pinned = set_pins key (erase remote_key (p ∷ pins)) s.pinned }
]

-- `_apply_pins`
unfoldable pub apply_pins : ℕ → Box → List Entry → Service → List Entry × Service
unfolding pins_of set_pins live_pins
apply_pins now key entries s = elim (pins_of key s.pinned) [
  | [] ↦ (entries, s)
  | p ∷ pins ↦
      let kept = live_pins now (keys_of entries) (p ∷ pins) in
      (entries ++ pinned_entries kept, record s { pinned = set_pins key kept s.pinned })
]

-- `<` on texts, by code points
unfoldable pub text_before : Bytes → Bytes → Bool
text_before [] [] = false
text_before [] (c ∷ t) = true
text_before (c ∷ s) [] = false
text_before (c ∷ s) (d ∷ t) = ltb c d || (c == d && text_before s t)

-- `<` on sort keys
unfoldable pub key_before : ℕ × Bytes → ℕ × Bytes → Bool
unfolding text_before
key_before a b = ltb a.0 b.0 || (a.0 == b.0 && text_before a.1 b.1)

unfoldable pub insert_entry : Entry → List Entry → List Entry
unfolding key_before
insert_entry e [] = e ∷ []
insert_entry e (x ∷ xs) =
    let rest = insert_entry e xs in
    if key_before x.sort_key e.sort_key then x ∷ rest else e ∷ x ∷ xs

-- `entries.sort(key=lambda e: e[0])`
unfoldable pub sort_entries : List Entry → List Entry
unfolding insert_entry
sort_entries [] = []
sort_entries (e ∷ entries) = insert_entry e (sort_entries entries)

unfoldable pub insert_item : Item → List Item → List Item
insert_item i [] = i ∷ []
insert_item i (x ∷ xs) =
    let rest = insert_item i xs in if leb i.uid x.uid then i ∷ x ∷ xs else x ∷ rest

-- `sorted(…, key=lambda i: i.uid)`
unfoldable pub sort_items : List Item → List Item
unfolding insert_item
sort_items [] = []
sort_items (i ∷ items) = insert_item i (sort_items items)

-- `e[3](uid_map[e[1]]) for e in entries`; `none` where a key is missing
unfoldable pub build_items : Dict Bytes ℕ → List Entry → Option (List Item)
unfolding lookup
build_items uid_map [] = some []
build_items uid_map (e ∷ entries) = elim (lookup e.remote_key uid_map) [
  | none ↦ none
  | some uid ↦ elim (build_items uid_map entries) [
    | none ↦ none
    | some items ↦ some (e.build uid ∷ items)
  ]
]

abbrev pub pairs_of : List Entry → List (Bytes × Bytes)
pairs_of entries = map (λ (e : Entry). (e.remote_key, e.remote_id)) entries

-- `_versions.get(key, 0)`
unfoldable pub number_at : Box → Dict Box ℕ → ℕ
unfolding lookup
number_at key d = elim (lookup key d) [ none ↦ 0 | some n ↦ n ]

-- What a sync meets outside: the clock of the loop, and what its three calls of the store meet.
pub record Outside : Type 0 where
  pub now : ℕ
  pub allocating : Env
  pub striking : Env
  pub reading : Env

-- The snapshot that `_do_sync` makes.
unfoldable pub snapshot : ℕ → Box → ℕ × ℕ → List Item → Service → MailboxSnapshot
unfolding number_at sort_items
snapshot now key row items s = record {
  inbox_id = key.inbox_id;
  name = key.name;
  uidvalidity = row.0;
  uidnext = row.1;
  items = sort_items items;
  version = number_at key s.versions + 1;
  synced_at = now;
}

-- It is stored with its version.
unfoldable pub publish : ℕ → Box → ℕ × ℕ → List Item → Service → Option MailboxSnapshot × Service
unfolding insert snapshot
publish now key row items s =
    let snap = snapshot now key row items s in
    (
      some snap,
      record s { versions = insert key snap.version s.versions; latest = insert key snap s.latest },
    )

-- `_do_sync` behind `ensure_uids`.
unfoldable pub reconcile :
    Outside → Box → List Entry → Dict Bytes ℕ → Service → Option MailboxSnapshot × Service
unfolding tombstone_missing mailbox_info build_items publish
reconcile out key entries uid_map s =
    let (gone, struck) = tombstone_missing out.striking key (keys_of entries) s.store in
    let (row, store) = mailbox_info out.reading key struck in
    elim gone [
      | none ↦ (none, record s { store = struck })
      | some _ ↦ elim row [
        | none ↦ (none, record s { store = store })
        | some info ↦ elim (build_items uid_map entries) [
          | none ↦ (none, record s { store = store })
          | some items ↦ publish out.now key info items (record s { store = store })
        ]
      ]
    ]

-- `_do_sync` from `ensure_uids` on.
unfoldable pub number_entries :
    Outside → Box → List Entry → Service → Option MailboxSnapshot × Service
unfolding ensure_uids reconcile
number_entries out key entries s =
    let (uid_map, store) = ensure_uids out.allocating key (pairs_of entries) s.store in
    elim uid_map [
      | none ↦ (none, record s { store = store })
      | some m ↦ reconcile out key entries m (record s { store = store })
    ]

-- `_do_sync` behind the collection; `none` if it raises.
unfoldable pub sync_entries :
    Outside → Box → List Entry → Service → Option MailboxSnapshot × Service
unfolding apply_pins sort_entries number_entries
sync_entries out key collected s =
    let (shown, s') = apply_pins out.now key collected s in
    number_entries out key (sort_entries shown) s'

-- `_do_sync`, on what its collection comes to
unfoldable pub do_sync :
    Outside
    → Box
    → (Overrides → Option (List Entry) × Overrides)
    → Service
    → Option MailboxSnapshot × Service
unfolding sync_entries
do_sync out key collection s =
    let (collected, overrides) = collection s.label_overrides in
    let s' = record s { label_overrides = overrides } in
    elim collected [ none ↦ (none, s') | some entries ↦ sync_entries out key entries s' ]
