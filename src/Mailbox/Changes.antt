-- ===== src/Mailbox/Changes.antt =====
-- imapgw/mailbox.py: `set_flag`, which changes labels upstream, and `_replace_item`.
use imap_work_trial.Base.{
  ℕ, ◌==◌, list_eq, nat_eq, Bytes, codes, contains, filter, Bool, true, false, not, if◌then◌else◌,
  lookup, insert, Option, none, some, List, [], ◌∷◌, ◌++◌,
}
use imap_work_trial.UidStore.Tables.{Box, box_eq}
use imap_work_trial.Mailbox.Flags.{
  Flag, seen_flag, answered_flag, flagged_flag, deleted_flag, draft_flag, Item, by_uid,
  message_flags,
}
use imap_work_trial.Mailbox.Catalog.{MailboxDef, messages, drafts}
use imap_work_trial.Mailbox.Listing.{hold_labels}
use imap_work_trial.Mailbox.Sync.{Service}

-- `FLAG_LABELS`: the labels to add and those to remove
unfoldable pub flag_labels : Flag → Option (List Bytes × List Bytes)
flag_labels seen_flag = some (codes "read" ∷ [], codes "unread" ∷ [])
flag_labels flagged_flag = some (codes "starred" ∷ [], [])
flag_labels answered_flag = none
flag_labels deleted_flag = none
flag_labels draft_flag = none

-- `update_labels` of the client, called for an item as the service holds it, with the labels to add
-- and those to remove: the labels of the answer, or `none` if it raises.
abbrev pub UpdateLabels : Type 0
UpdateLabels = Item → List Bytes → List Bytes → Option (List Bytes)

-- `(item.labels | set(add)) - set(remove)`
unfoldable pub changed_labels : List Bytes → List Bytes → List Bytes → List Bytes
changed_labels labels add remove = filter (λ l. not (contains remove l)) (labels ++ add)

-- The labels of the answer, or if it has none those that were asked for.
unfoldable pub labels_after : List Bytes → List Bytes → List Bytes → List Bytes → List Bytes
unfolding changed_labels
labels_after [] labels add remove = changed_labels labels add remove
labels_after (l ∷ answer) labels add remove = l ∷ answer

-- `tuple(updated if i.uid == updated.uid else i for i in snap.items)`
unfoldable pub replace_in : Item → List Item → List Item
replace_in updated [] = []
replace_in updated (i ∷ items) =
    (if i.uid == updated.uid then updated else i) ∷ replace_in updated items

-- `_replace_item`
unfoldable pub replace_item : Box → Item → Service → Service
unfolding lookup by_uid insert replace_in
replace_item key updated s = elim (lookup key s.latest) [
  | none ↦ s
  | some snap ↦ elim (lookup updated.uid (by_uid snap)) [
    | none ↦ s
    | some _ ↦ record s {
      latest = insert key (record snap { items = replace_in updated snap.items }) s.latest;
    }
  ]
]

-- The labels to add and to remove, the other way round if the flag is cleared.
abbrev pub oriented : Bool → List Bytes × List Bytes → List Bytes × List Bytes
oriented true (add, remove) = (add, remove)
oriented false (add, remove) = (remove, add)

module _ (now : ℕ) (update : UpdateLabels) (mdef : MailboxDef) (key : Box) where
  -- `set_flag` on a flag that has labels
  unfoldable pub change_labels : Item → List Bytes × List Bytes → Service → Option Item × Service
  unfolding labels_after hold_labels message_flags replace_item
  change_labels item (add, remove) s = elim (update item add remove) [
    | none ↦ (none, s)
    | some answer ↦
        let labels = labels_after answer item.labels add remove in
        let updated = record item { flags = message_flags labels; labels = labels } in
        (
          some updated,
          replace_item key updated (record s {
            label_overrides = hold_labels now key.inbox_id item.remote_id labels s.label_overrides;
          }),
        )
  ]

  -- `set_flag`; `none` if it raises
  unfoldable pub set_flag : Item → Flag → Bool → Service → Option Item × Service
  unfolding flag_labels change_labels
  set_flag item flag value s = elim mdef.kind [
    | drafts ↦ (none, s)
    | messages ↦ elim (flag_labels flag) [
      | none ↦ (none, s)
      | some labels ↦ change_labels item (oriented value labels) s
    ]
  ]
