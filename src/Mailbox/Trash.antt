-- ===== src/Mailbox/Trash.antt =====
-- imapgw/mailbox.py: `copy_to_trash` and `expunge_items`, which move messages to the trash and delete
-- drafts.
use imap_work_trial.Base.{
  ℕ, ◌+◌, ◌==◌, list_eq, nat_eq, pair_eq, Bytes, codes, contains, Bool, true, false, if◌then◌else◌,
  lookup, insert, Option, none, some, List, [], ◌∷◌, ◌++◌,
}
use imap_work_trial.UidStore.Tables.{Box, box_eq}
use imap_work_trial.UidStore.Calls.{Env, ensure_uids}
use imap_work_trial.Mailbox.Flags.{Item, message_flags}
use imap_work_trial.Mailbox.Catalog.{Kind, messages, drafts}
use imap_work_trial.Mailbox.Listing.{Entry, hold_labels}
use imap_work_trial.Mailbox.Sync.{Service, pin, unpin, number_at}
use imap_work_trial.Mailbox.Changes.{UpdateLabels}

-- The label of the trash is there whatever the answer is.
unfoldable pub trashed : List Bytes → List Bytes → List Bytes
trashed answer labels =
    if contains answer (codes "trash") then answer else labels ++ codes "trash" ∷ []

-- `self._generation[key] = self._generation.get(key, 0) + 1`
unfoldable pub bump : Box → Service → Service
unfolding insert number_at
bump key s = record s { generation = insert key (number_at key s.generation + 1) s.generation }

-- The entry that is pinned in the view of the trash.
abbrev pub trash_entry : Item → List Bytes → Entry
trash_entry item labels = record {
  sort_key = (item.internaldate, item.remote_id);
  remote_key = item.remote_id;
  remote_id = item.remote_id;
  build = λ uid. record item { uid = uid; flags = message_flags labels; labels = labels };
}

-- What the calls meet outside: the clock, the store's transactions and `update_labels`.
pub record Outside : Type 0 where
  pub now : ℕ
  pub env : Env
  pub update : UpdateLabels

module _ (out : Outside) (key trash : Box) where
  -- The label is written upstream and held; `none` if `update_labels` raises.
  unfoldable pub label_trash : Item → Service → Option (List Bytes) × Service
  unfolding trashed hold_labels
  label_trash item s = elim (out.update item (codes "trash" ∷ []) []) [
    | none ↦ (none, s)
    | some answer ↦
        let labels = trashed answer item.labels in
        (
          some labels,
          record s {
            label_overrides =
                hold_labels out.now key.inbox_id item.remote_id labels s.label_overrides;
          },
        )
  ]

  -- The UID in the trash, and the pin.
  unfoldable pub place : Item → List Bytes → Service → Option ℕ × Service
  unfolding ensure_uids lookup pin
  place item labels s =
      let (uid_map, store) =
        ensure_uids out.env trash ((item.remote_id, item.remote_id) ∷ []) s.store in
      let s' = record s { store = store } in
      elim uid_map [
        | none ↦ (none, s')
        | some m ↦ elim (lookup item.remote_id m) [
          | none ↦ (none, s')
          | some uid ↦ (some uid, pin out.now trash item.remote_id (trash_entry item labels) s')
        ]
      ]

  -- One message: its UID in the trash, or `none` if a call raises.
  unfoldable pub copy_one : Item → Service → Option ℕ × Service
  unfolding label_trash place
  copy_one item s =
      let (labels, s') = label_trash item s in
      elim labels [ none ↦ (none, s') | some ls ↦ place item ls s' ]

  -- The loop: the pairs so far, and whether a call raised, which ends it.
  unfoldable pub copy_loop : List Item → Service → List (ℕ × ℕ) × Bool × Service
  unfolding copy_one
  copy_loop [] s = ([], false, s)
  copy_loop (item ∷ items) s = elim (copy_one item s).0 [
    | none ↦ ([], true, (copy_one item s).1)
    | some uid ↦
        let (pairs, failed, s') = copy_loop items (copy_one item s).1 in
        ((item.uid, uid) ∷ pairs, failed, s')
  ]

  -- `if pairs:`, the generations
  abbrev pub bump_moved : List (ℕ × ℕ) → Service → Service
  bump_moved [] s = s
  bump_moved (p ∷ pairs) s = bump trash (bump key s)

  -- `copy_to_trash`, once the mailbox of the trash has a snapshot; `none` if it raises.
  unfoldable pub copy_to_trash : List Item → Service → Option (List (ℕ × ℕ)) × Service
  unfolding copy_loop bump
  copy_to_trash items s =
      let (pairs, failed, s') = copy_loop items s in
      if failed then (none, s') else (some pairs, bump_moved pairs s')

-- What the calls for a draft come to: the content key of what `get_draft` answers, and whether
-- `delete_draft` returns.
pub record Drafts : Type 0 where
  pub current_key : Item → Option Bytes
  pub delete : Item → Bool

module _ (out : Outside) (api : Drafts) (kind : Kind) (key : Box) where
  -- One draft: whether it was removed.
  unfoldable pub delete_one : Item → Service → Bool × Service
  unfolding unpin
  delete_one item s = elim (api.current_key item) [
    | none ↦ (false, s)
    | some current ↦
        if current == item.remote_key
        then (if api.delete item then (true, unpin key item.remote_key s) else (false, s))
        else (false, s)
  ]

  unfoldable pub expunge_one : Kind → Item → Service → Bool × Service
  unfolding delete_one label_trash
  expunge_one drafts item s = delete_one item s
  expunge_one messages item s =
      let (labels, s') = label_trash out key key item s in
      elim labels [ none ↦ (false, s') | some _ ↦ (true, s') ]

  -- The loop: the number of errors, and whether an item was removed.
  unfoldable pub expunge_items_loop : List Item → Service → ℕ × Bool × Service
  unfolding expunge_one
  expunge_items_loop [] s = (0, false, s)
  expunge_items_loop (item ∷ items) s =
      let (removed, s') = expunge_one kind item s in
      let (errors, any_removed, s'') = expunge_items_loop items s' in
      if removed then (errors, true, s'') else (errors + 1, any_removed, s'')

  -- `expunge_items`, with the number of the errors
  unfoldable pub expunge_items : List Item → Service → ℕ × Service
  unfolding expunge_items_loop bump
  expunge_items items s =
      let (errors, removed, s') = expunge_items_loop items s in
      (errors, if removed then bump key s' else s')
