-- ===== src/Commands/Store.antt =====
-- imapgw/commands.py: STORE, in the state behind `require_selected`.
use imap_work_trial.Base.{
  ℕ, ◌==◌, list_eq, nat_eq, Bytes, codes, upper, to_upper, lower, to_lower, filter, Bool, true,
  false, not, ◌&&◌, ◌||◌, if◌then◌else◌, Dict, lookup, Option, none, some, List, [], ◌∷◌,
}
use imap_work_trial.UidStore.Tables.{Box}
use imap_work_trial.UidStore.Calls.{Env, set_deleted}
use imap_work_trial.Mailbox.Flags.{
  Flag, seen_flag, answered_flag, flagged_flag, deleted_flag, draft_flag, has_flag, Flags, bool_beq,
  Item, flags_of,
}
use imap_work_trial.Mailbox.Catalog.{MailboxDef}
use imap_work_trial.Mailbox.Sync.{Service}
use imap_work_trial.Mailbox.Changes.{UpdateLabels, set_flag}

-- The sign of the action: FLAGS, +FLAGS, -FLAGS.
pub data Mode : Type 0 where
  replacing adding removing : Mode

abbrev pub same_flag : Flag → Flag → Bool
same_flag seen_flag seen_flag = true
same_flag answered_flag answered_flag = true
same_flag flagged_flag flagged_flag = true
same_flag deleted_flag deleted_flag = true
same_flag draft_flag draft_flag = true
same_flag _ _ = false

-- `flag in flags`, for a list of flags
abbrev pub has : List Flag → Flag → Bool
has [] f = false
has (g ∷ flags) f = same_flag g f || has flags f

-- `FLAGS(\.SILENT)?`: whether it is silent
unfoldable pub silence : Bytes → Option Bool
silence name =
    if name == codes "FLAGS"
    then some false
    else if name == codes "FLAGS.SILENT"
    then some true
    else none

abbrev pub with_mode : Mode → Option Bool → Option (Mode × Bool)
with_mode mode none = none
with_mode mode (some silent) = some (mode, silent)

-- `_STORE_RE`
unfoldable pub store_action : Bytes → Option (Mode × Bool)
unfolding silence to_upper
store_action [] = none
store_action (c ∷ text) =
    if c == b'+'
    then with_mode adding (silence (upper text))
    else if c == b'-'
    then with_mode removing (silence (upper text))
    else with_mode replacing (silence (upper (c ∷ text)))

-- `_canonical_flag`; `none` if it raises NO
unfoldable pub canonical_flag : Bytes → Option Flag
unfolding to_lower lookup
canonical_flag text = lookup (lower text) names
  where
    names : Dict Bytes Flag
    names =
        (codes "\\seen", seen_flag)
        ∷ (codes "\\answered", answered_flag)
        ∷ (codes "\\flagged", flagged_flag)
        ∷ (codes "\\deleted", deleted_flag)
        ∷ (codes "\\draft", draft_flag)
        ∷ []

-- `wanted`, as a test of flags
unfoldable pub wants : Mode → List Flag → List Flag → Flags → Flag → Bool
unfolding has_flag
wants adding permanent flags current f = has_flag f current || has flags f
wants removing permanent flags current f = has_flag f current && not (has flags f)
wants replacing permanent flags current f =
    has_flag f current && not (has permanent f) || has flags f

-- What the loop over the flags changes: the item, the deleted marks as read, and the service.
pub record Progress : Type 0 where
  pub item : Item
  pub deleted : List ℕ
  pub service : Service

-- What STORE meets outside: the clock, the store's transactions, and `update_labels`.
pub record Surroundings : Type 0 where
  pub now : ℕ
  pub env : Env
  pub update : UpdateLabels

-- `(deleted.add if after else deleted.discard)(uid_value)`
unfoldable pub mark : ℕ → Bool → List ℕ → List ℕ
mark uid true deleted = uid ∷ deleted
mark uid false deleted = filter (λ u. not (u == uid)) deleted

module _ (out : Surroundings) (mdef : MailboxDef) (key : Box) where
  -- `set_deleted` for one message, which may raise
  unfoldable pub store_deleted : Bool → Progress → Option Progress × Service
  unfolding set_deleted mark
  store_deleted after p =
      let (done, store) = set_deleted out.env key (p.item.uid ∷ []) after p.service.store in
      let service = record p.service { store = store } in
      elim done [
        | none ↦ (none, service)
        | some _ ↦ (
          some (record p { deleted = mark p.item.uid after p.deleted; service = service }),
          service,
        )
      ]

  -- `set_flag`, for a flag that has labels
  unfoldable pub store_label : Flag → Bool → Progress → Option Progress × Service
  unfolding set_flag
  store_label flag after p =
      let (changed, service) = set_flag out.now out.update mdef key p.item flag after p.service in
      elim changed [
        | none ↦ (none, service)
        | some item ↦ (some (record p { item = item; service = service }), service)
      ]

  -- One flag that has to change.
  unfoldable pub store_flag : Flag → Bool → Progress → Option Progress × Service
  unfolding store_deleted store_label
  store_flag deleted_flag after p = store_deleted after p
  store_flag seen_flag after p = store_label seen_flag after p
  store_flag flagged_flag after p = store_label flagged_flag after p
  store_flag answered_flag after p = (some p, p.service)
  store_flag draft_flag after p = (some p, p.service)

  -- The loop over the permanent flags, by the tests `before` and `after`.
  unfoldable pub store_flags :
      (Flag → Bool) → (Flag → Bool) → List Flag → Progress → Option Progress × Service
  unfolding store_flag
  store_flags before after [] p = (some p, p.service)
  store_flags before after (flag ∷ flags) p = elim (bool_beq (before flag) (after flag)) [
    | true ↦ store_flags before after flags p
    | false ↦ elim (store_flag flag (after flag) p).0 [
      | none ↦ (none, (store_flag flag (after flag) p).1)
      | some p' ↦ store_flags before after flags p'
    ]
  ]

  -- One message of the targets.
  unfoldable pub store_one : Mode → List Flag → Progress → Option Progress × Service
  unfolding store_flags flags_of wants
  store_one mode flags p =
      let current = flags_of p.item p.deleted in
      store_flags (λ f. has_flag f current) (wants mode mdef.permanent_flags flags current)
        mdef.permanent_flags p
