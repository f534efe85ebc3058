-- ===== src/Commands/Asked.antt =====
-- imapgw/commands.py: what STORE is to do to one message, and the lemmas on one flag.
use imap_work_trial.Base.{
  ℕ, ◌≡◌, refl, ap, ◌==◌, list_eq, nat_eq, ==_iff, Bytes, contains, Bool, true, false, ◌&&◌, ◌||◌,
  if◌then◌else◌, Option, Option-cases, lookup, some, List, [], ◌∷◌, arith, inl, inr,
}
use imap_work_trial.UidStore.Tables.{Box, box_eq, marked}
use imap_work_trial.UidStore.Marks.{marks_after}
use imap_work_trial.Mailbox.Flags.{
  Flag, seen_flag, answered_flag, flagged_flag, deleted_flag, draft_flag, has_flag, Flags, Item,
  by_uid, flags_of, message_flags,
}
use imap_work_trial.Mailbox.Sync.{Service}
use imap_work_trial.Mailbox.Changes.{replace_item}
use imap_work_trial.Commands.Store.{
  Mode, replacing, adding, removing, has, same_flag, wants, Progress, mark,
}
use imap_work_trial.Commands.Relabelled.{IsMessage}

-- The flags of the message as the loop stands.
abbrev pub shown : Progress → Flags
shown p = flags_of p.item p.deleted

pub has_flag-shown :
    (item : Item) (deleted : List ℕ) (g : Flag)
    → has_flag g (flags_of item deleted)
      ≡ (has_flag g item.flags || (same_flag deleted_flag g && contains deleted item.uid))
unfolding has_flag flags_of
has_flag-shown item deleted seen_flag = ground arith
has_flag-shown item deleted answered_flag = ground arith
has_flag-shown item deleted flagged_flag = ground arith
has_flag-shown item deleted deleted_flag = ground arith
has_flag-shown item deleted draft_flag = ground arith

-- The deleted marks as read agree with the store on the mark of the message.
abbrev pub Agrees : Box → Progress → Type 0
Agrees key p = contains p.deleted p.item.uid ≡ marked key p.item.uid p.service.store.deleted_mark

-- A step that ends, that gives the flags of a set their values and keeps the others, in the progress
-- and for \Deleted in the store too, and that keeps the store's other marks.
pub record Sets (key : Box) (of : Flag → Bool) (value : Flag → Bool) (p : Progress)
    (r : Option Progress × Service) : Type 0 where
  pub after : Progress
  pub runs : r.0 ≡ some after
  pub message : IsMessage after.item
  pub same : after.item.uid ≡ p.item.uid
  pub kept : r.1 ≡ after.service
  pub agrees : Agrees key after
  pub others :
      (b : Box) (u : ℕ)
      → (b == key && u == p.item.uid) ≡ false
      → marked b u after.service.store.deleted_mark ≡ marked b u p.service.store.deleted_mark
  pub flags :
      (g : Flag) → has_flag g (shown after) ≡ (if of g then value g else has_flag g (shown p))

pub contains-mark :
    (uid : ℕ) (value : Bool) (deleted : List ℕ) → contains (mark uid value deleted) uid ≡ value
unfolding mark
contains-mark uid true deleted = ground (arith, ==_iff uid uid)
contains-mark uid false [] = refl
contains-mark uid false (u ∷ deleted) =
    ground (arith, ==_iff u uid, contains-mark uid false deleted)

labels_have_no_deleted :
    (labels : List Bytes) → has_flag deleted_flag (message_flags labels) ≡ false
unfolding has_flag message_flags
labels_have_no_deleted labels = refl

pub deleted_flag-same : (g : Flag) → same_flag deleted_flag g ≡ true → g ≡ deleted_flag
deleted_flag-same seen_flag h = absurd (ground arith)
deleted_flag-same answered_flag h = absurd (ground arith)
deleted_flag-same flagged_flag h = absurd (ground arith)
deleted_flag-same deleted_flag h = refl
deleted_flag-same draft_flag h = absurd (ground arith)

pub deleted_lem :
    (item : Item) (value : Bool) (deleted : List ℕ) (g : Flag)
    → IsMessage item
    → has_flag g (flags_of item (mark item.uid value deleted))
      ≡ (if same_flag deleted_flag g then value else has_flag g (flags_of item deleted))
deleted_lem item value deleted g m = ground (
  arith,
  has_flag-shown item (mark item.uid value deleted) g,
  has_flag-shown item deleted g,
  contains-mark item.uid value deleted,
  deleted_flag-same g,
  labels_have_no_deleted item.labels,
  m,
)

-- The mark of the UID itself, and every other mark, where one UID is set or cleared.
pub marks_after_self :
    (key : Box) (uid : ℕ) (value before : Bool)
    → marks_after key (uid ∷ []) value key uid before ≡ value
marks_after_self key uid true before = ground (arith, ==_iff key key, ==_iff uid uid)
marks_after_self key uid false before = ground (arith, ==_iff key key, ==_iff uid uid)

pub marks_after_other :
    (key : Box) (uid : ℕ) (value : Bool) (b : Box) (u : ℕ) (before : Bool)
    → (b == key && u == uid) ≡ false
    → marks_after key (uid ∷ []) value b u before ≡ before
marks_after_other key uid true b u before h = ground (arith, ==_iff u uid, ==_iff uid u)
marks_after_other key uid false b u before h = ground (arith, ==_iff u uid, ==_iff uid u)

-- What a command asks of a permanent flag, by whether it lists the flag and whether the flag is set.
abbrev pub asked : Mode → Bool → Bool → Bool
asked replacing listed old = listed
asked adding listed old = listed || old
asked removing listed old = if listed then false else old

pub asked-wants :
    (mode : Mode) (permanent flags : List Flag) (current : Flags) (g : Flag)
    → has permanent g ≡ true
    → wants mode permanent flags current g ≡ asked mode (has flags g) (has_flag g current)
unfolding wants
asked-wants replacing permanent flags current g h = ground arith
asked-wants adding permanent flags current g h = ground arith
asked-wants removing permanent flags current g h = ground arith

pub Sets-same :
    (key : Box) (of value value' : Flag → Bool) (p : Progress) (r : Option Progress × Service)
    → ((g : Flag) → of g ≡ true → value g ≡ value' g)
    → Sets key of value p r
    → Sets key of value' p r
Sets-same key of value value' p r h sets = record {
  after = sets.after;
  runs = sets.runs;
  message = sets.message;
  same = sets.same;
  kept = sets.kept;
  agrees = sets.agrees;
  others = sets.others;
  flags = λ g. ground (arith, sets.flags g, h g);
}

pub replace_item_store :
    (key : Box) (item : Item) (s : Service) → (replace_item key item s).store ≡ s.store
unfolding replace_item
replace_item_store key item s = elim (Option-cases (lookup key s.latest)) [
  | inl absent ↦ rw (absent, replace_item) refl
  | inr (snap, present) ↦ elim (Option-cases (lookup item.uid (by_uid snap))) [
    | inl unknown ↦ rw (present, replace_item) (rw (unknown) refl)
    | inr (old, known) ↦ rw (present, replace_item) (rw (known) refl)
  ]
]

-- The flags that STORE can change: marks, and those that have labels.
abbrev pub IsStorable : Flag → Type 0
IsStorable seen_flag = Unit
IsStorable flagged_flag = Unit
IsStorable deleted_flag = Unit
IsStorable answered_flag = ⊥
IsStorable draft_flag = ⊥

-- No flag stands twice.
abbrev pub Apart : List Flag → Type 0
Apart [] = Unit
Apart (f ∷ flags) = (has flags f ≡ false) × Apart flags

same_flag-eq : (f g : Flag) → IsStorable f → same_flag f g ≡ true → f ≡ g
same_flag-eq seen_flag seen_flag s h = refl
same_flag-eq flagged_flag flagged_flag s h = refl
same_flag-eq deleted_flag deleted_flag s h = refl
same_flag-eq f g s h = absurd (ground arith)

pub same-ap :
    (value : Flag → Bool) (f g : Flag) → IsStorable f → same_flag f g ≡ true → value f ≡ value g
same-ap value f g s h = ap value (same_flag-eq f g s h)
