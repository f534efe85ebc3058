-- ===== src/Commands/Relabelled.antt =====
-- imapgw/commands.py and imapgw/mailbox.py: the labels of a message behind a change of one flag.
use imap_work_trial.Base.{
  ◌≡◌, ◌⊎◌, refl, ap, ◌∙◌, list_eq, nat_eq, ==_iff, Bytes, codes, contains, contains-append, filter,
  Bool, true, false, not, ◌&&◌, ◌||◌, if◌then◌else◌, some, List, [], ◌∷◌, ◌++◌, arith, inl, inr,
}
use imap_work_trial.Mailbox.Flags.{
  Flag, seen_flag, answered_flag, flagged_flag, deleted_flag, draft_flag, has_flag, Flags, Item,
  message_flags,
}
use imap_work_trial.Mailbox.Changes.{UpdateLabels, changed_labels, labels_after, oriented}
use imap_work_trial.Commands.Store.{same_flag}

-- Upstream makes the change that it is asked for, and answers with the labels that the message then
-- has, or with none.
abbrev pub Obeys : UpdateLabels → Type 0
Obeys update =
    (item : Item) (add remove : List Bytes)
    → (answer : List Bytes) × (update item add remove ≡ some answer)
      × ((answer ≡ [])
          ⊎ ((l : Bytes) → contains answer l ≡ contains (changed_labels item.labels add remove) l))

-- The flags of a message are those of its labels.
abbrev pub IsMessage : Item → Type 0
IsMessage item = item.flags ≡ message_flags item.labels

contains-changed_labels :
    (labels add remove : List Bytes) (l : Bytes)
    → contains (changed_labels labels add remove) l
      ≡ ((contains labels l || contains add l) && not (contains remove l))
unfolding changed_labels
contains-changed_labels labels add remove l =
    kept (labels ++ add) ∙ ap (λ b. b && not (contains remove l)) (contains-append labels add l)
  where
    kept :
        (ls : List Bytes)
        → contains (filter (λ k. not (contains remove k)) ls) l
          ≡ (contains ls l && not (contains remove l))
    kept [] = refl
    kept (k ∷ ls) = ground (arith, ==_iff k l, kept ls)

pub contains-labels_after :
    (answer labels add remove : List Bytes)
    → (answer ≡ [])
      ⊎ ((l : Bytes) → contains answer l ≡ contains (changed_labels labels add remove) l)
    → (l : Bytes)
    → contains (labels_after answer labels add remove) l
      ≡ ((contains labels l || contains add l) && not (contains remove l))
unfolding labels_after
contains-labels_after [] labels add remove o l = contains-changed_labels labels add remove l
contains-labels_after (a ∷ answer) labels add remove (inl e) l = absurd (ground arith)
contains-labels_after (a ∷ answer) labels add remove (inr h) l =
    h l ∙ contains-changed_labels labels add remove l

-- A change of labels changes the flag whose labels they are, and no other.
abbrev pub Changes : Flag → Bool → Flags → Flags → Type 0
Changes flag value old new =
    (g : Flag) → has_flag g new ≡ (if same_flag flag g then value else has_flag g old)

pub seen-Changes :
    (value : Bool) (old new : List Bytes)
    → ((l : Bytes)
        → contains new l ≡ (
            (contains old l
              || contains (oriented value (codes "read" ∷ [], codes "unread" ∷ [])).0 l)
            && not (contains (oriented value (codes "read" ∷ [], codes "unread" ∷ [])).1 l)))
    → Changes seen_flag value (message_flags old) (message_flags new)
unfolding has_flag message_flags
seen-Changes true old new h seen_flag = ground (arith, h (codes "unread"))
seen-Changes false old new h seen_flag = ground (arith, h (codes "unread"))
seen-Changes true old new h flagged_flag = ground (arith, h (codes "starred"))
seen-Changes false old new h flagged_flag = ground (arith, h (codes "starred"))
seen-Changes value old new h answered_flag = refl
seen-Changes value old new h deleted_flag = refl
seen-Changes value old new h draft_flag = refl

pub flagged-Changes :
    (value : Bool) (old new : List Bytes)
    → ((l : Bytes)
        → contains new l ≡ (
            (contains old l || contains (oriented value (codes "starred" ∷ [], [])).0 l)
            && not (contains (oriented value (codes "starred" ∷ [], [])).1 l)))
    → Changes flagged_flag value (message_flags old) (message_flags new)
unfolding has_flag message_flags
flagged-Changes true old new h seen_flag = ground (arith, h (codes "unread"))
flagged-Changes false old new h seen_flag = ground (arith, h (codes "unread"))
flagged-Changes true old new h flagged_flag = ground (arith, h (codes "starred"))
flagged-Changes false old new h flagged_flag = ground (arith, h (codes "starred"))
flagged-Changes value old new h answered_flag = refl
flagged-Changes value old new h deleted_flag = refl
flagged-Changes value old new h draft_flag = refl
