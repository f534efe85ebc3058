-- ===== src/Session/Copies.antt =====
-- imapgw/mailbox.py, `copy_to_trash`: the UIDs that it reports, and the views of the trash.
use Prim.Native.Nat.{suc}
use imap_work_trial.Base.{
  ℕ, ◌≡◌, ◌∙◌, refl, sym, ap, ◌⊎◌, list_eq, nat_eq, pair_eq, Bytes, codes, lookup, length, true,
  false, Option-cases, Option, none, some, List, [], ◌∷◌, inl, inr,
}
use imap_work_trial.UidStore.Tables.{Box}
use imap_work_trial.UidStore.Calls.{UidStore, live_map, ensure_uids}
use imap_work_trial.UidStore.Valid.{IsValid}
use imap_work_trial.UidStore.Allocation.{ensure_uids-IsValid}
use imap_work_trial.UidStore.Results.{ensure_uids-Answers}
use imap_work_trial.Mailbox.Flags.{Item}
use imap_work_trial.Mailbox.Sync.{Service, pin}
use imap_work_trial.Mailbox.Pins.{AllPinsFit, pin-AllPinsFit}
use imap_work_trial.Mailbox.Trash.{
  Outside, bump, trash_entry, trashed, label_trash, place, copy_one, copy_loop, bump_moved,
  copy_to_trash,
}
use imap_work_trial.Session.Follows.{Follows, ensure_uids-Follows}

-- What the service keeps: valid tables, pins that fit, the live UIDs of a mailbox, and what its
-- views follow.
pub record Keeps (box : Box) (s s' : Service) : Type 0 where
  pub valid : IsValid s'.store
  pub pins : AllPinsFit s'
  pub live :
      (k : Bytes) (u : ℕ)
      → lookup k (live_map box s.store) ≡ some u
      → lookup k (live_map box s'.store) ≡ some u
  pub follows : (us : List ℕ) → Follows us box s.store → Follows us box s'.store

Keeps-trans : {box : Box} {a b c : Service} → Keeps box a b → Keeps box b c → Keeps box a c
Keeps-trans k l = record {
  valid = l.valid;
  pins = l.pins;
  live = λ q u h. l.live q u (k.live q u h);
  follows = λ us f. l.follows us (k.follows us f);
}

Keeps-refl : {box : Box} (s : Service) → IsValid s.store → AllPinsFit s → Keeps box s s
Keeps-refl s v p = record { valid = v; pins = p; live = λ q u h. h; follows = λ us f. f }

-- The label of one of the messages could not be written.
abbrev pub Refused : Outside → List Item → Type 0
Refused out [] = ⊥
Refused out (item ∷ items) = (out.update item (codes "trash" ∷ []) [] ≡ none) ⊎ Refused out items

-- The pairs are those of the first messages, in their order: their UIDs, and live UIDs of the trash.
abbrev pub Matched : Box → List Item → List (ℕ × ℕ) → UidStore → Type 0
Matched trash items [] store = Unit
Matched trash [] (p ∷ pairs) store = ⊥
Matched trash (item ∷ items) (p ∷ pairs) store =
    ((p.0 ≡ item.uid) × (lookup item.remote_id (live_map trash store) ≡ some p.1))
    × Matched trash items pairs store

module _ (out : Outside) (key trash : Box) (commits : out.env.commits ≡ true) where
  label_trash-Keeps :
      (item : Item) (s : Service)
      → IsValid s.store
      → AllPinsFit s
      → Keeps trash s (label_trash out key trash item s).1
  unfolding label_trash
  label_trash-Keeps item s v p = elim (Option-cases (out.update item (codes "trash" ∷ []) [])) [
    | inl failed ↦ rw (failed, label_trash) (Keeps-refl s v p)
    | inr (answer, told) ↦
        rw (told, label_trash)
          (record { valid = v; pins = p; live = λ q u h. h; follows = λ us f. f })
  ]

  -- A message has a UID in the trash, which stays live.
  abbrev Placed : Item → Service → Option ℕ × Service → Type 0
  Placed item s r =
      (uid : ℕ) × (r.0 ≡ some uid)
      × Keeps trash s r.1
      × (lookup item.remote_id (live_map trash r.1.store) ≡ some uid)

  place-Placed :
      (item : Item) (labels : List Bytes) (s : Service)
      → IsValid s.store
      → AllPinsFit s
      → Placed item s (place out key trash item labels s)
  unfolding place pin
  place-Placed item labels s v p =
      let pairs = (item.remote_id, item.remote_id) ∷ [] in
      let (m, e, a) = ensure_uids-Answers out.env trash pairs s.store v commits in
      let (uid, known) = a.covers.0 in
      let s' = record s { store = (ensure_uids out.env trash pairs s.store).1 } in
      rw (e, place)
        (rw (known) (
          uid,
          refl,
          record {
            valid = ensure_uids-IsValid out.env trash pairs s.store v;
            pins =
                pin-AllPinsFit out.now trash item.remote_id (trash_entry item labels) s' refl
                  (λ u. refl) p;
            live = λ q u h. sym (a.stored q) ∙ a.keeps q u h;
            follows = λ us f. ensure_uids-Follows out.env us trash pairs s.store v commits f;
          },
          sym (a.stored item.remote_id) ∙ known,
        ))

  label_trash_lem :
      (item : Item) (s : Service)
      → (((label_trash out key trash item s).0 ≡ none)
          × (out.update item (codes "trash" ∷ []) [] ≡ none))
        ⊎ ((labels : List Bytes) × ((label_trash out key trash item s).0 ≡ some labels))
  unfolding label_trash
  label_trash_lem item s = elim (Option-cases (out.update item (codes "trash" ∷ []) [])) [
    | inl failed ↦ inl (rw (failed, label_trash) refl, failed)
    | inr (answer, told) ↦ inr (trashed answer item.labels, rw (told, label_trash) refl)
  ]

  copy_one_lem :
      (item : Item) (s : Service)
      → IsValid s.store
      → AllPinsFit s
      → (((copy_one out key trash item s).0 ≡ none)
          × (out.update item (codes "trash" ∷ []) [] ≡ none)
          × Keeps trash s (copy_one out key trash item s).1)
        ⊎ Placed item s (copy_one out key trash item s)
  unfolding copy_one
  copy_one_lem item s v p =
      let k = label_trash-Keeps item s v p in
      elim (label_trash_lem item s) [
        | inl (none_, refused) ↦ rw (none_, copy_one) (inl (refl, refused, k))
        | inr (labels, some_) ↦
            let (uid, e, k', l) =
              place-Placed item labels (label_trash out key trash item s).1 k.valid k.pins in
            rw (some_, copy_one) (inr (uid, e, Keeps-trans k k', l))
      ]

  copy_loop_lem :
      (items : List Item) (s : Service)
      → IsValid s.store
      → AllPinsFit s
      → let (pairs, failed, s') = copy_loop out key trash items s in
        Keeps trash s s'
        × Matched trash items pairs s'.store
        × (((failed ≡ false) × (length pairs ≡ length items))
            ⊎ ((failed ≡ true) × Refused out items))
  unfolding copy_loop
  copy_loop_lem [] s v p = (Keeps-refl s v p, tt, inl (refl, refl))
  copy_loop_lem (item ∷ items) s v p = elim (copy_one_lem item s v p) [
    | inl (e, refused, k) ↦ rw (e, copy_loop) (k, tt, inr (refl, inl refused))
    | inr (uid, e, k, l) ↦
        let (k', m, ends) = copy_loop_lem items (copy_one out key trash item s).1 k.valid k.pins in
        rw (e, copy_loop)
          (
            Keeps-trans k k',
            ((refl, k'.live item.remote_id uid l), m),
            elim ends [
              | inl (whole, n) ↦ inl (whole, ap suc n)
              | inr (part, refused) ↦ inr (part, inr refused)
            ],
          )
  ]

  bump_moved-Keeps :
      (pairs : List (ℕ × ℕ)) (s s' : Service)
      → Keeps trash s s'
      → Keeps trash s (bump_moved out key trash pairs s')
  unfolding bump
  bump_moved-Keeps [] s s' k = k
  bump_moved-Keeps (p ∷ pairs) s s' k = record {
    valid = k.valid;
    pins = k.pins;
    live = k.live;
    follows = k.follows;
  }

  bump_moved_store :
      (pairs : List (ℕ × ℕ)) (s : Service) → (bump_moved out key trash pairs s).store ≡ s.store
  unfolding bump
  bump_moved_store [] s = refl
  bump_moved_store (p ∷ pairs) s = refl

  -- On a valid service whose pins fit, and a store whose transactions commit: `copy_to_trash` either
  -- raises, when `update_labels` raised for one of the messages, or answers one pair for each message,
  -- in order, of its UID and its live UID in the trash. In either case tables and pins stay valid, no
  -- live UID of the trash changes, and views of the trash stay followed.
  pub copy_to_trash-Keeps :
      (items : List Item) (s : Service)
      → IsValid s.store
      → AllPinsFit s
      → let (answer, s') = copy_to_trash out key trash items s in
        Keeps trash s s'
        × (((answer ≡ none) × Refused out items)
            ⊎ ((pairs : List (ℕ × ℕ)) × (answer ≡ some pairs)
                × Matched trash items pairs s'.store
                × (length pairs ≡ length items)))
  unfolding copy_to_trash
  copy_to_trash-Keeps items s v p =
      let (pairs, failed, s') = copy_loop out key trash items s in
      let (k, m, ends) = copy_loop_lem items s v p in
      elim ends [
        | inr (part, refused) ↦ rw (part, copy_to_trash) (k, inl (refl, refused))
        | inl (whole, n) ↦
            rw (whole, copy_to_trash)
              (
                bump_moved-Keeps pairs s s' k,
                inr (pairs, refl, rw (bump_moved_store pairs s') m, n),
              )
      ]
