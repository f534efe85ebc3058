-- ===== src/Search/Hits.antt =====
-- imapgw/commands.py: which numbers `_search` writes.
use mathlib.Core.Path.{subst}
use imap_work_trial.Base.{
  ℕ, suc, ◌≤◌, ◌<◌, ◌≡◌, ◌↔◌, refl, sym, ◌⊎◌, Bool-cases, ◌==◌, nat_eq, ==_iff, Bytes, contains,
  All, All-map, IsAscending, Bool, true, false, if◌then◌else◌, Dict, lookup, Option-cases, some,
  List, [], ◌∷◌, arith, inl, inr,
}
use imap_work_trial.Mailbox.Flags.{Item}
use imap_work_trial.Search.Criteria.{Crit}
use imap_work_trial.Search.Evaluate.{Email, Fetched, got, not_found, broken, SearchContext}
use imap_work_trial.Search.Meaning.{Meets, evaluate-Meets}
use imap_work_trial.Search.Handler.{hit, hits_from}

module _ (email : Email) (ctx : SearchContext) (crit : Crit) (uid_mode : Bool)
    (items : Dict ℕ Item) where
  -- The number of a message in the answer: its UID or its sequence number.
  abbrev pub number_of : ℕ → ℕ → ℕ
  number_of seq uid = if uid_mode then uid else seq

  module _ (bytes : Item → Bytes) (octets : Item → ℕ) where
    -- A number of a message, in a view from a sequence number on, that is in the snapshot and meets
    -- the criterion.
    pub data IsHit (n : ℕ) : ℕ → List ℕ → Type 0 where
      here :
          (seq uid : ℕ) (uids : List ℕ) (item : Item)
          → lookup uid items ≡ some item
          → Meets email ctx seq item (bytes item) (octets item) crit
          → n ≡ number_of seq uid
          → IsHit n seq (uid ∷ uids)
      there : (seq uid : ℕ) (uids : List ℕ) → IsHit n (suc seq) uids → IsHit n seq (uid ∷ uids)

    abbrev Head : ℕ → ℕ → ℕ → Type 0
    Head n seq uid =
        (item : Item) × (lookup uid items ≡ some item)
        × Meets email ctx seq item (bytes item) (octets item) crit
        × (n ≡ number_of seq uid)

    abbrev Split : ℕ → ℕ → List ℕ → Type 0
    Split n seq [] = ⊥
    Split n seq (uid ∷ uids) = Head n seq uid ⊎ IsHit n (suc seq) uids

    IsHit-cases : (n seq : ℕ) (uids : List ℕ) → IsHit n seq uids → Split n seq uids
    IsHit-cases n _ _ (here seq uid uids item l m e) = inl (item, l, m, e)
    IsHit-cases n _ _ (there seq uid uids h) = inr h

    -- A list of numbers that is right for the rest of the view, and what the first message adds.
    miss :
        (n seq uid : ℕ) (uids hits : List ℕ)
        → (Head n seq uid → ⊥)
        → (contains hits n ≡ true) ↔ IsHit n (suc seq) uids
        → (contains hits n ≡ true) ↔ IsHit n seq (uid ∷ uids)
    miss n seq uid uids hits none' d = (
      λ h. there seq uid uids (d.0 h),
      λ h. elim (IsHit-cases n seq (uid ∷ uids) h) [
        | inl first ↦ absurd (none' first)
        | inr more ↦ d.1 more
      ],
    )

    add :
        (n seq uid : ℕ) (uids hits : List ℕ) (item : Item)
        → lookup uid items ≡ some item
        → Meets email ctx seq item (bytes item) (octets item) crit
        → (contains hits n ≡ true) ↔ IsHit n (suc seq) uids
        → (contains (number_of seq uid ∷ hits) n ≡ true) ↔ IsHit n seq (uid ∷ uids)
    add n seq uid uids hits item l m d = (
      λ h. elim (Bool-cases (number_of seq uid == n)) [
        | inl same ↦ here seq uid uids item l m (sym ((==_iff (number_of seq uid) n).0 same))
        | inr other ↦ there seq uid uids (d.0 (rw other at h))
      ],
      λ h. elim (IsHit-cases n seq (uid ∷ uids) h) [
        | inl first ↦ ground (arith, first.3, ==_iff (number_of seq uid) n)
        | inr more ↦ ground (arith, d.1 more)
      ],
    )

    module _ (fetched : (item : Item) → ctx.raw item ≡ got (bytes item))
        (sized : (item : Item) → ctx.size item ≡ got (octets item)) where
      abbrev Right : ℕ → List ℕ → Fetched (List ℕ) → Type 0
      Right seq uids r =
          (hits : List ℕ) × (r ≡ got hits) × ((n : ℕ) → (contains hits n ≡ true) ↔ IsHit n seq uids)

      hit-Right :
          (seq uid : ℕ) (uids : List ℕ) (item : Item) (r : Fetched Bool) (rest : Fetched (List ℕ))
          → lookup uid items ≡ some item
          → ((b : Bool) × (r ≡ got b)
              × ((b ≡ true) ↔ Meets email ctx seq item (bytes item) (octets item) crit))
          → Right (suc seq) uids rest
          → Right seq (uid ∷ uids) (hit (number_of seq uid) r rest)
      unfolding hit
      hit-Right seq uid uids item r rest l (true, e, m) (hits, e', d) = (
        number_of seq uid ∷ hits,
        rw (e, e') refl,
        λ n. add n seq uid uids hits item l (m.0 refl) (d n),
      )
      hit-Right seq uid uids item r rest l (false, e, m) (hits, e', d) = (
        hits,
        rw e e',
        λ n.
            miss n seq uid uids hits
              (λ first.
                let same : first.0 ≡ item = ground (arith, first.1, l) in
                absurd (
                  ground (
                    arith,
                    m.1 (subst (λ i. Meets email ctx seq i (bytes i) (octets i) crit) same first.2),
                  )))
              (d n),
      )

      pub hits_from-IsHit :
          (seq : ℕ) (uids : List ℕ)
          → Right seq uids (hits_from email ctx crit uid_mode items seq uids)
      unfolding hits_from
      hits_from-IsHit seq [] =
          ([], refl, λ n. (λ h. absurd (ground arith), λ h. absurd (IsHit-cases n seq [] h)))
      hits_from-IsHit seq (uid ∷ uids) =
          let (hits, e, d) = hits_from-IsHit (suc seq) uids in
          elim (Option-cases (lookup uid items)) [
            | inl gone ↦ (
              hits,
              rw (gone, hits_from) e,
              λ n. miss n seq uid uids hits (λ first. ground (arith, first.1)) (d n),
            )
            | inr (item, known) ↦
                rw (known, hits_from)
                  (hit-Right seq uid uids item _ _ known
                    (evaluate-Meets email ctx seq item (bytes item) (octets item) (fetched item)
                      (sized item) crit)
                    (hits, e, d))
          ]

-- The hits of a view are those of its rest, with the first message's number in front or not.
abbrev Grown : ℕ → Fetched (List ℕ) → List ℕ → Type 0
Grown n rest hits = (tail : List ℕ) × (rest ≡ got tail) × ((hits ≡ n ∷ tail) ⊎ (hits ≡ tail))

hit-Grown :
    (n : ℕ) (r : Fetched Bool) (rest : Fetched (List ℕ)) (hits : List ℕ)
    → hit n r rest ≡ got hits
    → Grown n rest hits
unfolding hit
hit-Grown n (got true) (got tail) hits e = (tail, refl, inl (ground arith))
hit-Grown n (got true) not_found hits e = absurd (ground arith)
hit-Grown n (got true) broken hits e = absurd (ground arith)
hit-Grown n (got false) rest hits e = (hits, e, inr refl)
hit-Grown n not_found rest hits e = (hits, e, inr refl)
hit-Grown n broken rest hits e = absurd (ground arith)

module _ (email : Email) (ctx : SearchContext) (crit : Crit) (items : Dict ℕ Item) where
  hits_from-Grown :
      (uid_mode : Bool) (seq uid : ℕ) (uids hits : List ℕ)
      → hits_from email ctx crit uid_mode items seq (uid ∷ uids) ≡ got hits
      → Grown
          (number_of email ctx crit uid_mode items seq uid)
          (hits_from email ctx crit uid_mode items (suc seq) uids)
          hits
  unfolding hits_from
  hits_from-Grown uid_mode seq uid uids hits e = elim (Option-cases (lookup uid items)) [
    | inl gone ↦ (hits, rw (gone, hits_from) at e, inr refl)
    | inr (item, known) ↦ hit-Grown _ _ _ hits (rw (known, hits_from) at e)
  ]

  hits_from-All :
      (P : ℕ → Type 0) (seq : ℕ) (uids hits : List ℕ)
      → hits_from email ctx crit true items seq uids ≡ got hits
      → All P uids
      → All P hits
  hits_from-All P seq [] hits e h = unfold hits_from in ground arith
  hits_from-All P seq (uid ∷ uids) hits e h =
      let (tail, rest, o) = hits_from-Grown true seq uid uids hits e in
      let ih = hits_from-All P (suc seq) uids tail rest h.1 in
      elim o [ inl grown ↦ rw grown (h.0, ih) | inr same ↦ rw same ih ]

  hits_from-least :
      (seq : ℕ) (uids hits : List ℕ)
      → hits_from email ctx crit false items seq uids ≡ got hits
      → All (λ n. seq ≤ n) hits
  hits_from-least seq [] hits e = unfold hits_from in ground arith
  hits_from-least seq (uid ∷ uids) hits e =
      let (tail, rest, o) = hits_from-Grown false seq uid uids hits e in
      let ih =
        All-map (λ n. suc seq ≤ n) (λ n. seq ≤ n) (λ n k. omega arith) tail
          (hits_from-least (suc seq) uids tail rest) in
      elim o [ inl grown ↦ rw grown (omega arith, ih) | inr same ↦ rw same ih ]

  -- The numbers of an answer are in ascending order: sequence numbers always, and UIDs if the view
  -- is, whatever the fetches come to.
  pub hits_from-IsAscending :
      (uid_mode : Bool) (seq : ℕ) (uids hits : List ℕ)
      → hits_from email ctx crit uid_mode items seq uids ≡ got hits
      → IsAscending uids
      → IsAscending hits
  hits_from-IsAscending uid_mode seq [] hits e h = unfold hits_from in ground arith
  hits_from-IsAscending true seq (uid ∷ uids) hits e h =
      let (tail, rest, o) = hits_from-Grown true seq uid uids hits e in
      let ih = hits_from-IsAscending true (suc seq) uids tail rest h.1 in
      elim o [
        | inl grown ↦ rw grown (hits_from-All (λ y. uid < y) (suc seq) uids tail rest h.0, ih)
        | inr same ↦ rw same ih
      ]
  hits_from-IsAscending false seq (uid ∷ uids) hits e h =
      let (tail, rest, o) = hits_from-Grown false seq uid uids hits e in
      let ih = hits_from-IsAscending false (suc seq) uids tail rest h.1 in
      elim o [
        | inl grown ↦ rw grown (
          All-map (λ n. suc seq ≤ n) (λ n. seq < n) (λ n k. omega arith) tail
              (hits_from-least (suc seq) uids tail rest),
          ih,
        )
        | inr same ↦ rw same ih
      ]

module _ (email : Email) (ctx : SearchContext) (crit : Crit) (uid_mode : Bool)
    (items : Dict ℕ Item) where
  -- If all fetches succeed, the loop of `_search` answers the numbers of the messages of the view,
  -- UIDs or sequence numbers, that are in the snapshot and meet the criterion, and no others, in
  -- ascending order if the view is.
  pub hits_from-Answers :
      (bytes : Item → Bytes) (octets : Item → ℕ)
      → ((item : Item) → ctx.raw item ≡ got (bytes item))
      → ((item : Item) → ctx.size item ≡ got (octets item))
      → (uids : List ℕ) → IsAscending uids
      → (hits : List ℕ) × (hits_from email ctx crit uid_mode items 1 uids ≡ got hits)
        × IsAscending hits
        × ((n : ℕ)
            → (contains hits n ≡ true) ↔ IsHit email ctx crit uid_mode items bytes octets n 1 uids)
  hits_from-Answers bytes octets fetched sized uids order =
      let (hits, e, d) =
        hits_from-IsHit email ctx crit uid_mode items bytes octets fetched sized 1 uids in
      (hits, e, hits_from-IsAscending email ctx crit items uid_mode 1 uids hits e order, d)
