-- ===== src/Fetch/Select.antt =====
-- imapgw/fetch.py: what `select_numbers` selects.
use imap_work_trial.Base.{
  ℕ, ◌≤◌, ◌<◌, ◌&&◌, &&-true, ◌≡◌, ◌≢◌, ◌↔◌, ◌⊎◌, ◌==◌, ◌∙◌, refl, ap, nat_eq, ==_iff, true, any,
  contains, All, IsAscending, Bool-cases, List, [], ◌∷◌, arith, inl, inr,
}
use imap_work_trial.Fetch.Sequences.{
  SequenceSet, star, is_star, has_star, ordered, resolve, in_range, select_from, select_numbers,
  last_of,
}

-- The last of the candidates.
abbrev pub IsLast : ℕ → List ℕ → Type 0
IsLast n [] = ⊥
IsLast n (m ∷ []) = m ≡ n
IsLast n (m ∷ k ∷ candidates) = IsLast n (k ∷ candidates)

-- What an end of a range means: a number, or the last candidate.
pub data Means (last : ℕ) : ℕ → ℕ → Type 0 where
  star_means : Means last star last
  number_means : (n : ℕ) → n ≢ star → Means last n n

-- The ends of a range may come in either order.
abbrev pub Between : ℕ → ℕ → ℕ × ℕ → Type 0
Between last n r =
    (a : ℕ) × (b : ℕ) × Means last r.0 a
    × Means last r.1 b
    × (((a ≤ n) × (n ≤ b)) ⊎ ((b ≤ n) × (n ≤ a)))

-- Some range of the set holds the number.
pub data Covered (last n : ℕ) : List (ℕ × ℕ) → Type 0 where
  here : (r : ℕ × ℕ) (rs : List (ℕ × ℕ)) → Between last n r → Covered last n (r ∷ rs)
  there : (r : ℕ × ℕ) (rs : List (ℕ × ℕ)) → Covered last n rs → Covered last n (r ∷ rs)

resolve-Means : (last n : ℕ) → Means last n (resolve last n)
unfolding resolve
resolve-Means last n = elim (Bool-cases (n == star)) [
  | inl special ↦
      let same : n ≡ star = (==_iff n star).0 special in rw (special, resolve) (rw same star_means)
  | inr plain ↦ rw (plain, resolve) (number_means n (ground (arith, plain, ==_iff n star)))
]

Means-resolve : (last n a : ℕ) → Means last n a → resolve last n ≡ a
unfolding resolve
Means-resolve last _ _ star_means = refl
Means-resolve last _ _ (number_means n other) = ground (arith, ==_iff n star)

in_range→Between : (largest n : ℕ) (r : ℕ × ℕ) → in_range largest n r ≡ true → Between largest n r
unfolding in_range ordered
in_range→Between largest n r h = (
  resolve largest r.0,
  resolve largest r.1,
  resolve-Means largest r.0,
  resolve-Means largest r.1,
  ground arith,
)

Between→in_range : (largest n : ℕ) (r : ℕ × ℕ) → Between largest n r → in_range largest n r ≡ true
unfolding in_range ordered
Between→in_range largest n r (a, b, ma, mb, h) =
    rw (Means-resolve largest r.0 a ma) (rw (Means-resolve largest r.1 b mb) (ground arith))

any→Covered :
    (largest n : ℕ) (rs : List (ℕ × ℕ)) → any (in_range largest n) rs ≡ true → Covered largest n rs
any→Covered largest n [] h = absurd (ground arith)
any→Covered largest n (r ∷ rs) h = elim (Bool-cases (in_range largest n r)) [
  | inl hit ↦ here r rs (in_range→Between largest n r hit)
  | inr miss ↦ there r rs (any→Covered largest n rs (rw miss at h))
]

Covered→any :
    (largest n : ℕ) (rs : List (ℕ × ℕ)) → Covered largest n rs → any (in_range largest n) rs ≡ true
Covered→any largest n _ (here r rs b) = rw (Between→in_range largest n r b) refl
Covered→any largest n _ (there r rs c) = ground (arith, Covered→any largest n rs c)

contains-select_from :
    (largest : ℕ) (s : SequenceSet) (candidates : List ℕ) (n : ℕ)
    → contains (select_from largest s candidates) n
      ≡ (contains candidates n && any (in_range largest n) s.ranges)
unfolding select_from
contains-select_from largest s [] n = refl
contains-select_from largest s (m ∷ candidates) n =
    ground (arith, ==_iff m n, contains-select_from largest s candidates n)

All-select_from :
    (P : ℕ → Type 0) (largest : ℕ) (s : SequenceSet) (candidates : List ℕ)
    → All P candidates
    → All P (select_from largest s candidates)
unfolding select_from
All-select_from P largest s [] h = tt
All-select_from P largest s (m ∷ candidates) h =
    ground (arith, All-select_from P largest s candidates)

select_from-IsAscending :
    (largest : ℕ) (s : SequenceSet) (candidates : List ℕ)
    → IsAscending candidates
    → IsAscending (select_from largest s candidates)
unfolding select_from
select_from-IsAscending largest s [] h = tt
select_from-IsAscending largest s (m ∷ candidates) h = ground (
  arith,
  All-select_from (λ y. m < y) largest s candidates h.0,
  select_from-IsAscending largest s candidates h.1,
)

select_from_iff :
    (largest : ℕ) (s : SequenceSet) (candidates : List ℕ) (n : ℕ)
    → (contains (select_from largest s candidates) n ≡ true)
      ↔ ((contains candidates n ≡ true) × Covered largest n s.ranges)
select_from_iff largest s candidates n = rw contains-select_from (
  (λ h. let (c, i) = &&-true (contains candidates n) _ h in (c, any→Covered largest n s.ranges i)),
  (λ h. ground (arith, Covered→any largest n s.ranges h.1)),
)

IsLast-last_of :
    (last first : ℕ) (others : List ℕ) → IsLast last (first ∷ others) → last_of first others ≡ last
unfolding last_of
IsLast-last_of last first [] l = l
IsLast-last_of last first (n ∷ others) l = IsLast-last_of last n others l

select_numbers_lem :
    (s : SequenceSet) (first : ℕ) (others : List ℕ) (last : ℕ)
    → IsLast last (first ∷ others)
    → select_numbers s (first ∷ others) ≡ select_from last s (first ∷ others)
unfolding select_numbers
select_numbers_lem s first others last l =
    ap (λ k. select_from k s (first ∷ others)) (IsLast-last_of last first others l)

-- `select_numbers` selects the candidates that a range of the set holds, where `*` is the last
-- candidate and the ends of a range may come in either order, and it keeps an ascending order.
pub select_numbers-Covered :
    (s : SequenceSet) (candidates : List ℕ) (last n : ℕ)
    → IsLast last candidates
    → ((contains (select_numbers s candidates) n ≡ true)
        ↔ ((contains candidates n ≡ true) × Covered last n s.ranges))
      × (IsAscending candidates → IsAscending (select_numbers s candidates))
select_numbers-Covered s [] last n l = absurd l
select_numbers-Covered s (first ∷ others) last n l =
    rw (select_numbers_lem s first others last l)
      (select_from_iff last s (first ∷ others) n, select_from-IsAscending last s (first ∷ others))

contains-last_of :
    (first : ℕ) (others : List ℕ) → contains (first ∷ others) (last_of first others) ≡ true
unfolding last_of
contains-last_of first [] = ground (arith, ==_iff first first)
contains-last_of first (n ∷ others) = ground (arith, contains-last_of n others)

All-last_of :
    (P : ℕ → Type 0) (first : ℕ) (others : List ℕ)
    → All P (first ∷ others)
    → P (last_of first others)
unfolding last_of
All-last_of P first [] h = h.0
All-last_of P first (n ∷ others) h = All-last_of P n others h.1

star-in_range : (largest : ℕ) (r : ℕ × ℕ) → is_star r ≡ true → in_range largest largest r ≡ true
unfolding in_range ordered resolve
star-in_range largest r h = ground arith

any-star :
    (largest : ℕ) (rs : List (ℕ × ℕ))
    → any is_star rs ≡ true
    → any (in_range largest largest) rs ≡ true
any-star largest [] h = h
any-star largest (r ∷ rs) h = ground (arith, any-star largest rs, star-in_range largest r)

-- A set with a `*` as the upper end of a range selects the last candidate.
pub select_numbers-star :
    (s : SequenceSet) (first : ℕ) (others : List ℕ)
    → has_star s ≡ true
    → contains (select_numbers s (first ∷ others)) (last_of first others) ≡ true
unfolding select_numbers has_star
select_numbers-star s first others h =
    contains-select_from (last_of first others) s (first ∷ others) (last_of first others)
    ∙ ground (arith, contains-last_of first others, any-star (last_of first others) s.ranges h)
