-- ===== src/Commands/Matching.antt =====
-- imapgw/commands.py: the loop of `_wildcard_match` ends and decides, and so does the whole.
use mathlib.Core.Path.{subst}
use imap_work_trial.Base.{
  ℕ, zero, suc, ◌+◌, ◌*◌, ◌≤◌, ◌<◌, ◌≡◌, ◌↔◌, ◌⊎◌, refl, sym, ap, ◌∙◌, ◌==◌, ==_iff, nat_eq,
  list_eq, Bytes, lower, length, length-append, All-append, Bool, true, false, if◌then◌else◌,
  Bool-cases, Option, none, some, [], ◌∷◌, ◌++◌, append_assoc, arith, inl, inr,
}
use imap_work_trial.Commands.Wildcards.{
  is_star, is_wild, collapse, skip_stars, Star, backtrack, step, match_loop, rounds, wildcard_match,
}
use imap_work_trial.Commands.Globs.{
  Suffix, whole, later, Globs, literal, run, Suffix-trans, split, Retry, InStep, ahead, Decides,
  Decides-map, stars_end,
}
use imap_work_trial.Commands.Collapse.{collapse_to, collapse_from}

-- The loop ends within this many rounds: each takes a character of the pattern, or the last `*` takes
-- one more of the name, and the pattern starts again behind it.
abbrev cost : ℕ → Bytes → Bytes → Star → ℕ
cost size p n none = length p + (length n + 1) * (size + 1)
cost size p n (some (q, m)) = length p + length m * (size + 1)

abbrev Fits : ℕ → Star → Type 0
Fits size none = Unit
Fits size (some (q, m)) = length q ≤ size

abbrev Right : ℕ → ℕ → Type 0
Right size f =
    (p n : Bytes) (star : Star)
    → InStep p n star
    → length p ≤ size
    → Fits size star
    → cost size p n star < f
    → Decides (match_loop f p n star) (Globs is_star p n ⊎ Retry star)

longer_run :
    (q m : Bytes) (c : ℕ) → Retry (some (q, c ∷ m)) → Globs is_star q m ⊎ Retry (some (q, m))
longer_run q m c (k, whole, g) = inl g
longer_run q _ c (k, later d m s, g) = inr (k, s, g)

shorter_run :
    (q m : Bytes) (c : ℕ) → Globs is_star q m ⊎ Retry (some (q, m)) → Retry (some (q, c ∷ m))
shorter_run q m c (inl g) = (m, whole, g)
shorter_run q [] c (inr r) = absurd r
shorter_run q (d ∷ m) c (inr (k, s, g)) = (k, later d m s, g)

backtrack_lem :
    (size f : ℕ) (p n : Bytes) (star : Star)
    → Right size f
    → Fits size star
    → cost size p n star < suc f
    → 1 ≤ length n
    → (Globs is_star p n → ⊥)
    → Decides (backtrack star (match_loop f)) (Globs is_star p n ⊎ Retry star)
unfolding backtrack
backtrack_lem size f p n none right fits lt pos not' = (
  false,
  refl,
  (λ h. absurd (ground arith), λ o. elim o [ inl g ↦ absurd (not' g) | inr r ↦ absurd r ]),
)
backtrack_lem size f p n (some (q, [])) right fits lt pos not' = (
  false,
  refl,
  (λ h. absurd (ground arith), λ o. elim o [ inl g ↦ absurd (not' g) | inr r ↦ absurd r ]),
)
backtrack_lem size f p n (some (q, c ∷ m)) right fits lt pos not' =
    Decides-map _ _ _ (λ o. inr (shorter_run q m c o))
      (λ o. elim o [ inl g ↦ absurd (not' g) | inr r ↦ longer_run q m c r ])
      (right q m (some (q, m)) ([], refl, refl, tt) fits fits (ground arith))

run_cases :
    (p : Bytes) (c : ℕ) (n k : Bytes)
    → Suffix k (c ∷ n)
    → Globs is_star p k
    → Globs is_star p (c ∷ n) ⊎ Retry (some (p, c ∷ n))
run_cases p c n _ whole g = inl g
run_cases p c n k (later _ _ s) g = inr (k, s, g)

-- A `*` is met: from here on it takes the place of the one before.
star_lem :
    (d : ℕ) (p : Bytes) (c : ℕ) (n : Bytes) (star : Star) (r : Option Bool)
    → is_star d ≡ true
    → InStep (d ∷ p) (c ∷ n) star
    → Decides r (Globs is_star p (c ∷ n) ⊎ Retry (some (p, c ∷ n)))
    → Decides r (Globs is_star (d ∷ p) (c ∷ n) ⊎ Retry star)
star_lem d p c n star r w i dec =
    Decides-map r _ _
      (λ o. inl (elim o [
        | inl g ↦ run d p (c ∷ n) (c ∷ n) w whole g
        | inr (k, s, g) ↦ run d p k (c ∷ n) w (later c n s) g
      ]))
      (λ o. elim o [
        | inl g ↦ from_run (c ∷ n) whole g
        | inr again ↦ let (k, s, _, g) = ahead (d ∷ p) (c ∷ n) star i again in from_run k s g
      ])
      dec
  where
    from_run :
        (k : Bytes)
        → Suffix k (c ∷ n)
        → Globs is_star (d ∷ p) k
        → Globs is_star p (c ∷ n) ⊎ Retry (some (p, c ∷ n))
    from_run k s g = elim (split is_star g) [
      | inl (o, m, e, g') ↦ absurd (ground (arith, o, w))
      | inr (o, l, t, g') ↦ run_cases p c n l (Suffix-trans t s) g'
    ]

-- A character that fits.
keeps_step :
    (c : ℕ) (p n : Bytes) (star : Star)
    → is_star c ≡ false
    → InStep (c ∷ p) (c ∷ n) star
    → InStep p n star
keeps_step c p n none h i = tt
keeps_step c p n (some (q, m)) h (lits, e, e', a) = (
  lits ++ c ∷ [],
  e ∙ sym (append_assoc lits (c ∷ []) p),
  e' ∙ sym (append_assoc lits (c ∷ []) n),
  All-append (λ x. is_star x ≡ false) lits (c ∷ []) a (h, tt),
)

literal_lem :
    (c : ℕ) (p n : Bytes) (star : Star) (r : Option Bool)
    → is_star c ≡ false
    → Decides r (Globs is_star p n ⊎ Retry star)
    → Decides r (Globs is_star (c ∷ p) (c ∷ n) ⊎ Retry star)
literal_lem c p n star r h dec =
    Decides-map r _ _ (λ o. elim o [ inl g ↦ inl (literal c p n h g) | inr again ↦ inr again ])
      (λ o. elim o [
        | inl g ↦ elim (split is_star g) [
          | inl (w, m, e, g') ↦ inl (subst (Globs is_star p) (sym (tail-eq e)) g')
          | inr (w, k, s, g') ↦ absurd (ground (arith, w, h))
        ]
        | inr again ↦ inr again
      ])
      dec
  where
    tail-eq : {m : Bytes} → c ∷ n ≡ c ∷ m → n ≡ m
    tail-eq e = ground arith

misfit :
    (d : ℕ) (p : Bytes) (c : ℕ) (n : Bytes)
    → is_star d ≡ false
    → (d == c) ≡ false
    → Globs is_star (d ∷ p) (c ∷ n)
    → ⊥
misfit d p c n h other g = elim (split is_star g) [
  | inl (w, m, e, g') ↦ absurd (ground (arith, e, other, ==_iff d c))
  | inr (w, k, s, g') ↦ absurd (ground (arith, w, h))
]

-- What the next round may still cost.
cost_star :
    (size : ℕ) (d : ℕ) (p : Bytes) (c : ℕ) (n : Bytes) (star : Star) (f : ℕ)
    → InStep (d ∷ p) (c ∷ n) star
    → cost size (d ∷ p) (c ∷ n) star < suc f
    → cost size p (c ∷ n) (some (p, c ∷ n)) < f
cost_star size d p c n none f i lt = ground arith
cost_star size d p c n (some (q, m)) f (lits, e, e', a) lt =
    let long : length m ≡ length lits + length (c ∷ n) =
      ap length e' ∙ length-append lits (c ∷ n) in
    ground (arith, ap (λ x. x * (size + 1)) long)

cost_literal :
    (size : ℕ) (d : ℕ) (p : Bytes) (c : ℕ) (n : Bytes) (star : Star) (f : ℕ)
    → cost size (d ∷ p) (c ∷ n) star < suc f
    → cost size p n star < f
cost_literal size d p c n none f lt = ground arith
cost_literal size d p c n (some (q, m)) f lt = ground arith

step_lem :
    (size f : ℕ) (p : Bytes) (c : ℕ) (n : Bytes) (star : Star)
    → Right size f
    → InStep p (c ∷ n) star
    → length p ≤ size
    → Fits size star
    → cost size p (c ∷ n) star < suc f
    → Decides (step p c n star (match_loop f)) (Globs is_star p (c ∷ n) ⊎ Retry star)
unfolding step
step_lem size f [] c n star right i le fits lt =
    backtrack_lem size f [] (c ∷ n) star right fits lt (omega arith)
      (λ g. absurd (ground (arith, split is_star g)))
step_lem size f (d ∷ p) c n star right i le fits lt = elim (Bool-cases (is_star d)) [
  | inl wild ↦
      rw (wild, step)
        (star_lem d p c n star _ wild i (
          right p (c ∷ n) (some (p, c ∷ n)) ([], refl, refl, tt) (omega arith) (omega arith)
            (cost_star size d p c n star f i lt)))
  | inr plain ↦ elim (Bool-cases (d == c)) [
    | inl same ↦
        rw (plain, same, step)
          (subst (λ x. Decides (match_loop f p n star) (Globs is_star (d ∷ p) (x ∷ n) ⊎ Retry star))
            ((==_iff d c).0 same)
            (literal_lem d p n star _ plain (
              right p n star
                (keeps_step d p n star plain
                  (subst (λ x. InStep (d ∷ p) (x ∷ n) star) (sym ((==_iff d c).0 same)) i))
                (omega arith) fits (cost_literal size d p c n star f lt))))
    | inr other ↦
        rw (plain, other, step)
          (backtrack_lem size f (d ∷ p) (c ∷ n) star right fits lt (omega arith)
            (misfit d p c n plain other))
  ]
]

match_loop_lem : (size f : ℕ) → Right size f
unfolding match_loop
match_loop_lem size zero p n star i le fits lt = absurd (omega arith)
match_loop_lem size (suc f) p [] star i le fits lt = (
  skip_stars p == [],
  refl,
  (
    λ h. inl ((stars_end p).0 h),
    λ o. elim o [
      | inl g ↦ (stars_end p).1 g
      | inr again ↦ let (k, s, short, g) = ahead p [] star i again in absurd (omega (arith, short))
    ],
  ),
)
match_loop_lem size (suc f) p (c ∷ n) star i le fits lt =
    step_lem size f p c n star (match_loop_lem size f) i le fits lt

-- `_wildcard_match` always ends, and with True exactly if the pattern matches the name, where each
-- `*` and each `%` stands for any run of characters and any other character for itself; without
-- regard to case, both are in lower case.
pub wildcard_match-Globs :
    (ignore_case : Bool) (pattern name : Bytes)
    → (b : Bool) × (wildcard_match ignore_case pattern name ≡ some b)
      × ((b ≡ true)
          ↔ Globs is_wild
              (if ignore_case then lower pattern else pattern)
              (if ignore_case then lower name else name))
unfolding wildcard_match
wildcard_match-Globs ignore_case pattern name =
    let folded = if ignore_case then lower pattern else pattern in
    let text = if ignore_case then lower name else name in
    let p = collapse false folded in
    Decides-map _ _ _ (λ o. elim o [ inl g ↦ (collapse_from folded).0 text g | inr r ↦ absurd r ])
      (λ g. inl ((collapse_to folded).0 text g))
      (match_loop_lem (length p) (rounds p text) p text none tt (omega arith) tt (ground arith))
