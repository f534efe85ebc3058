-- ===== src/Commands/Globs.antt =====
-- imapgw/commands.py: what `_wildcard_match` decides.
use mathlib.Core.Path.{subst}
use imap_work_trial.Base.{
  ℕ, suc, ◌+◌, ◌≤◌, ◌<◌, ◌≡◌, ◌↔◌, ◌⊎◌, refl, sym, ap, ◌∙◌, ◌==◌, nat_eq, list_eq, Bytes, length,
  length-append, All, Bool, true, false, Bool-cases, Option, none, some, [], ◌∷◌, ◌++◌, arith, inl,
  inr,
}
use imap_work_trial.Commands.Wildcards.{is_star, skip_stars, Star}

-- `k` is what is left of `n` from some position on.
pub data Suffix (k : Bytes) : Bytes → Type 0 where
  whole : Suffix k k
  later : (c : ℕ) (n : Bytes) → Suffix k n → Suffix k (c ∷ n)

-- A name that a pattern matches: a wildcard stands for any run of characters, another character for
-- itself.
pub data Globs (wild : ℕ → Bool) : Bytes → Bytes → Type 0 where
  finish : Globs wild [] []
  literal : (c : ℕ) (p n : Bytes) → wild c ≡ false → Globs wild p n → Globs wild (c ∷ p) (c ∷ n)
  run : (w : ℕ) (p k n : Bytes) → wild w ≡ true → Suffix k n → Globs wild p k → Globs wild (w ∷ p) n

pub Suffix-trans : {a b c : Bytes} → Suffix a b → Suffix b c → Suffix a c
Suffix-trans s whole = s
Suffix-trans s (later x n t) = later x n (Suffix-trans s t)

pub Suffix-length : {a b : Bytes} → Suffix a b → length a ≤ length b
Suffix-length whole = omega arith
Suffix-length (later c n s) = omega (arith, Suffix-length s)

Suffix-append : (front n : Bytes) → Suffix n (front ++ n)
Suffix-append [] n = whole
Suffix-append (c ∷ front) n = later c (front ++ n) (Suffix-append front n)

-- Of two suffixes of a name the shorter is one of the longer.
Suffix-shorter : {k n w : Bytes} → Suffix k w → Suffix n w → length k ≤ length n → Suffix k n
Suffix-shorter s whole h = s
Suffix-shorter whole (later c w t) h = absurd (omega (arith, Suffix-length t))
Suffix-shorter (later _ _ s) (later c w t) h = Suffix-shorter s t h

-- What a pattern that begins with a character comes to.
module _ (wild : ℕ → Bool) where
  abbrev pub Split : Bytes → Bytes → Type 0
  Split [] n = n ≡ []
  Split (c ∷ p) n =
      ((wild c ≡ false) × (m : Bytes) × (n ≡ c ∷ m) × Globs wild p m)
      ⊎ ((wild c ≡ true) × (k : Bytes) × Suffix k n × Globs wild p k)

  pub split : {p n : Bytes} → Globs wild p n → Split p n
  split finish = refl
  split (literal c p n w g) = inl (w, n, refl, g)
  split (run c p k n w s g) = inr (w, k, s, g)

  -- Literals in front of a pattern stand for themselves.
  Globs-literals :
      (lits p n : Bytes)
      → All (λ c. wild c ≡ false) lits
      → Globs wild (lits ++ p) n
      → (k : Bytes) × (n ≡ lits ++ k) × Globs wild p k
  Globs-literals [] p n h g = (n, refl, g)
  Globs-literals (c ∷ lits) p n h g = elim (split g) [
    | inl (w, m, e, g') ↦
        let (k, e', g'') = Globs-literals lits p m h.1 g' in (k, e ∙ ap (◌∷◌ c) e', g'')
    | inr (w, k, s, g') ↦ absurd (ground (arith, h.0, w))
  ]

-- What the last `*` can still do: take one character more, or several.
abbrev pub Retry : Star → Type 0
Retry none = ⊥
Retry (some (p, [])) = ⊥
Retry (some (p, c ∷ name)) = (k : Bytes) × Suffix k name × Globs is_star p k

-- Between the last `*` and here pattern and name have the same characters.
abbrev pub InStep : Bytes → Bytes → Star → Type 0
InStep p n none = Unit
InStep p n (some (q, m)) =
    (lits : Bytes) × (q ≡ lits ++ p) × (m ≡ lits ++ n) × All (λ c. is_star c ≡ false) lits

-- Whatever the last `*` can still do, the pattern from here on matches a shorter end of the name.
pub ahead :
    (p n : Bytes) (star : Star)
    → InStep p n star
    → Retry star
    → (k : Bytes) × Suffix k n × (length k < length n) × Globs is_star p k
ahead p n none i r = absurd r
ahead p n (some (q, [])) i r = absurd r
ahead p n (some (q, c ∷ m)) (lits, e, e', h) (k, s, g) =
    let (rest, split', g') =
      Globs-literals is_star lits p k h (subst (λ x. Globs is_star x k) e g) in
    let size : length k ≡ length lits + length rest = ap length split' ∙ length-append lits rest in
    let whole_size : suc (length m) ≡ length lits + length n =
      ap length e' ∙ length-append lits n in
    let shorter : length rest < length n = omega (arith, Suffix-length s) in
    let inside : Suffix rest (lits ++ n) =
      subst (Suffix rest) e'
        (later c m (Suffix-trans (subst (Suffix rest) (sym split') (Suffix-append lits rest)) s)) in
    (rest, Suffix-shorter inside (Suffix-append lits n) (omega arith), shorter, g')

-- A result that decides `P`.
abbrev pub Decides : Option Bool → Type 0 → Type 0
Decides r P = (b : Bool) × (r ≡ some b) × ((b ≡ true) ↔ P)

pub Decides-map : (r : Option Bool) (P Q : Type 0) → (P → Q) → (Q → P) → Decides r P → Decides r Q
Decides-map r P Q f g (b, e, d) = (b, e, (λ h. f (d.0 h), λ q. d.1 (g q)))

-- At the end of the name.
pub stars_end : (p : Bytes) → ((skip_stars p == []) ≡ true) ↔ Globs is_star p []
unfolding skip_stars
stars_end [] = (λ h. finish, λ g. refl)
stars_end (c ∷ p) = elim (Bool-cases (is_star c)) [
  | inl star ↦
      rw (star, skip_stars)
        (
          (λ h. run c p [] [] star whole ((stars_end p).0 h)),
          (λ g. elim (split is_star g) [
            | inl (w, m, e, g') ↦ absurd (ground (arith, w, star))
            | inr (w, k, s, g') ↦ (stars_end p).1 (subst (Globs is_star p) (nothing k s) g')
          ]),
        )
  | inr other ↦
      rw (other, skip_stars)
        (
          (λ h. absurd (ground arith)),
          (λ g. elim (split is_star g) [
            | inl (w, m, e, g') ↦ absurd (ground (arith, e))
            | inr (w, k, s, g') ↦ absurd (ground (arith, w, other))
          ]),
        )
]
  where
    nothing : (k : Bytes) → Suffix k [] → k ≡ []
    nothing k whole = refl
