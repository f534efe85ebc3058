-- ===== src/Commands/Collapse.antt =====
-- imapgw/commands.py: the collapse of runs of wildcards keeps the meaning of a pattern.
use mathlib.Core.Path.{subst}
use imap_work_trial.Base.{
  ℕ, ◌≡◌, refl, sym, nat_eq, list_eq, Bytes, true, false, Bool-cases, [], ◌∷◌, arith, inl, inr,
}
use imap_work_trial.Commands.Wildcards.{is_star, is_wild, collapse}
use imap_work_trial.Commands.Globs.{Suffix, whole, Globs, finish, literal, run, Suffix-trans, split}

not_star : (c : ℕ) → is_wild c ≡ false → is_star c ≡ false
not_star c h = ground arith

abbrev Starred : Bytes → Bytes → Type 0
Starred p n = (k : Bytes) × Suffix k n × Globs is_wild p k

-- Collapsing wildcards changes nothing; behind a `*` those that follow are dropped.
pub collapse_to :
    (p : Bytes)
    → ((n : Bytes) → Globs is_wild p n → Globs is_star (collapse false p) n)
      × ((n : Bytes) → Starred p n → Globs is_star (b'*' ∷ collapse true p) n)
unfolding collapse
collapse_to [] = (
  (λ n g. subst (Globs is_star []) (sym (split is_wild g)) finish),
  (λ n (k, s, g). run b'*' [] k n refl s (subst (Globs is_star []) (sym (split is_wild g)) finish)),
)
collapse_to (c ∷ p) = elim (Bool-cases (is_wild c)) [
  | inl wild ↦
      rw (wild, collapse)
        (
          (λ n g. (collapse_to p).1 n (wild_split c p n wild g)),
          (λ n (k, s, g).
              let (l, t, g') = wild_split c p k wild g in
              (collapse_to p).1 n (l, Suffix-trans t s, g')),
        )
  | inr plain ↦
      rw (plain, collapse)
        (
          (λ n g. plain_to c p n plain (collapse_to p).0 g),
          (λ n (k, s, g). run b'*' _ k n refl s (plain_to c p k plain (collapse_to p).0 g)),
        )
]
  where
    wild_split : (c : ℕ) (p n : Bytes) → is_wild c ≡ true → Globs is_wild (c ∷ p) n → Starred p n
    wild_split c p n w g = elim (split is_wild g) [
      | inl (o, m, e, g') ↦ absurd (ground (arith, o, w))
      | inr (o, k, s, g') ↦ (k, s, g')
    ]

    plain_to :
        (c : ℕ) (p n : Bytes)
        → is_wild c ≡ false
        → ((m : Bytes) → Globs is_wild p m → Globs is_star (collapse false p) m)
        → Globs is_wild (c ∷ p) n
        → Globs is_star (c ∷ collapse false p) n
    plain_to c p n h to g = elim (split is_wild g) [
      | inl (o, m, e, g') ↦ subst (Globs is_star _) (sym e) (literal c _ m (not_star c h) (to m g'))
      | inr (o, k, s, g') ↦ absurd (ground (arith, o, h))
    ]

pub collapse_from :
    (p : Bytes)
    → ((n : Bytes) → Globs is_star (collapse false p) n → Globs is_wild p n)
      × ((n : Bytes) → Globs is_star (b'*' ∷ collapse true p) n → Starred p n)
unfolding collapse
collapse_from [] = (
  (λ n g. subst (Globs is_wild []) (sym (split is_star g)) finish),
  (λ n g. elim (split is_star g) [
    | inl (o, m, e, g') ↦ absurd (ground (arith, o))
    | inr (o, k, s, g') ↦ (k, s, subst (Globs is_wild []) (sym (split is_star g')) finish)
  ]),
)
collapse_from (c ∷ p) = elim (Bool-cases (is_wild c)) [
  | inl wild ↦
      rw (wild, collapse)
        (
          (λ n g. let (k, s, g') = (collapse_from p).1 n g in run c p k n wild s g'),
          (λ n g. let (k, s, g') = (collapse_from p).1 n g in (n, whole, run c p k n wild s g')),
        )
  | inr plain ↦
      rw (plain, collapse)
        (
          (λ n g. plain_from c p n plain (collapse_from p).0 g),
          (λ n g. elim (split is_star g) [
            | inl (o, m, e, g') ↦ absurd (ground (arith, o))
            | inr (o, k, s, g') ↦ (k, s, plain_from c p k plain (collapse_from p).0 g')
          ]),
        )
]
  where
    plain_from :
        (c : ℕ) (p n : Bytes)
        → is_wild c ≡ false
        → ((m : Bytes) → Globs is_star (collapse false p) m → Globs is_wild p m)
        → Globs is_star (c ∷ collapse false p) n
        → Globs is_wild (c ∷ p) n
    plain_from c p n h from g = elim (split is_star g) [
      | inl (o, m, e, g') ↦ subst (Globs is_wild _) (sym e) (literal c p m h (from m g'))
      | inr (o, k, s, g') ↦ absurd (ground (arith, o, h))
    ]
