-- ===== src/Base/Dicts.antt =====
-- Python's `dict` as an association list in insertion order.
use mathlib.Core.Path.{◌≡◌, refl}
use mathlib.Core.List.{List, [], ◌∷◌}
use mathlib.Core.Option.{Option, none, some}
use native.Mathlib.Omega.{arith}
use imap_work_trial.Base.Tests.{if◌then◌else◌}
use imap_work_trial.Base.Equality.{Eq, ◌==◌, ==_iff}

abbrev pub Dict {ℓ} : Type ℓ → Type ℓ → Type ℓ
Dict K V = List (K × V)

module _ {ℓ} {K V : Type ℓ} ⦃e : Eq K⦄ where
  -- `d.get(k)`
  unfoldable pub lookup : K → Dict K V → Option V
  lookup k [] = none
  lookup k ((j, v) ∷ d) = if j == k then some v else lookup k d

  -- `d[k] = v`: the value changes in place, a new key goes last
  unfoldable pub insert : K → V → Dict K V → Dict K V
  insert k v [] = (k, v) ∷ []
  insert k v ((j, w) ∷ d) = if j == k then (j, v) ∷ d else (j, w) ∷ insert k v d

  -- `d.pop(k, None)`
  unfoldable pub erase : K → Dict K V → Dict K V
  erase k [] = []
  erase k ((j, v) ∷ d) = let rest = erase k d in if j == k then rest else (j, v) ∷ rest

  pub lookup-insert :
      (k q : K) (v : V) (d : Dict K V)
      → lookup q (insert k v d) ≡ (if k == q then some v else lookup q d)
  unfolding lookup insert
  lookup-insert k q v [] = refl
  lookup-insert k q v ((j, w) ∷ d) =
      ground (arith, ==_iff j k, ==_iff j q, ==_iff k q, lookup-insert k q v d)

  pub lookup-erase :
      (k q : K) (d : Dict K V) → lookup q (erase k d) ≡ (if k == q then none else lookup q d)
  unfolding lookup erase
  lookup-erase k q [] = ground arith
  lookup-erase k q ((j, w) ∷ d) =
      ground (arith, ==_iff j k, ==_iff j q, ==_iff k q, lookup-erase k q d)
