-- ===== src/Base/Sort.antt =====
-- Python's `sorted` on numbers.
use Prim.Native.Nat.{ℕ, ◌<◌, ◌+◌}
use mathlib.Core.Path.{◌≡◌, refl}
use mathlib.Core.Bool.{false, ◌||◌}
use mathlib.Core.List.{List, [], ◌∷◌}
use native.Mathlib.Omega.{arith}
use imap_work_trial.Base.Tests.{leb, if◌then◌else◌}
use imap_work_trial.Base.Equality.{nat_eq, ◌==◌, ==_iff}
use imap_work_trial.Base.Lists.{contains, IsDistinct, All, length, All-map}

unfoldable pub insert_sorted : ℕ → List ℕ → List ℕ
insert_sorted a [] = a ∷ []
insert_sorted a (x ∷ xs) = let rest = insert_sorted a xs in if leb a x then a ∷ x ∷ xs else x ∷ rest

unfoldable pub sorted : List ℕ → List ℕ
unfolding insert_sorted
sorted [] = []
sorted (x ∷ xs) = insert_sorted x (sorted xs)

-- In ascending order, without repetitions.
abbrev pub IsAscending : List ℕ → Type 0
IsAscending [] = Unit
IsAscending (x ∷ xs) = All (λ y. x < y) xs × IsAscending xs

contains-insert_sorted :
    (a q : ℕ) (xs : List ℕ) → contains (insert_sorted a xs) q ≡ ((a == q) || contains xs q)
unfolding insert_sorted
contains-insert_sorted a q [] = refl
contains-insert_sorted a q (x ∷ xs) = ground (arith, contains-insert_sorted a q xs)

pub contains-sorted : (q : ℕ) (xs : List ℕ) → contains (sorted xs) q ≡ contains xs q
unfolding sorted
contains-sorted q [] = refl
contains-sorted q (x ∷ xs) =
    ground (arith, contains-sorted q xs, contains-insert_sorted x q (sorted xs))

pub length-sorted : (xs : List ℕ) → length (sorted xs) ≡ length xs
unfolding sorted
length-sorted [] = refl
length-sorted (x ∷ xs) = go x (sorted xs) (length-sorted xs)
  where
    insert : (a : ℕ) (ys : List ℕ) → length (insert_sorted a ys) ≡ length ys + 1
    insert a [] = omega arith
    insert a (y ∷ ys) = ground (arith, insert a ys)

    go :
        (a : ℕ) (ys : List ℕ)
        → length ys ≡ length xs
        → length (insert_sorted a ys) ≡ length (x ∷ xs)
    go a ys e = omega (arith, insert a ys)

All-insert_sorted :
    (b a : ℕ) (xs : List ℕ) → b < a → All (λ y. b < y) xs → All (λ y. b < y) (insert_sorted a xs)
unfolding insert_sorted
All-insert_sorted b a [] h t = (h, tt)
All-insert_sorted b a (x ∷ xs) h t = ground (arith, All-insert_sorted b a xs)

pub All-lt : (a x : ℕ) (xs : List ℕ) → a < x → All (λ y. x < y) xs → All (λ y. a < y) xs
All-lt a x xs h = All-map (λ y. x < y) (λ y. a < y) (λ y k. omega arith) xs

pub insert_sorted-IsAscending :
    (a : ℕ) (xs : List ℕ)
    → contains xs a ≡ false
    → IsAscending xs
    → IsAscending (insert_sorted a xs)
unfolding insert_sorted
insert_sorted-IsAscending a [] n h = (tt, tt)
insert_sorted-IsAscending a (x ∷ xs) n h =
    ground
      (arith, All-insert_sorted x a xs, insert_sorted-IsAscending a xs, ==_iff x a, All-lt a x xs)

pub sorted-IsAscending : (xs : List ℕ) → IsDistinct xs → IsAscending (sorted xs)
unfolding sorted
sorted-IsAscending [] h = tt
sorted-IsAscending (x ∷ xs) h =
    insert_sorted-IsAscending x (sorted xs) (rw contains-sorted h.0) (sorted-IsAscending xs h.1)
