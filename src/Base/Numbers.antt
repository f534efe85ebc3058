-- ===== src/Base/Numbers.antt =====
-- `str` and `int` on natural numbers in ASCII.
use Prim.Native.Nat.{ℕ, zero, suc, ◌+◌, ◌-◌, ◌*◌, ◌/◌, ◌%◌, ◌<◌}
use mathlib.Core.Path.{◌≡◌, refl, ◌∙◌, ap}
use mathlib.Core.Bool.{true}
use mathlib.Core.Logic.{inl, inr}
use mathlib.Core.List.{[], ◌∷◌}
use native.Mathlib.Omega.{arith}
use imap_work_trial.Base.Tests.{ltb, if◌then◌else◌, Bool-cases}
use imap_work_trial.Base.Lists.{all}
use imap_work_trial.Base.Text.{Bytes, is_digit}

-- The digits of `n` before `rest`; `suc n` is fuel enough (`int-decimal`).
unfoldable pub put_digits : ℕ → ℕ → Bytes → Bytes
put_digits zero n rest = rest
put_digits (suc f) n rest =
    let more = put_digits f (n / 10) ((b'0' + n % 10) ∷ rest) in
    if ltb n 10 then (b'0' + n) ∷ rest else more

-- `str(n)`
unfoldable pub decimal : ℕ → Bytes
unfolding put_digits
decimal n = put_digits (suc n) n []

-- `int(text)` on digits, behind a number that is already read
unfoldable pub read_digits : ℕ → Bytes → ℕ
read_digits n [] = n
read_digits n (c ∷ rest) = read_digits (n * 10 + (c - b'0')) rest

read-put :
    (f n : ℕ) (rest : Bytes) → n < f → read_digits 0 (put_digits f n rest) ≡ read_digits n rest
unfolding put_digits read_digits
read-put zero n rest h = absurd (omega arith)
read-put (suc f) n rest h = elim (Bool-cases (ltb n 10)) [
  | inl small ↦ rw small (ap (λ m. read_digits m rest) (omega arith))
  | inr big ↦ rw big (
      read-put f (n / 10) ((b'0' + n % 10) ∷ rest) (ground arith)
      ∙ ap (λ m. read_digits m rest) (ground arith))
]

pub int-decimal : (n : ℕ) → read_digits 0 (decimal n) ≡ n
unfolding decimal read_digits
int-decimal n = read-put (suc n) n [] (omega arith)

digits-put :
    (f n : ℕ) (rest : Bytes)
    → n < f
    → all is_digit rest ≡ true
    → all is_digit (put_digits f n rest) ≡ true
unfolding put_digits is_digit
digits-put zero n rest h d = d
digits-put (suc f) n rest h d = elim (Bool-cases (ltb n 10)) [
  | inl small ↦ rw small (ground arith)
  | inr big ↦ rw big (digits-put f (n / 10) ((b'0' + n % 10) ∷ rest) (ground arith) (ground arith))
]

-- A number is printed with digits only.
pub digits-decimal : (n : ℕ) → all is_digit (decimal n) ≡ true
unfolding decimal
digits-decimal n = digits-put (suc n) n [] (omega arith) refl

nonempty-put :
    (f n : ℕ) (c : ℕ) (rest : Bytes)
    → (d : ℕ) × (more : Bytes) × (put_digits f n (c ∷ rest) ≡ d ∷ more)
unfolding put_digits
nonempty-put zero n c rest = (c, rest, refl)
nonempty-put (suc f) n c rest = elim (Bool-cases (ltb n 10)) [
  | inl small ↦ (b'0' + n, c ∷ rest, rw small refl)
  | inr big ↦
      let (d, more, e) = nonempty-put f (n / 10) (b'0' + n % 10) (c ∷ rest) in (d, more, rw big e)
]

pub decimal-nonempty : (n : ℕ) → (d : ℕ) × (more : Bytes) × (decimal n ≡ d ∷ more)
unfolding decimal put_digits
decimal-nonempty n = elim (Bool-cases (ltb n 10)) [
  | inl small ↦ (b'0' + n, [], rw small refl)
  | inr big ↦ let (d, more, e) = nonempty-put n (n / 10) (b'0' + n % 10) [] in (d, more, rw big e)
]
