-- ===== src/Parser/Fuel.antt =====
-- imapgw/parser.py: the readers stop within their fuel, and read at least what they must.
use imap_work_trial.Base.{
  ℕ, zero, suc, ◌+◌, ◌-◌, ◌≤◌, ◌<◌, ◌≡◌, refl, ◌≢◌, nat_eq, Bytes, length, List, [], ◌∷◌, arith,
}
use imap_work_trial.Parser.Tokens.{
  Tokens, nil, atom, quoted_str, Result, ok, err, ◌>>=◌, out_of_fuel,
}
use imap_work_trial.Parser.Lexer.{
  read_quoted, skip_bracket, skip_atom, read_atom, Stack, close_list, append_top, tokenize_line,
  Piece, line_piece, literal_piece, tokenize_from, tokenize_pieces, root_of,
}

-- A value of which `P` holds, or one of the errors that the source raises.
abbrev pub Ends {ℓ} : {A : Type ℓ} → (A → Type 0) → Result A → Type 0
Ends P (ok a) = P a
Ends P (err e) = e ≢ out_of_fuel

Ends-bind {ℓ κ} :
    {A : Type ℓ} {B : Type κ} (Before : A → Type 0) (After : B → Type 0)
    → (first : Result A) (next : A → Result B) → Ends Before first
    → ((result : A) → Before result → Ends After (next result))
    → Ends After (first >>= next)
Ends-bind Before After (err e) next ends later = ends
Ends-bind Before After (ok result) next holds later = later result holds

abbrev LeavesAtMost : ℕ → Bytes × Bytes → Type 0
LeavesAtMost n r = length r.1 ≤ n

read_quoted-Ends :
    (n : ℕ) (line : Bytes) → length line ≤ n → Ends (LeavesAtMost n) (read_quoted line)
unfolding read_quoted
read_quoted-Ends n [] h = λ e. cc
read_quoted-Ends n (c ∷ []) h = ground arith
read_quoted-Ends n (c ∷ d ∷ rest) h =
    ground (arith, read_quoted-Ends n rest, read_quoted-Ends n (d ∷ rest))

skip_bracket-Ends :
    (n f depth : ℕ) (line : Bytes)
    → length line ≤ n
    → length line < f
    → Ends (λ rest. length rest < n) (skip_bracket f depth line)
unfolding skip_bracket
skip_bracket-Ends n zero depth line h k = absurd (omega arith)
skip_bracket-Ends n (suc f) depth [] h k = λ e. cc
skip_bracket-Ends n (suc f) depth (c ∷ rest) h k =
    let quoted : Ends (λ rest. length rest < n)
        (read_quoted rest >>= λ r. skip_bracket f depth r.1) =
      Ends-bind (LeavesAtMost (length rest)) (λ rest. length rest < n) (read_quoted rest)
        (λ r. skip_bracket f depth r.1) (read_quoted-Ends (length rest) rest (omega arith))
        (λ r shorter. skip_bracket-Ends n f depth r.1 (omega arith) (omega arith)) in
    ground (
      arith,
      quoted,
      skip_bracket-Ends n f (depth + 1) rest,
      skip_bracket-Ends n f (depth - 1) rest,
      skip_bracket-Ends n f depth rest,
    )

skip_atom-Ends :
    (n f : ℕ) (line : Bytes)
    → length line ≤ n
    → length line < f
    → Ends (λ rest. length rest ≤ n) (skip_atom f line)
unfolding skip_atom
skip_atom-Ends n zero line h k = absurd (omega arith)
skip_atom-Ends n (suc f) [] h k = omega arith
skip_atom-Ends n (suc f) (c ∷ rest) h k =
    let line = c ∷ rest in
    let section : Ends (λ rest. length rest ≤ n)
        (skip_bracket (suc (length line)) 0 line >>= skip_atom f) =
      Ends-bind (λ end. length end < length line) (λ rest. length rest ≤ n)
        (skip_bracket (suc (length line)) 0 line) (skip_atom f)
        (skip_bracket-Ends (length line) (suc (length line)) 0 line (omega arith) (omega arith))
        (λ end shorter. skip_atom-Ends n f end (omega arith) (omega arith)) in
    ground (arith, section, skip_atom-Ends n f rest)

read_atom-Ends : (line : Bytes) → Ends (λ r. length r.1 < length line) (read_atom line)
unfolding read_atom
read_atom-Ends line =
    Ends-bind (λ rest. length rest ≤ length line) (λ r. length r.1 < length line)
      (skip_atom (suc (length line)) line) _
      (skip_atom-Ends (length line) (suc (length line)) line (omega arith) (omega arith))
      (λ rest shorter. ground arith)

close_list-Ends : (stack : Stack) → Ends (λ _. Unit) (close_list stack)
unfolding close_list
close_list-Ends (top, []) = λ e. cc
close_list-Ends (top, next ∷ below) = tt

tokenize_line-Ends :
    (f : ℕ) (line : Bytes) (stack : Stack)
    → length line < f
    → Ends (λ _. Unit) (tokenize_line f line stack)
unfolding tokenize_line
tokenize_line-Ends zero line stack h = absurd (omega arith)
tokenize_line-Ends (suc f) [] stack h = tt
tokenize_line-Ends (suc f) (c ∷ rest) stack h =
    let closed : Ends (λ _. Unit) (close_list stack >>= tokenize_line f rest) =
      Ends-bind (λ _. Unit) (λ _. Unit) (close_list stack) (tokenize_line f rest)
        (close_list-Ends stack) (λ stack' _. tokenize_line-Ends f rest stack' (omega arith)) in
    let quoted =
      Ends-bind (LeavesAtMost (length rest)) (λ _. Unit) (read_quoted rest)
        (λ r. tokenize_line f r.1 (append_top stack (quoted_str r.0)))
        (read_quoted-Ends (length rest) rest (omega arith))
        (λ r shorter. tokenize_line-Ends f r.1 _ (omega arith)) in
    let word =
      Ends-bind (λ r. length r.1 < length (c ∷ rest)) (λ _. Unit) (read_atom (c ∷ rest))
        (λ r. tokenize_line f r.1 (append_top stack (atom r.0))) (read_atom-Ends (c ∷ rest))
        (λ r shorter. tokenize_line-Ends f r.1 _ (omega arith)) in
    ground (
      arith,
      closed,
      quoted,
      word,
      tokenize_line-Ends f rest stack,
      tokenize_line-Ends f rest (nil, stack.0 ∷ stack.1),
    )

bind-same {ℓ κ} :
    {A : Type ℓ} {B : Type κ} (Before : A → Type 0) (first : Result A) (next next' : A → Result B)
    → Ends Before first
    → ((result : A) → Before result → next result ≡ next' result)
    → (first >>= next) ≡ (first >>= next')
bind-same Before (err e) next next' ends same = refl
bind-same Before (ok result) next next' holds same = same result holds

-- More fuel than there are bytes changes nothing.
pub tokenize_line-fuel :
    (f g : ℕ) (line : Bytes) (stack : Stack)
    → length line < f
    → length line < g
    → tokenize_line f line stack ≡ tokenize_line g line stack
unfolding tokenize_line
tokenize_line-fuel zero g line stack h k = absurd (omega arith)
tokenize_line-fuel (suc f) zero line stack h k = absurd (omega arith)
tokenize_line-fuel (suc f) (suc g) [] stack h k = refl
tokenize_line-fuel (suc f) (suc g) (c ∷ rest) stack h k =
    let closed =
      bind-same (λ _. Unit) (close_list stack) (tokenize_line f rest) (tokenize_line g rest)
        (close_list-Ends stack)
        (λ stack' _. tokenize_line-fuel f g rest stack' (omega arith) (omega arith)) in
    let quoted =
      bind-same (LeavesAtMost (length rest)) (read_quoted rest)
        (λ r. tokenize_line f r.1 (append_top stack (quoted_str r.0)))
        (λ r. tokenize_line g r.1 (append_top stack (quoted_str r.0)))
        (read_quoted-Ends (length rest) rest (omega arith))
        (λ r shorter. tokenize_line-fuel f g r.1 _ (omega arith) (omega arith)) in
    let word =
      bind-same (λ r. length r.1 < length (c ∷ rest)) (read_atom (c ∷ rest))
        (λ r. tokenize_line f r.1 (append_top stack (atom r.0)))
        (λ r. tokenize_line g r.1 (append_top stack (atom r.0))) (read_atom-Ends (c ∷ rest))
        (λ r shorter. tokenize_line-fuel f g r.1 _ (omega arith) (omega arith)) in
    ground (
      arith,
      closed,
      quoted,
      word,
      tokenize_line-fuel f g rest stack,
      tokenize_line-fuel f g rest (nil, stack.0 ∷ stack.1),
    )

tokenize_from-Ends :
    (pieces : List Piece) (stack : Stack) → Ends (λ _. Unit) (tokenize_from pieces stack)
unfolding tokenize_from
tokenize_from-Ends [] stack = tt
tokenize_from-Ends (line_piece line ∷ pieces) stack =
    Ends-bind (λ _. Unit) (λ _. Unit) (tokenize_line (suc (length line)) line stack)
      (tokenize_from pieces) (tokenize_line-Ends (suc (length line)) line stack (omega arith))
      (λ stack' _. tokenize_from-Ends pieces stack')
tokenize_from-Ends (literal_piece content ∷ pieces) stack = tokenize_from-Ends pieces _

-- The tokenizer ends with tokens or with an error of the source, never for lack of fuel.
pub tokenize_pieces_ends : (pieces : List Piece) → tokenize_pieces pieces ≢ err out_of_fuel
unfolding tokenize_pieces
tokenize_pieces_ends pieces = no_fuel_error (tokenize_pieces pieces) (
    Ends-bind (λ _. Unit) (λ _. Unit) (tokenize_from pieces (nil, [])) root_of
      (tokenize_from-Ends pieces (nil, [])) root)
  where
    root : (stack : Stack) → Unit {0} → Ends (λ _. Unit) (root_of stack)
    root (top, []) u = tt
    root (top, next ∷ below) u = λ e. cc

    no_fuel_error : (r : Result Tokens) → Ends (λ _. Unit) r → r ≢ err out_of_fuel
    no_fuel_error (ok ts) h = λ e. cc
    no_fuel_error (err e) h = λ q. h (ground arith)
