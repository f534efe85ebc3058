-- ===== src/Parser/Print.antt =====
-- imapgw/parser.py: what a client prints, and the readers of one atom and of one quoted string.
use imap_work_trial.Base.{
  ℕ, zero, suc, ◌+◌, ◌-◌, ◌<◌, ◌≡◌, ◌≢◌, refl, ap, ◌∙◌, ◌==◌, nat_eq, ltb, Bool, true, not, ◌&&◌,
  ◌||◌, Bytes, length, length-append, take, Bool-cases, inl, inr, List, [], ◌∷◌, ◌++◌, arith,
  if◌then◌else◌,
}
use imap_work_trial.Parser.Tokens.{
  Token, Tokens, atom, quoted_str, literal_str, list_tok, nil, cons, ok, ◌>>=◌,
}
use imap_work_trial.Parser.Lexer.{
  backslash, quote, is_control, is_atom_stop, read_quoted, skip_atom, read_atom, Piece, line_piece,
  literal_piece,
}
use imap_work_trial.Parser.Frames.{all_bytes}

-- A byte that an atom may hold outside brackets.
abbrev pub is_plain : ℕ → Bool
is_plain c = not (is_control c) && ltb c 0x80 && not (is_atom_stop c) && not (c == b'[')

-- A byte that a quoted string may hold, escaped or not.
abbrev pub is_quotable : ℕ → Bool
is_quotable c = not (is_control c) && ltb c 0x80

abbrev pub escape_byte : ℕ → Bytes
escape_byte c = if c == quote || c == backslash then backslash ∷ c ∷ [] else c ∷ []

unfoldable pub escape : Bytes → Bytes
escape [] = []
escape (c ∷ s) = escape_byte c ++ escape s

read_quoted_plain :
    (c : ℕ) (xs : Bytes)
    → length xs ≢ 0
    → (is_quotable c && not (c == quote || c == backslash)) ≡ true
    → read_quoted (c ∷ xs) ≡ (read_quoted xs >>= λ r. ok (c ∷ r.0, r.1))
unfolding read_quoted
read_quoted_plain c [] n h = absurd (ground arith)
read_quoted_plain c (d ∷ xs) n h = ground arith

read_quoted_escaped :
    (c : ℕ) (xs : Bytes)
    → (c == quote || c == backslash) ≡ true
    → read_quoted (backslash ∷ c ∷ xs) ≡ (read_quoted xs >>= λ r. ok (c ∷ r.0, r.1))
unfolding read_quoted
read_quoted_escaped c xs h = ground arith

read_quoted_end : (rest : Bytes) → read_quoted (quote ∷ rest) ≡ ok ([], rest)
unfolding read_quoted
read_quoted_end [] = refl
read_quoted_end (d ∷ rest) = refl

not_empty : (xs : Bytes) (c : ℕ) (ys : Bytes) → length (xs ++ c ∷ ys) ≢ 0
not_empty xs c ys = omega (arith, length-append xs (c ∷ ys))

-- A quoted string is read back, whatever follows it.
pub read_quoted-escape :
    (value rest : Bytes)
    → all_bytes is_quotable value ≡ true
    → read_quoted (escape value ++ quote ∷ rest) ≡ ok (value, rest)
unfolding escape
read_quoted-escape [] rest h = read_quoted_end rest
read_quoted-escape (c ∷ value) rest h =
    let ih = read_quoted-escape value rest (ground arith) in
    let xs = escape value ++ quote ∷ rest in
    elim (Bool-cases (c == quote || c == backslash)) [
      | inl special ↦ rw (special) (read_quoted_escaped c xs special ∙ rw ih)
      | inr plain ↦
          rw (plain)
            (read_quoted_plain c xs (not_empty (escape value) quote rest) (ground arith) ∙ rw ih)
    ]

-- What an atom ends before: the end of the line, or a byte that stops it.
abbrev pub Stops : Bytes → Type 0
Stops [] = Unit
Stops (c ∷ rest) = is_atom_stop c ≡ true

skip_atom-Stops : (f : ℕ) (rest : Bytes) → Stops rest → skip_atom (suc f) rest ≡ ok rest
unfolding skip_atom
skip_atom-Stops f [] h = refl
skip_atom-Stops f (c ∷ rest) h = ground arith

skip_atom-plain :
    (f : ℕ) (value rest : Bytes)
    → length value < f
    → all_bytes is_plain value ≡ true
    → Stops rest
    → skip_atom f (value ++ rest) ≡ ok rest
unfolding skip_atom
skip_atom-plain zero value rest h p s = absurd (omega arith)
skip_atom-plain (suc f) [] rest h p s = skip_atom-Stops f rest s
skip_atom-plain (suc f) (c ∷ value) rest h p s = ground (arith, skip_atom-plain f value rest)

take-append_self : (xs ys : Bytes) → take (length xs) (xs ++ ys) ≡ xs
take-append_self [] ys = refl
take-append_self (x ∷ xs) ys = ap (◌∷◌ x) (take-append_self xs ys)

pub read_atom-plain :
    (c : ℕ) (value rest : Bytes)
    → all_bytes is_plain (c ∷ value) ≡ true
    → Stops rest
    → read_atom ((c ∷ value) ++ rest) ≡ ok (c ∷ value, rest)
unfolding read_atom
read_atom-plain c value rest h s =
    let word = c ∷ value in
    let line = word ++ rest in
    let len : length line ≡ length word + length rest = length-append word rest in
    let skips : skip_atom (suc (length line)) line ≡ ok rest =
      skip_atom-plain (suc (length line)) word rest (omega arith) h s in
    let cut : length line - length rest ≡ length word = omega arith in
    rw skips (ground (arith, cut, take-append_self word rest))

abbrev mutual
  -- A token that a client can write as it likes: atoms of plain bytes, without brackets, quoted
  -- strings without control characters, literals of any bytes, and lists.
  pub Printable : Token → Type 0
  Printable (atom []) = ⊥
  Printable (atom (c ∷ value)) = all_bytes is_plain (c ∷ value) ≡ true
  Printable (quoted_str value) = all_bytes is_quotable value ≡ true
  Printable (literal_str value) = Unit
  Printable (list_tok items) = AllPrintable items

  pub AllPrintable : Tokens → Type 0
  AllPrintable nil = Unit
  AllPrintable (cons t ts) = Printable t × AllPrintable ts

-- The rest of a line without its literal's `{n}`, and the pieces behind it.
abbrev pub Text : Type 0
Text = Bytes × List Piece

abbrev pub pieces_of : Text → List Piece
pieces_of text = line_piece text.0 ∷ text.1

abbrev mutual
  -- A token before a text; a literal ends its line.
  pub print : Token → Text → Text
  print (atom value) text = (value ++ text.0, text.1)
  print (quoted_str value) text = (quote ∷ escape value ++ quote ∷ text.0, text.1)
  print (literal_str value) text = ([], literal_piece value ∷ pieces_of text)
  print (list_tok items) text = (
    b'(' ∷ (print_all items (b')' ∷ text.0, text.1)).0,
    (print_all items (b')' ∷ text.0, text.1)).1,
  )

  -- Tokens with a space between them, and none behind the last.
  pub print_all : Tokens → Text → Text
  print_all nil text = text
  print_all (cons t ts) text = print t (print_rest ts text)

  -- Tokens with a space before each.
  pub print_rest : Tokens → Text → Text
  print_rest nil text = text
  print_rest (cons t ts) text =
      (0x20 ∷ (print t (print_rest ts text)).0, (print t (print_rest ts text)).1)
