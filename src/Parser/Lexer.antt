-- ===== src/Parser/Lexer.antt =====
-- imapgw/parser.py, from a command's pieces to its tokens. A position in the line is the rest of the
-- line from there. The readers that jump over quoted strings run on fuel.
use imap_work_trial.Base.{
  ℕ, zero, suc, ◌+◌, ◌-◌, ◌==◌, nat_eq, leb, ltb, Bool, ◌||◌, Bytes, length, take, if◌then◌else◌,
  List, [], ◌∷◌,
}
use imap_work_trial.Parser.Tokens.{
  Token, Tokens, atom, quoted_str, literal_str, list_tok, nil, add_last, Result, ok, err, ◌>>=◌,
  unbalanced, literal_not_last, control_in_command, invalid_escape, control_in_quoted,
  non_ascii_quoted, unterminated_quoted, control_in_atom, non_ascii_atom, expected_atom,
  invalid_in_section, unterminated_section, out_of_fuel,
}

abbrev pub backslash : ℕ
backslash = 92

abbrev pub quote : ℕ
quote = 34

-- `ch < 0x20 or ch == 0x7F`
abbrev pub is_control : ℕ → Bool
is_control c = ltb c 0x20 || c == 0x7f

-- `_read_quoted`, from behind the opening quote: the value, and the rest behind the closing one
unfoldable pub read_quoted : Bytes → Result (Bytes × Bytes)
read_quoted [] = err unterminated_quoted
read_quoted (c ∷ []) =
    if c == backslash
    then err invalid_escape
    else if c == quote
    then ok ([], [])
    else if is_control c
    then err control_in_quoted
    else if leb 0x80 c
    then err non_ascii_quoted
    else err unterminated_quoted
read_quoted (c ∷ d ∷ rest) =
    let escaped : Result (Bytes × Bytes) = (do
      (value, end) ← read_quoted rest
      ok (d ∷ value, end)) in
    let plain : Result (Bytes × Bytes) = (do
      (value, end) ← read_quoted (d ∷ rest)
      ok (c ∷ value, end)) in
    if c == backslash
    then (if d == quote || d == backslash then escaped else err invalid_escape)
    else if c == quote
    then ok ([], d ∷ rest)
    else if is_control c
    then err control_in_quoted
    else if leb 0x80 c
    then err non_ascii_quoted
    else plain

-- `_skip_bracket`, with the depth reached so far: the rest behind the matching `]`
unfoldable pub skip_bracket : ℕ → ℕ → Bytes → Result Bytes
skip_bracket zero depth line = err out_of_fuel
skip_bracket (suc f) depth [] = err unterminated_section
skip_bracket (suc f) depth (c ∷ rest) =
    let quoted : Result Bytes = (do (_, end) ← read_quoted rest; skip_bracket f depth end) in
    let deeper = skip_bracket f (depth + 1) rest in
    let closed = skip_bracket f (depth - 1) rest in
    let onward = skip_bracket f depth rest in
    if c == quote
    then quoted
    else if c == b'['
    then deeper
    else if c == b']'
    then (if depth - 1 == 0 then ok rest else closed)
    else if is_control c || leb 0x80 c
    then err invalid_in_section
    else onward

-- `ch in _ATOM_STOP`
abbrev pub is_atom_stop : ℕ → Bool
is_atom_stop c = c == b'(' || c == b')' || c == b'{' || c == quote || c == 0x20

-- The loop of `_read_atom`: the rest behind the atom.
unfoldable pub skip_atom : ℕ → Bytes → Result Bytes
skip_atom zero line = err out_of_fuel
skip_atom (suc f) [] = ok []
skip_atom (suc f) (c ∷ rest) =
    let section : Result Bytes = (do
      end ← skip_bracket (suc (suc (length rest))) 0 (c ∷ rest)
      skip_atom f end) in
    let onward = skip_atom f rest in
    if c == b'['
    then section
    else if is_atom_stop c
    then ok (c ∷ rest)
    else if is_control c
    then err control_in_atom
    else if leb 0x80 c
    then err non_ascii_atom
    else onward

-- `_read_atom`: the bytes up to the rest, which must not be none
unfoldable pub read_atom : Bytes → Result (Bytes × Bytes)
unfolding skip_atom
read_atom line = do
  rest ← skip_atom (suc (length line)) line
  if length rest == length line
      then err expected_atom
      else ok (take (length line - length rest) line, rest)

-- The stack of lists under construction: the innermost, and the others from the inside out.
abbrev pub Stack : Type 0
Stack = Tokens × List Tokens

-- `stack[-1].append(token)`
abbrev pub append_top : Stack → Token → Stack
append_top (top, below) token = (add_last top token, below)

-- What a closing parenthesis does.
unfoldable pub close_list : Stack → Result Stack
close_list (top, []) = err unbalanced
close_list (top, next ∷ below) = ok (add_last next (list_tok top), below)

-- `_tokenize_line`
unfoldable pub tokenize_line : ℕ → Bytes → Stack → Result Stack
tokenize_line zero line stack = err out_of_fuel
tokenize_line (suc f) [] stack = ok stack
tokenize_line (suc f) (c ∷ rest) stack =
    let blank = tokenize_line f rest stack in
    let opened = tokenize_line f rest (nil, stack.0 ∷ stack.1) in
    let closed : Result Stack = (do stack' ← close_list stack; tokenize_line f rest stack') in
    let quoted : Result Stack = (do
      (value, end) ← read_quoted rest
      tokenize_line f end (append_top stack (quoted_str value))) in
    let word : Result Stack = (do
      (value, end) ← read_atom (c ∷ rest)
      tokenize_line f end (append_top stack (atom value))) in
    if c == 0x20
    then blank
    else if c == b'('
    then opened
    else if c == b')'
    then closed
    else if c == quote
    then quoted
    else if c == b'{'
    then err literal_not_last
    else if is_control c
    then err control_in_command
    else word

-- A segment of a command: the kind of a piece is its constructor.
pub data Piece : Type 0 where
  line_piece : Bytes → Piece
  literal_piece : Bytes → Piece

unfoldable pub tokenize_piece : Piece → Stack → Result Stack
unfolding tokenize_line
tokenize_piece (line_piece line) stack = tokenize_line (suc (length line)) line stack
tokenize_piece (literal_piece content) stack = ok (append_top stack (literal_str content))

unfoldable pub tokenize_from : List Piece → Stack → Result Stack
unfolding tokenize_piece
tokenize_from [] stack = ok stack
tokenize_from (piece ∷ pieces) stack = do
  stack' ← tokenize_piece piece stack
  tokenize_from pieces stack'

-- The test of `_tokenize_pieces` behind its loop.
abbrev pub root_of : Stack → Result Tokens
root_of (root, []) = ok root
root_of (top, _ ∷ _) = err unbalanced

-- `_tokenize_pieces`
unfoldable pub tokenize_pieces : List Piece → Result Tokens
unfolding tokenize_from
tokenize_pieces pieces = do stack ← tokenize_from pieces (nil, []); root_of stack
