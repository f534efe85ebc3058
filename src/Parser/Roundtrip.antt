-- ===== src/Parser/Roundtrip.antt =====
-- imapgw/parser.py: the tokenizer reads back what a client prints.
use imap_work_trial.Base.{
  ℕ, suc, ◌<◌, ◌≡◌, refl, ap, ◌∙◌, true, false, any, upper, Bytes, length, length-append, List, [],
  ◌∷◌, ◌++◌, arith,
}
use imap_work_trial.Parser.Tokens.{
  Token, Tokens, atom, quoted_str, literal_str, list_tok, nil, cons, add_last, join, ok, ◌>>=◌,
  command,
}
use imap_work_trial.Parser.Lexer.{
  quote, read_quoted, read_atom, Stack, close_list, append_top, tokenize_line, Piece, line_piece,
  literal_piece, tokenize_piece, tokenize_from, tokenize_pieces, root_of,
}
use imap_work_trial.Parser.Fuel.{tokenize_line-fuel}
use imap_work_trial.Parser.Frames.{Pending, all_bytes, build_command, command_of, is_tag_wildcard}
use imap_work_trial.Parser.Print.{
  is_plain, is_quotable, escape, read_quoted-escape, read_atom-plain, Stops, Printable,
  AllPrintable, Text, pieces_of, print, print_all, print_rest,
}

append-add_last :
    (top : Tokens) (t : Token) (ts : Tokens) → join (add_last top t) ts ≡ join top (cons t ts)
unfolding add_last
append-add_last nil t ts = refl
append-add_last (cons u us) t ts = ap (cons u) (append-add_last us t ts)

join-nil : (top : Tokens) → join top nil ≡ top
join-nil nil = refl
join-nil (cons u us) = ap (cons u) (join-nil us)

-- With the fuel of a line, or with more.
resume :
    (f : ℕ) (line : Bytes) (later : List Piece) (stack : Stack)
    → length line < f
    → (tokenize_line f line stack >>= tokenize_from later)
      ≡ tokenize_from (line_piece line ∷ later) stack
unfolding tokenize_from tokenize_piece
resume f line later stack h =
    ap (λ r. r >>= tokenize_from later)
      (tokenize_line-fuel f (suc (length line)) line stack h (omega arith))

-- What a round does at the first byte of an atom and of a quoted string.
module _ (f : ℕ) (xs ys value : Bytes) (st : Stack) where
  at_word :
      (c : ℕ)
      → is_plain c ≡ true
      → read_atom (c ∷ xs) ≡ ok (value, ys)
      → tokenize_line (suc f) (c ∷ xs) st ≡ tokenize_line f ys (append_top st (atom value))
  unfolding tokenize_line
  at_word c p h = ground arith

  at_quote :
      read_quoted xs ≡ ok (value, ys)
      → tokenize_line (suc f) (quote ∷ xs) st
        ≡ tokenize_line f ys (append_top st (quoted_str value))
  unfolding tokenize_line
  at_quote h = ground arith

module _ (line : Bytes) (later : List Piece) (top : Tokens) (below : List Tokens) where
  read_word :
      (c : ℕ) (value : Bytes)
      → all_bytes is_plain (c ∷ value) ≡ true
      → Stops line
      → tokenize_from (line_piece ((c ∷ value) ++ line) ∷ later) (top, below)
        ≡ tokenize_from (line_piece line ∷ later) (add_last top (atom (c ∷ value)), below)
  unfolding tokenize_from tokenize_piece
  read_word c value h s =
      let f = length ((c ∷ value) ++ line) in
      ap (λ r. r >>= tokenize_from later)
        (at_word f (value ++ line) line (c ∷ value) (top, below) c (ground arith)
          (read_atom-plain c value line h s))
      ∙ resume f line later _ (omega (arith, length-append (c ∷ value) line))

  read_string :
      (value : Bytes)
      → all_bytes is_quotable value ≡ true
      → tokenize_from (line_piece (quote ∷ escape value ++ quote ∷ line) ∷ later) (top, below)
        ≡ tokenize_from (line_piece line ∷ later) (add_last top (quoted_str value), below)
  unfolding tokenize_from tokenize_piece
  read_string value h =
      let xs = escape value ++ quote ∷ line in
      ap (λ r. r >>= tokenize_from later)
        (at_quote (length (quote ∷ xs)) xs line value (top, below)
          (read_quoted-escape value line h))
      ∙ resume (length (quote ∷ xs)) line later _
          (omega (arith, length-append (escape value) (quote ∷ line)))

  read_literal :
      (value : Bytes)
      → tokenize_from (line_piece [] ∷ literal_piece value ∷ line_piece line ∷ later) (top, below)
        ≡ tokenize_from (line_piece line ∷ later) (add_last top (literal_str value), below)
  unfolding tokenize_from tokenize_piece tokenize_line
  read_literal value = refl

  read_space :
      tokenize_from (line_piece (0x20 ∷ line) ∷ later) (top, below)
      ≡ tokenize_from (line_piece line ∷ later) (top, below)
  unfolding tokenize_from tokenize_piece tokenize_line
  read_space = refl

  read_open :
      tokenize_from (line_piece (b'(' ∷ line) ∷ later) (top, below)
      ≡ tokenize_from (line_piece line ∷ later) (nil, top ∷ below)
  unfolding tokenize_from tokenize_piece tokenize_line
  read_open = refl

  read_close :
      (items : Tokens)
      → tokenize_from (line_piece (b')' ∷ line) ∷ later) (items, top ∷ below)
        ≡ tokenize_from (line_piece line ∷ later) (add_last top (list_tok items), below)
  unfolding tokenize_from tokenize_piece tokenize_line close_list
  read_close items = refl

print_rest-Stops : (ts : Tokens) (text : Text) → Stops text.0 → Stops (print_rest ts text).0
print_rest-Stops nil text s = s
print_rest-Stops (cons t ts) text s = refl

mutual
  read-print :
      (t : Token) (text : Text) (top : Tokens) (below : List Tokens)
      → Printable t
      → Stops text.0
      → tokenize_from (pieces_of (print t text)) (top, below)
        ≡ tokenize_from (pieces_of text) (add_last top t, below)
  read-print (atom []) text top below h s = absurd h
  read-print (atom (c ∷ value)) text top below h s = read_word text.0 text.1 top below c value h s
  read-print (quoted_str value) text top below h s = read_string text.0 text.1 top below value h
  read-print (literal_str value) text top below h s = read_literal text.0 text.1 top below value
  read-print (list_tok items) text top below h s =
      let inside : Text = (b')' ∷ text.0, text.1) in
      read_open (print_all items inside).0 (print_all items inside).1 top below
      ∙ (read-print_all items inside nil (top ∷ below) h refl
          ∙ read_close text.0 text.1 top below items)

  read-print_all :
      (ts : Tokens) (text : Text) (top : Tokens) (below : List Tokens)
      → AllPrintable ts
      → Stops text.0
      → tokenize_from (pieces_of (print_all ts text)) (top, below)
        ≡ tokenize_from (pieces_of text) (join top ts, below)
  read-print_all nil text top below h s = rw join-nil refl
  read-print_all (cons t ts) text top below h s =
      read-print t (print_rest ts text) top below h.0 (print_rest-Stops ts text s)
      ∙ (read-print_rest ts text (add_last top t) below h.1 s ∙ rw append-add_last refl)

  read-print_rest :
      (ts : Tokens) (text : Text) (top : Tokens) (below : List Tokens)
      → AllPrintable ts
      → Stops text.0
      → tokenize_from (pieces_of (print_rest ts text)) (top, below)
        ≡ tokenize_from (pieces_of text) (join top ts, below)
  read-print_rest nil text top below h s = rw join-nil refl
  read-print_rest (cons t ts) text top below h s =
      let inner = print t (print_rest ts text) in
      read_space inner.0 inner.1 top below
      ∙ (read-print t (print_rest ts text) top below h.0 (print_rest-Stops ts text s)
          ∙ (read-print_rest ts text (add_last top t) below h.1 s ∙ rw append-add_last refl))

read_end : (ts : Tokens) → (tokenize_from (line_piece [] ∷ []) (ts, []) >>= root_of) ≡ ok ts
unfolding tokenize_from tokenize_piece tokenize_line
read_end ts = refl

-- The tokens that a client writes, with a space between two of them and none elsewhere, are read
-- back as they were: atoms of plain bytes, quoted strings of ASCII bytes that are no control
-- characters, literals of any bytes, and lists of such, at any depth.
pub tokenize_pieces-print :
    (ts : Tokens) → AllPrintable ts → tokenize_pieces (pieces_of (print_all ts ([], []))) ≡ ok ts
unfolding tokenize_pieces
tokenize_pieces-print ts h =
    ap (λ r. r >>= root_of) (read-print_all ts ([], []) nil [] h tt) ∙ read_end ts

-- A command that a client writes, with a space between two tokens and none elsewhere, quoted strings
-- without control characters and literals of any bytes, is parsed into its tag, its name in upper
-- case and its arguments, if tag, name and atoms are of plain bytes and the tag has no `+` or `*`.
pub build_command-print :
    (tag name : Bytes) (args : Tokens) (q : Pending)
    → AllPrintable (cons (atom tag) (cons (atom name) args))
    → any is_tag_wildcard tag ≡ false
    → q.pieces ≡ pieces_of (print_all (cons (atom tag) (cons (atom name) args)) ([], []))
    → build_command q ≡ command (record { tag = tag; name = upper name; args = args })
unfolding build_command command_of
build_command-print tag name args q h w e =
    rw (e, build_command)
      (rw (tokenize_pieces-print (cons (atom tag) (cons (atom name) args)) h) (ground (arith, w)))
