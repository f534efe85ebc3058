-- ===== src/Parser/Frames.antt =====
-- imapgw/parser.py, from the bytes of the connection to commands: `CommandParser`.
use imap_work_trial.Base.{
  ℕ, zero, suc, ◌+◌, ◌-◌, ◌*◌, ◌==◌, nat_eq, list_eq, leb, ltb, Bool, true, false, ◌&&◌, ◌||◌,
  Bytes, upper, is_digit, length, take, drop, any, contains, if◌then◌else◌, Option, none, some,
  List, [], ◌∷◌, ◌++◌,
}
use mathlib.Core.Option
use imap_work_trial.Parser.Tokens.{
  Tokens, atom, nil, cons, Event, command, continuation_request, parse_error, tokenize,
  empty_command, missing_command, not_atoms, invalid_tag, nul_byte, literal_too_large,
  command_too_large, line_too_long, Limits, ok, err,
}
use imap_work_trial.Parser.Lexer.{Piece, line_piece, literal_piece, tokenize_pieces}

-- `_Pending`
pub record Pending : Type 0 where
  pub tag : Option Bytes
  pub pieces : List Piece
  pub total_bytes : ℕ
  pub literal_count : ℕ

pub record CommandParser : Type 0 where
  pub limits : Limits
  pub buf : Bytes
  pub pending : Option Pending
  pub awaiting_literal : Option ℕ

unfoldable pub init : Limits → CommandParser
init limits = record { limits = limits; buf = []; pending = none; awaiting_literal = none }

unfoldable pub feed : CommandParser → Bytes → CommandParser
feed p content = record p { buf = p.buf ++ content }

unfoldable pub in_progress : CommandParser → Bool
in_progress p = not_empty p.buf || is_some p.pending || is_some p.awaiting_literal
  where
    not_empty : Bytes → Bool
    not_empty [] = false
    not_empty (_ ∷ _) = true

    is_some : {A : Type 0} → Option A → Bool
    is_some none = false
    is_some (some _) = true

unfoldable pub reset : CommandParser → CommandParser
reset p = record p { buf = []; pending = none; awaiting_literal = none }

-- The bytes before the first `b"\n"`, and those behind it.
unfoldable pub split_line : Bytes → Option (Bytes × Bytes)
split_line [] = none
split_line (c ∷ rest) =
    let later = Option.map (λ (r : Bytes × Bytes). (c ∷ r.0, r.1)) (split_line rest) in
    if c == 10 then some ([], rest) else later

-- `line[:-1]` if `line.endswith(b"\r")`
unfoldable pub drop_cr : Bytes → Bytes
drop_cr [] = []
drop_cr (c ∷ []) = if c == 13 then [] else c ∷ []
drop_cr (c ∷ d ∷ rest) = c ∷ drop_cr (d ∷ rest)

-- `line.split(b" ", 1)[0]`
unfoldable pub head_word : Bytes → Bytes
head_word [] = []
head_word (c ∷ rest) = let word = c ∷ head_word rest in if c == 0x20 then [] else word

-- `[\x21-\x7e]`
abbrev pub is_tag_byte : ℕ → Bool
is_tag_byte c = leb 0x21 c && leb c 0x7e

abbrev pub all_bytes : (ℕ → Bool) → Bytes → Bool
all_bytes p [] = true
all_bytes p (c ∷ rest) = p c && all_bytes p rest

-- `_extract_tag`, with `_TAG_RE`
unfoldable pub extract_tag : Bytes → Option Bytes
unfolding head_word
extract_tag line =
    let head = head_word line in
    if leb 1 (length head) && leb (length head) 64 && all_bytes is_tag_byte head
    then some head
    else none

-- `\d{1,12}\}$` of `_LITERAL_TAIL`, with the digits that may still come and the number so far
unfoldable pub closing : ℕ → ℕ → Bytes → Option ℕ
closing room n [] = none
closing zero n (c ∷ rest) = if c == b'}' && rest == [] then some n else none
closing (suc room) n (c ∷ rest) =
    let more = closing room (n * 10 + (c - b'0')) rest in
    if is_digit c then more else (if c == b'}' && rest == [] then some n else none)

abbrev pub starts_with_digit : Bytes → Bool
starts_with_digit [] = false
starts_with_digit (c ∷ _) = is_digit c

-- `_LITERAL_TAIL.search`: the line before the `{`, and the number. `here` says that a match may
-- start at this place: at the start of the line, or behind a space or an opening parenthesis.
unfoldable pub literal_tail : Bool → Bytes → Option (Bytes × ℕ)
unfolding closing is_digit
literal_tail here [] = none
literal_tail here (c ∷ rest) =
    let later =
      Option.map (λ (r : Bytes × ℕ). (c ∷ r.0, r.1)) (literal_tail (c == 0x20 || c == b'(') rest) in
    let matched = if starts_with_digit rest then closing 12 0 rest else none in
    if here && c == b'{' then elim matched [ none ↦ later | some n ↦ some ([], n) ] else later

-- `"+*"`
abbrev pub is_tag_wildcard : ℕ → Bool
is_tag_wildcard c = c == b'+' || c == b'*'

-- The tests of `_build_command` behind the tokenizer.
unfoldable pub command_of : Option Bytes → Tokens → Event
command_of tag nil = parse_error none empty_command false
command_of tag (cons t nil) = parse_error tag missing_command false
command_of tag (cons (atom t) (cons (atom name) args)) =
    if any is_tag_wildcard t
    then parse_error none invalid_tag false
    else command (record { tag = t; name = upper name; args = args })
command_of tag (cons t (cons name args)) = parse_error tag not_atoms false

-- `_build_command`
unfoldable pub build_command : Pending → Event
unfolding tokenize_pieces command_of
build_command pending = elim (tokenize_pieces pending.pieces) [
  | err e ↦ parse_error pending.tag (tokenize e) false
  | ok tokens ↦ command_of pending.tag tokens
]

-- The command that a line goes on with, or a new one.
unfoldable pub current : CommandParser → Bytes → Pending
unfolding extract_tag
current p line = elim p.pending [
  | some pending ↦ pending
  | none ↦ record { tag = extract_tag line; pieces = []; total_bytes = 0; literal_count = 0 }
]

-- What a line that announces a literal of `n` bytes does; `start` is the line before the `{`.
unfoldable pub announce : CommandParser → Pending → Bytes → ℕ → Event × CommandParser
announce p pending start n =
    if ltb p.limits.max_literal n
    then (parse_error pending.tag literal_too_large false, record p { pending = none })
    else let count = pending.literal_count + 1 in
      let total = pending.total_bytes + n in
      if ltb p.limits.max_literals count || ltb p.limits.max_command_bytes total
      then (parse_error pending.tag command_too_large false, record p { pending = none })
      else (
        continuation_request n,
        record p {
          pending = some (record {
            tag = pending.tag;
            pieces = pending.pieces ++ line_piece start ∷ [];
            total_bytes = total;
            literal_count = count;
          });
          awaiting_literal = some n;
        },
      )

-- What a line that ends the command does.
unfoldable pub finish : CommandParser → Pending → Bytes → Event × CommandParser
finish p pending line =
    if ltb p.limits.max_command_bytes pending.total_bytes
    then (parse_error pending.tag command_too_large false, record p { pending = none })
    else (
      build_command (record pending { pieces = pending.pieces ++ line_piece line ∷ [] }),
      record p { pending = none },
    )

-- `_consume_line`: each line yields one event
unfoldable pub consume_line : CommandParser → Bytes → Event × CommandParser
consume_line p line =
    let opened = current p line in
    let pending = record opened { total_bytes = opened.total_bytes + length line + 2 } in
    if contains line 0
    then (parse_error opened.tag nul_byte false, record p { pending = none })
    else elim (literal_tail true line) [
      | some (start, n) ↦ announce p pending start n
      | none ↦ finish p pending line
    ]

-- A literal that has arrived becomes a piece. (`_pending` is never None here: Parser.Bounds.)
unfoldable pub take_literal : CommandParser → ℕ → CommandParser
take_literal p n = record p {
  buf = drop n p.buf;
  awaiting_literal = none;
  pending =
      Option.map
        (λ (q : Pending). record q { pieces = q.pieces ++ literal_piece (take n p.buf) ∷ [] })
        p.pending;
}

-- One round of the loop of `events`: it waits for more bytes, goes on with the events that it
-- yields, or returns behind a fatal error.
pub data Round : Type 0 where
  wait : CommandParser → Round
  next : List Event → CommandParser → Round
  halt : Event → CommandParser → Round

abbrev pub too_long : Event
too_long = parse_error none line_too_long true

unfoldable pub round_line : CommandParser → Round
round_line p = elim (split_line p.buf) [
  | none ↦
      if ltb p.limits.max_line (length p.buf)
      then halt too_long (record p { buf = []; pending = none })
      else wait p
  | some (raw, rest) ↦
      let p' = record p { buf = rest } in
      let line = drop_cr raw in
      if ltb p.limits.max_line (length line)
      then halt too_long (record p' { pending = none })
      else let (event, p'') = consume_line p' line in next (event ∷ []) p''
]

unfoldable pub round : CommandParser → Round
round p = elim p.awaiting_literal [
  | some n ↦ if ltb (length p.buf) n then wait p else next [] (take_literal p n)
  | none ↦ round_line p
]

-- How a run of `events` ended: for want of bytes, or behind a fatal error.
pub data End : Type 0 where
  drained halted : End

pub record Run : Type 0 where
  pub emitted : List Event
  pub left : CommandParser
  pub end : End

-- `events`, on fuel
unfoldable pub events : ℕ → CommandParser → Option Run
events zero p = none
events (suc f) p = elim (round p) [
  | wait p' ↦ some (record { emitted = []; left = p'; end = End.drained })
  | halt e p' ↦ some (record { emitted = e ∷ []; left = p'; end = End.halted })
  | next es p' ↦ elim (events f p') [
    | none ↦ none
    | some r ↦ some (record r { emitted = es ++ r.emitted })
  ]
]
