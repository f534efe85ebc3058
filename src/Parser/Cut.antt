-- ===== src/Parser/Cut.antt =====
-- imapgw/parser.py: a line of exactly `max_line` bytes whose CR and LF come in different reads.
use imap_work_trial.Base.{
  ◌≡◌, refl, sym, ap, append_assoc, ◌∙◌, nat_eq, ltb, true, false, contains, length, length-append,
  Bytes, Option, none, some, [], ◌∷◌, ◌++◌, arith,
}
use imap_work_trial.Parser.Tokens.{Limits}
use imap_work_trial.Parser.Frames.{
  CommandParser, Pending, feed, split_line, drop_cr, consume_line, too_long, next, halt, round_line,
  round,
}

split_line-none : (line : Bytes) → contains line 10 ≡ false → split_line line ≡ none
unfolding split_line
split_line-none [] h = refl
split_line-none (c ∷ line) h = ground (arith, split_line-none line)

split_line-some :
    (line rest : Bytes)
    → contains line 10 ≡ false
    → split_line (line ++ 10 ∷ rest) ≡ some (line, rest)
unfolding split_line
split_line-some [] rest h = refl
split_line-some (c ∷ line) rest h = ground (arith, split_line-some line rest)

contains-cr : (line : Bytes) → contains line 10 ≡ false → contains (line ++ 13 ∷ []) 10 ≡ false
contains-cr [] h = refl
contains-cr (c ∷ line) h = ground (arith, contains-cr line)

drop_cr-cr : (line : Bytes) → drop_cr (line ++ 13 ∷ []) ≡ line
unfolding drop_cr
drop_cr-cr [] = refl
drop_cr-cr (c ∷ []) = refl
drop_cr-cr (c ∷ d ∷ line) = ap (◌∷◌ c) (drop_cr-cr (d ∷ line))

-- A parser between lines.
abbrev pub between : Limits → Option Pending → CommandParser
between limits pending = record {
  limits = limits;
  buf = [];
  pending = pending;
  awaiting_literal = none;
}

-- A parser between lines takes a line of exactly `max_line` bytes if its CRLF is there, and halts
-- with the fatal error of a line that is too long if only its CR is there so far.
pub round-cut :
    (limits : Limits) (pending : Option Pending) (line : Bytes)
    → length line ≡ limits.max_line
    → contains line 10 ≡ false
    → (round (feed (between limits pending) (line ++ 13 ∷ 10 ∷ []))
        ≡ next
            ((consume_line (between limits pending) line).0 ∷ [])
            (consume_line (between limits pending) line).1)
      × ((q : CommandParser) × (round (feed (between limits pending) (line ++ 13 ∷ []))
            ≡ halt too_long q))
unfolding round round_line feed
round-cut limits pending line n h = (
  ground (arith, whole, drop_cr-cr line, fits),
  (
    record (between limits pending) { pending = none },
    ground (arith, split_line-none (line ++ 13 ∷ []) (contains-cr line h), long),
  ),
)
  where
    whole : split_line (line ++ 13 ∷ 10 ∷ []) ≡ some (line ++ 13 ∷ [], [])
    whole =
        ap split_line (sym (append_assoc line (13 ∷ []) (10 ∷ [])))
        ∙ split_line-some (line ++ 13 ∷ []) [] (contains-cr line h)

    fits : ltb limits.max_line (length line) ≡ false
    fits = ground arith

    long : ltb limits.max_line (length (line ++ 13 ∷ [])) ≡ true
    long = ground (arith, length-append line (13 ∷ []))
