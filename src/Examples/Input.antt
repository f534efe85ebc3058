-- ===== src/Examples/Input.antt =====
-- Runs of the model of imapgw/parser.py at concrete inputs.
use imap_work_trial.Base.{
  ◌≡◌, refl, nat_eq, list_eq, Bytes, codes, All, upper, ◌≢◌, ◌++◌, none, some, [], ◌∷◌,
}
use imap_work_trial.Parser.Tokens.{
  Tokens, atom, quoted_str, literal_str, list_tok, nil, cons, add_last, ok, err, unbalanced,
  out_of_fuel, command, Limits, default_limits,
}
use imap_work_trial.Parser.Lexer.{
  line_piece, tokenize_pieces, tokenize_from, tokenize_piece, tokenize_line, read_quoted, read_atom,
  skip_atom, skip_bracket, close_list,
}
use imap_work_trial.Parser.Fuel.{tokenize_pieces_ends}
use imap_work_trial.Parser.Frames.{
  CommandParser, Pending, feed, build_command, consume_line, too_long, round, round_line,
  split_line, next, halt, End, Run, events,
}
use imap_work_trial.Parser.Chunks.{drain, drain_total, drain-feed}
use imap_work_trial.Parser.Bounds.{IsBounded, Modest, Waits, drain_bounds}
use imap_work_trial.Parser.Print.{pieces_of, print_all}
use imap_work_trial.Parser.Roundtrip.{build_command-print}
use imap_work_trial.Parser.Cut.{between, round-cut}

-- The tokenizer on `(A "b c") D`, and on a closing parenthesis too many.
tokenize_lem :
    (tokenize_pieces (line_piece (codes "(A \"b c\") D") ∷ [])
      ≡ ok (
          cons
            (list_tok (cons (atom (codes "A")) (cons (quoted_str (codes "b c")) nil)))
            (cons (atom (codes "D")) nil)))
    × (tokenize_pieces (line_piece (codes "A)") ∷ []) ≡ err unbalanced)
unfolding tokenize_pieces tokenize_from tokenize_piece tokenize_line read_quoted read_atom skip_atom
    skip_bracket close_list add_last
tokenize_lem = (refl, refl)

tokenize_pieces_ends_example : tokenize_pieces (line_piece (codes "a (b") ∷ []) ≢ err out_of_fuel
tokenize_pieces_ends_example = tokenize_pieces_ends (line_piece (codes "a (b") ∷ [])

-- A parser that has read half a literal's line.
abbrev parser : CommandParser
parser = between default_limits none

drain_total_example : (r : Run) × (drain (feed parser (codes "a NOOP")) ≡ some r)
drain_total_example = drain_total (feed parser (codes "a NOOP"))

abbrev waiting : CommandParser
waiting = feed parser (codes "a LOGIN {3}")

-- The rest of the line, the literal and the next line.
abbrev more : Bytes
more = 13 ∷ 10 ∷ codes "bob" ++ 13 ∷ 10 ∷ []

abbrev waiting_run : Run
waiting_run = record { emitted = []; left = waiting; end = End.drained }

waiting_runs : drain waiting ≡ some waiting_run
unfolding drain events round round_line split_line feed
waiting_runs = refl

drain-feed_example :
    drain (feed waiting more)
    ≡ some (record (drain_total (feed waiting more)).0 {
      emitted = waiting_run.emitted ++ (drain_total (feed waiting more)).0.emitted;
    })
drain-feed_example =
    drain-feed waiting more waiting_run (drain_total (feed waiting more)).0 waiting_runs refl
      (drain_total (feed waiting more)).1

drain_bounds_example :
    All (Modest default_limits) waiting_run.emitted
    × IsBounded waiting_run.left
    × (waiting_run.left.limits ≡ default_limits)
    × (waiting_run.end ≡ End.drained
        → Waits default_limits waiting_run.left.awaiting_literal waiting_run.left.buf)
unfolding feed
drain_bounds_example =
    drain_bounds waiting waiting_run (record { small = tt; expected = tt }) waiting_runs

abbrev login : Tokens
login = cons (atom (codes "a1")) (
    cons (atom (codes "login")) (
      cons (quoted_str (codes "a\"b"))
        (cons (list_tok (cons (atom (codes "x")) (cons (literal_str (codes "p w")) nil))) nil)))

abbrev login_pending : Pending
login_pending = record {
  tag = some (codes "a1");
  pieces = pieces_of (print_all login ([], []));
  total_bytes = 30;
  literal_count = 0;
}

build_command-print_example :
    build_command login_pending
    ≡ command (record {
      tag = codes "a1";
      name = upper (codes "login");
      args =
          cons
            (quoted_str (codes "a\"b"))
            (cons (list_tok (cons (atom (codes "x")) (cons (literal_str (codes "p w")) nil))) nil);
    })
build_command-print_example =
    build_command-print (codes "a1") (codes "login")
      (cons (quoted_str (codes "a\"b"))
        (cons (list_tok (cons (atom (codes "x")) (cons (literal_str (codes "p w")) nil))) nil))
      login_pending (refl, (refl, (refl, ((refl, (tt, tt)), tt)))) refl refl

abbrev short_lines : Limits
short_lines = record default_limits { max_line = 6 }

round-cut_example :
    (round (feed (between short_lines none) (codes "a NOOP" ++ 13 ∷ 10 ∷ []))
      ≡ next
          ((consume_line (between short_lines none) (codes "a NOOP")).0 ∷ [])
          (consume_line (between short_lines none) (codes "a NOOP")).1)
    × ((q : CommandParser) × (round (feed (between short_lines none) (codes "a NOOP" ++ 13 ∷ []))
          ≡ halt too_long q))
round-cut_example = round-cut short_lines none (codes "a NOOP") refl refl
