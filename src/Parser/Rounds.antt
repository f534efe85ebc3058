-- ===== src/Parser/Rounds.antt =====
-- imapgw/parser.py: one round of the loop of `events`, what it takes and what it leaves.
use imap_work_trial.Base.{
  ℕ, zero, suc, ◌+◌, ◌*◌, ◌≤◌, ◌<◌, ◌≡◌, refl, ap, nat_eq, ltb, false, Bytes, length, take, drop,
  length-drop, length-append, Bool-cases, Option-cases, Option, none, some, List, [], ◌∷◌, ◌++◌,
  arith, inl, inr,
}
use imap_work_trial.Parser.Tokens.{Event}
use imap_work_trial.Parser.Frames.{
  CommandParser, feed, split_line, drop_cr, current, consume_line, announce, finish, take_literal,
  next, round_line, round,
}

-- What bounds the rounds: two for each byte, one for an awaited literal.
abbrev pub awaited : Option ℕ → ℕ
awaited none = 0
awaited (some _) = 1

abbrev pub weight : CommandParser → ℕ
weight p = 2 * length p.buf + awaited p.awaiting_literal

split_line-length :
    (line : Bytes) (raw rest : Bytes)
    → split_line line ≡ some (raw, rest)
    → length rest < length line
unfolding split_line
split_line-length [] raw rest h = absurd (ground arith)
split_line-length (c ∷ line) raw rest h = elim (Option-cases (split_line line)) [
  | inl miss ↦ ground arith
  | inr (r, hit) ↦ ground (arith, split_line-length line r.0 r.1 hit)
]

split_line-append :
    (line more : Bytes) (raw rest : Bytes)
    → split_line line ≡ some (raw, rest)
    → split_line (line ++ more) ≡ some (raw, rest ++ more)
unfolding split_line
split_line-append [] more raw rest h = absurd (ground arith)
split_line-append (c ∷ line) more raw rest h = elim (Option-cases (split_line line)) [
  | inl miss ↦ ground arith
  | inr (r, hit) ↦ ground (arith, split_line-append line more r.0 r.1 hit)
]

take-append : (n : ℕ) (xs ys : Bytes) → n ≤ length xs → take n (xs ++ ys) ≡ take n xs
take-append zero xs ys h = refl
take-append (suc n) [] ys h = absurd (omega arith)
take-append (suc n) (x ∷ xs) ys h = ap (◌∷◌ x) (take-append n xs ys (omega arith))

drop-append : (n : ℕ) (xs ys : Bytes) → n ≤ length xs → drop n (xs ++ ys) ≡ drop n xs ++ ys
drop-append zero xs ys h = refl
drop-append (suc n) [] ys h = absurd (omega arith)
drop-append (suc n) (x ∷ xs) ys h = drop-append n xs ys (omega arith)

pub consume_line-buf : (p : CommandParser) (line : Bytes) → (consume_line p line).1.buf ≡ p.buf
unfolding consume_line announce finish
consume_line-buf p line = ground arith

-- A line does not look at the bytes behind it.
consume_line-feed :
    (p : CommandParser) (more line : Bytes)
    → consume_line (feed p more) line ≡ ((consume_line p line).0, feed (consume_line p line).1 more)
unfolding consume_line announce finish feed current
consume_line-feed p more line = ground arith

-- A round that goes on took a line, or a literal that had arrived.
pub data Took (p : CommandParser) (es : List Event) (p' : CommandParser) : Type 0 where
  took_line :
      (raw rest : Bytes)
      → p.awaiting_literal ≡ none
      → split_line p.buf ≡ some (raw, rest)
      → ltb p.limits.max_line (length (drop_cr raw)) ≡ false
      → es ≡ (consume_line (record p { buf = rest }) (drop_cr raw)).0 ∷ []
      → p' ≡ (consume_line (record p { buf = rest }) (drop_cr raw)).1
      → Took p es p'
  took_literal :
      (n : ℕ)
      → p.awaiting_literal ≡ some n
      → n ≤ length p.buf
      → es ≡ []
      → p' ≡ take_literal p n
      → Took p es p'

pub round-Took :
    (p : CommandParser) (es : List Event) (p' : CommandParser) → round p ≡ next es p' → Took p es p'
unfolding round round_line
round-Took p es p' h = elim (Option-cases p.awaiting_literal) [
  | inr (n, e) ↦ elim (Bool-cases (ltb (length p.buf) n)) [
    | inl short ↦ absurd (ground arith)
    | inr full ↦ took_literal n e (ground arith) (ground arith) (ground arith)
  ]
  | inl e ↦ elim (Option-cases (split_line p.buf)) [
    | inl miss ↦ absurd (ground arith)
    | inr ((raw, rest), hit) ↦ elim (Bool-cases (ltb p.limits.max_line (length (drop_cr raw)))) [
      | inl long ↦ absurd (ground arith)
      | inr fits ↦ took_line raw rest e hit fits (ground arith) (ground arith)
    ]
  ]
]

awaited_le : (o : Option ℕ) → awaited o ≤ 1
awaited_le none = omega arith
awaited_le (some n) = omega arith

pub Took-weight : {p p' : CommandParser} {es : List Event} → Took p es p' → weight p' < weight p
unfolding take_literal
Took-weight {p} (took_line raw rest e hit fits _ left) = ground (
  arith,
  consume_line-buf (record p { buf = rest }) (drop_cr raw),
  split_line-length p.buf raw rest hit,
  awaited_le (consume_line (record p { buf = rest }) (drop_cr raw)).1.awaiting_literal,
)
Took-weight {p} (took_literal n e full _ left) = ground (arith, length-drop n p.buf)

-- More bytes in the buffer change nothing of a round that goes on.
pub Took-feed :
    (more : Bytes) {p p' : CommandParser} {es : List Event}
    → Took p es p'
    → round (feed p more) ≡ next es (feed p' more)
unfolding round round_line feed take_literal
Took-feed more {p} (took_line raw rest e hit fits out left) = ground (
  arith,
  split_line-append p.buf more raw rest hit,
  consume_line-feed (record p { buf = rest }) more (drop_cr raw),
)
Took-feed more {p} (took_literal n e full out left) =
    ground (
      arith,
      take-append n p.buf more full,
      drop-append n p.buf more full,
      length-append p.buf more,
    )
