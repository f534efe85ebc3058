-- ===== src/Parser/Bounds.antt =====
-- imapgw/parser.py: what the limits bound.
use imap_work_trial.Base.{
  ℕ, zero, suc, ◌+◌, ◌≤◌, ◌<◌, ◌≡◌, refl, ◌∙◌, true, length, Bool-cases, All, All-append,
  Option-cases, Option, none, some, List, [], ◌∷◌, ◌++◌, arith, inl, inr, Bytes, contains, nat_eq,
}
use imap_work_trial.Parser.Tokens.{
  Tokens, atom, nil, cons, Result, ok, err, Event, command, continuation_request, parse_error,
  Limits,
}
use imap_work_trial.Parser.Lexer.{line_piece, tokenize_pieces}
use imap_work_trial.Parser.Frames.{
  CommandParser, Pending, drop_cr, split_line, current, announce, finish, consume_line,
  take_literal, literal_tail, build_command, command_of, wait, halt, round_line, round, End, Run,
  events,
}
use imap_work_trial.Parser.Rounds.{weight, Took, took_line, took_literal, round-Took}
use imap_work_trial.Parser.Chunks.{Round-cases, round_wait, drain}

-- A command under construction is within its aggregate limits.
abbrev pub Small : Limits → Option Pending → Type 0
Small limits none = Unit
Small limits (some q) =
    (q.total_bytes ≤ limits.max_command_bytes) × (q.literal_count ≤ limits.max_literals)

-- An awaited literal is within its limit and has a command to go to.
abbrev pub Expected : Limits → Option Pending → Option ℕ → Type 0
Expected limits pending none = Unit
Expected limits none (some n) = ⊥
Expected limits (some q) (some n) = n ≤ limits.max_literal

pub record IsBounded (p : CommandParser) : Type 0 where
  pub small : Small p.limits p.pending
  pub expected : Expected p.limits p.pending p.awaiting_literal

-- A literal is invited only if it is within its limit.
abbrev pub Modest : Limits → Event → Type 0
Modest limits (continuation_request n) = n ≤ limits.max_literal
Modest limits (command _) = Unit
Modest limits (parse_error _ _ _) = Unit

-- What is left in the buffer of a parser that waits for bytes.
abbrev pub Waits : Limits → Option ℕ → Bytes → Type 0
Waits limits none buf = length buf ≤ limits.max_line
Waits limits (some n) buf = length buf < n

announce_bounds :
    (p : CommandParser) (q : Pending) (start : Bytes) (n : ℕ)
    → p.awaiting_literal ≡ none
    → Modest p.limits (announce p q start n).0
      × IsBounded (announce p q start n).1
      × ((announce p q start n).1.limits ≡ p.limits)
unfolding announce
announce_bounds p q start n e = ground arith

command_of-Modest :
    (limits : Limits) (tag : Option Bytes) (ts : Tokens) → Modest limits (command_of tag ts)
unfolding command_of
command_of-Modest limits tag nil = tt
command_of-Modest limits tag (cons t nil) = tt
command_of-Modest limits tag (cons (atom t) (cons (atom name) args)) = ground arith
command_of-Modest limits tag (cons t (cons name args)) = tt

build_command-Modest : (limits : Limits) (q : Pending) → Modest limits (build_command q)
unfolding build_command
build_command-Modest limits q = go (tokenize_pieces q.pieces) refl
  where
    go : (r : Result Tokens) → tokenize_pieces q.pieces ≡ r → Modest limits (build_command q)
    go (ok ts) e = rw (e, build_command) (command_of-Modest limits q.tag ts)
    go (err x) e = rw (e, build_command) tt

finish_bounds :
    (p : CommandParser) (q : Pending) (line : Bytes)
    → p.awaiting_literal ≡ none
    → Modest p.limits (finish p q line).0
      × IsBounded (finish p q line).1
      × ((finish p q line).1.limits ≡ p.limits)
unfolding finish
finish_bounds p q line e =
    ground (
      arith,
      build_command-Modest p.limits (record q { pieces = q.pieces ++ line_piece line ∷ [] }),
    )

consume_line_bounds :
    (p : CommandParser) (line : Bytes)
    → p.awaiting_literal ≡ none
    → Modest p.limits (consume_line p line).0
      × IsBounded (consume_line p line).1
      × ((consume_line p line).1.limits ≡ p.limits)
unfolding consume_line
consume_line_bounds p line e =
    let q = current p line in
    let pending : Pending = record q { total_bytes = q.total_bytes + length line + 2 } in
    elim (Bool-cases (contains line 0)) [
      | inl null ↦ rw (null, consume_line) (tt, record { small = tt; expected = rw e tt }, refl)
      | inr clean ↦ elim (Option-cases (literal_tail true line)) [
        | inl miss ↦ rw (clean, consume_line) (rw miss (finish_bounds p pending line e))
        | inr ((start, n), hit) ↦
            rw (clean, consume_line) (rw hit (announce_bounds p pending start n e))
      ]
    ]

expected_pending :
    (p : CommandParser) (n : ℕ) → IsBounded p → p.pending ≡ none → p.awaiting_literal ≡ some n → ⊥
expected_pending p n b e h = ground arith

Took-bounds :
    {p p' : CommandParser} {es : List Event}
    → IsBounded p
    → Took p es p'
    → All (Modest p.limits) es × IsBounded p' × (p'.limits ≡ p.limits)
unfolding take_literal
Took-bounds {p} b (took_line raw rest e hit fits out left) =
    let (modest, bounded, same) = consume_line_bounds (record p { buf = rest }) (drop_cr raw) e in
    rw (out, left) ((modest, tt), bounded, same)
Took-bounds {p} b (took_literal n e full out left) = elim (Option-cases p.pending) [
  | inl none_yet ↦ absurd (expected_pending p n b none_yet e)
  | inr (q, some_yet) ↦
      rw (out, left)
        (tt, record { small = rw some_yet (rw some_yet at b.small); expected = tt }, refl)
]

round-Waits : (p p' : CommandParser) → round p ≡ wait p' → Waits p.limits p.awaiting_literal p.buf
unfolding round round_line
round-Waits p p' h = elim (Option-cases p.awaiting_literal) [
  | inr (n, e) ↦ rw e (ground arith)
  | inl e ↦ elim (Option-cases (split_line p.buf)) [
    | inl miss ↦ rw e (ground arith)
    | inr (r, hit) ↦ absurd (ground arith)
  ]
]

round_halts :
    (p p' : CommandParser) (ev : Event)
    → IsBounded p
    → round p ≡ halt ev p'
    → Modest p.limits ev × IsBounded p' × (p'.limits ≡ p.limits)
unfolding round round_line
round_halts p p' ev b h = elim (Option-cases p.awaiting_literal) [
  | inr (n, e) ↦ absurd (ground arith)
  | inl e ↦ elim (Option-cases (split_line p.buf)) [
    | inl miss ↦ ground arith
    | inr (r, hit) ↦ ground arith
  ]
]

-- The parser's state between runs of `events` respects the limits, and so do the invitations that
-- a run yields. `Waits` bounds what is left in the buffer for want of bytes.
events_bounds :
    (f : ℕ) (p : CommandParser) (r : Run)
    → IsBounded p
    → events f p ≡ some r
    → All (Modest p.limits) r.emitted
      × IsBounded r.left
      × (r.left.limits ≡ p.limits)
      × (r.end ≡ End.drained → Waits p.limits r.left.awaiting_literal r.left.buf)
unfolding events
events_bounds zero p r b h = absurd (ground arith)
events_bounds (suc f) p r b h = elim (Round-cases (round p)) [
  | inl (p', e) ↦
      let same : p' ≡ p = round_wait p p' e in
      let out : r.emitted ≡ [] = ground arith in
      let left : r.left ≡ p = ground arith in rw (out, left) (tt, b, refl, λ _. round-Waits p p' e)
  | inr (inl (ev, p', e)) ↦
      let (modest, bounded, same) = round_halts p p' ev b e in
      let out : r.emitted ≡ ev ∷ [] = ground arith in
      let left : r.left ≡ p' = ground arith in
      let halts : r.end ≡ End.halted = ground arith in
      rw (out, left, halts) ((modest, tt), bounded, same, λ q. absurd (ground arith))
  | inr (inr (es, p', e)) ↦ elim (Option-cases (events f p')) [
    | inl out ↦ absurd (ground arith)
    | inr (q, runs) ↦
        let (modest, bounded, same) = Took-bounds b (round-Took p es p' e) in
        let (later, bounded', same', waits) = events_bounds f p' q bounded runs in
        let out : r.emitted ≡ es ++ q.emitted = ground arith in
        let left : r.left ≡ q.left = ground arith in
        let ends : r.end ≡ q.end = ground arith in
        rw (out, left, ends)
          (
            All-append (Modest p.limits) es q.emitted modest (rw same at later),
            bounded',
            same' ∙ same,
            λ w. rw same at (waits w),
          )
  ]
]

-- From a state within the limits, `events` invites no literal over `max_literal`, and leaves a
-- state within the limits: a command under construction within `max_command_bytes` and
-- `max_literals`, and an awaited literal within `max_literal` that has a command to go to. If it
-- ends for want of bytes, the buffer is shorter than the awaited literal, or without one no longer
-- than `max_line`.
pub drain_bounds :
    (p : CommandParser) (r : Run)
    → IsBounded p
    → drain p ≡ some r
    → All (Modest p.limits) r.emitted
      × IsBounded r.left
      × (r.left.limits ≡ p.limits)
      × (r.end ≡ End.drained → Waits p.limits r.left.awaiting_literal r.left.buf)
unfolding drain
drain_bounds p r b h = events_bounds (suc (weight p)) p r b h
