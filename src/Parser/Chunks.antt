-- ===== src/Parser/Chunks.antt =====
-- imapgw/parser.py: the loop of `events` ends, and it does not matter how the bytes are cut up.
use native.Mathlib.Nat.{suc-add}
use imap_work_trial.Base.{
  ℕ, zero, suc, ◌+◌, ◌≤◌, ◌<◌, ◌≡◌, ◌⊎◌, refl, sym, ◌∙◌, Bytes, append_assoc, Option-cases, Option,
  some, List, [], ◌∷◌, ◌++◌, arith, inl, inr,
}
use imap_work_trial.Parser.Tokens.{Event}
use imap_work_trial.Parser.Frames.{
  CommandParser, feed, split_line, Round, wait, next, halt, round_line, round, End, Run, events,
}
use imap_work_trial.Parser.Rounds.{weight, round-Took, Took-weight, Took-feed}

pub Round-cases :
    (r : Round)
    → ((p : CommandParser) × (r ≡ wait p))
      ⊎ (((e : Event) × (p : CommandParser) × (r ≡ halt e p))
          ⊎ ((es : List Event) × (p : CommandParser) × (r ≡ next es p)))
Round-cases (wait p) = inl (p, refl)
Round-cases (halt e p) = inr (inl (e, p, refl))
Round-cases (next es p) = inr (inr (es, p, refl))

events_total : (f : ℕ) (p : CommandParser) → weight p < f → (r : Run) × (events f p ≡ some r)
unfolding events
events_total zero p h = absurd (omega arith)
events_total (suc f) p h = elim (Round-cases (round p)) [
  | inl (p', e) ↦ (record { emitted = []; left = p'; end = End.drained }, rw (e, events))
  | inr (inl (ev, p', e)) ↦
      (record { emitted = ev ∷ []; left = p'; end = End.halted }, rw (e, events))
  | inr (inr (es, p', e)) ↦
      let smaller : weight p' < weight p = Took-weight (round-Took p es p' e) in
      let (r, runs) = events_total f p' (omega arith) in
      (record r { emitted = es ++ r.emitted }, rw (e, events) (rw runs))
]

-- More fuel changes nothing.
events_more :
    (f g : ℕ) (p : CommandParser) (r : Run) → f ≤ g → events f p ≡ some r → events g p ≡ some r
unfolding events
events_more zero g p r le h = absurd (ground arith)
events_more (suc f) zero p r le h = absurd (omega arith)
events_more (suc f) (suc g) p r le h = elim (Round-cases (round p)) [
  | inl (p', e) ↦ ground arith
  | inr (inl (ev, p', e)) ↦ ground arith
  | inr (inr (es, p', e)) ↦ elim (Option-cases (events f p')) [
    | inl out ↦ absurd (ground arith)
    | inr (r', runs) ↦ ground (arith, events_more f g p' r' (omega arith) runs)
  ]
]

pub round_wait : (p p' : CommandParser) → round p ≡ wait p' → p' ≡ p
unfolding round round_line
round_wait p p' h = elim (Option-cases p.awaiting_literal) [
  | inr (n, e) ↦ ground arith
  | inl e ↦ elim (Option-cases (split_line p.buf)) [
    | inl miss ↦ ground arith
    | inr (r, hit) ↦ absurd (ground arith)
  ]
]

-- A run that waited goes on as one run when more bytes come.
events_continue :
    (f g : ℕ) (more : Bytes) (p : CommandParser) (r r' : Run)
    → events f p ≡ some r
    → r.end ≡ End.drained
    → events g (feed r.left more) ≡ some r'
    → events (f + g) (feed p more) ≡ some (record r' { emitted = r.emitted ++ r'.emitted })
unfolding events
events_continue zero g more p r r' h w h' = absurd (ground arith)
events_continue (suc f) g more p r r' h w h' = elim (Round-cases (round p)) [
  | inl (p', e) ↦
      let same : p' ≡ p = round_wait p p' e in
      let left : r.left ≡ p = ground arith in
      let none_yet : r.emitted ≡ [] = ground arith in
      rw none_yet (events_more g (suc f + g) (feed p more) r' (omega arith) (rw left at h'))
  | inr (inl (ev, p', e)) ↦ absurd (ground arith)
  | inr (inr (es, p', e)) ↦ elim (Option-cases (events f p')) [
    | inl out ↦ absurd (ground arith)
    | inr (q, runs) ↦
        let ends : q.end ≡ r.end = ground arith in
        let lefts : q.left ≡ r.left = ground arith in
        let out : r.emitted ≡ es ++ q.emitted = ground arith in
        let rest : events (f + g) (feed p' more)
            ≡ some (record r' { emitted = q.emitted ++ r'.emitted }) =
          events_continue f g more p' q r' runs (ends ∙ w) (rw lefts h') in
        let step : round (feed p more) ≡ next es (feed p' more) =
          Took-feed more (round-Took p es p' e) in
        rw suc-add (ground (arith, append_assoc es q.emitted r'.emitted))
  ]
]

-- `events` with fuel for the bytes at hand.
unfoldable pub drain : CommandParser → Option Run
drain p = events (suc (weight p)) p

-- `events` always ends.
pub drain_total : (p : CommandParser) → (r : Run) × (drain p ≡ some r)
unfolding drain
drain_total p = events_total (suc (weight p)) p (omega arith)

drain_lem : (f : ℕ) (p : CommandParser) (r : Run) → events f p ≡ some r → drain p ≡ some r
unfolding drain
drain_lem f p r h =
    let (q, runs) = events_total (suc (weight p)) p (omega arith) in
    let a = events_more (suc (weight p)) (suc (weight p) + f) p q (omega arith) runs in
    let b = events_more f (suc (weight p) + f) p r (omega arith) h in runs ∙ (sym a ∙ b)

-- The cuts between reads do not matter: if the events of the bytes so far end for want of bytes and
-- not behind a fatal error, then with more bytes the parser emits, in one run over all the bytes,
-- the same events and ends in the same state as in two runs, one before the bytes came and one
-- after.
pub drain-feed :
    (p : CommandParser) (more : Bytes) (r r' : Run)
    → drain p ≡ some r
    → r.end ≡ End.drained
    → drain (feed r.left more) ≡ some r'
    → drain (feed p more) ≡ some (record r' { emitted = r.emitted ++ r'.emitted })
unfolding drain
drain-feed p more r r' h w h' =
    drain_lem (suc (weight p) + suc (weight (feed r.left more))) (feed p more) _
      (events_continue (suc (weight p)) (suc (weight (feed r.left more))) more p r r' h w h')
