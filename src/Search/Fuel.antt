-- ===== src/Search/Fuel.antt =====
-- imapgw/search.py: the parser of search keys ends.
use imap_work_trial.Base.{
  ℕ, zero, suc, ◌+◌, ◌≤◌, ◌<◌, ◌≡◌, ◌≢◌, ◌⊎◌, ltb, refl, Bool, true, false, if◌then◌else◌, ◌==◌,
  list_eq, nat_eq, Bytes, codes, upper, Bool-cases, Option-cases, Option, none, some, arith, inl,
  inr,
}
use imap_work_trial.Parser.Tokens.{
  Token, Tokens, atom, quoted_str, literal_str, list_tok, nil, cons, astring_bytes,
}
use imap_work_trial.Search.Criteria.{
  SearchError, Crit, Crits, no_crits, also, seqs, header, Result, found, raised, ◌>>=◌,
  syntax_error, bad_charset, value_error, recursion_error, out_of_fuel, Kind, done, keyword_kind,
  uid_kind, not_kind, or_kind, header_kind, date_kind, size_kind, text_kind, kind_of,
}
use imap_work_trial.Fetch.Sequences.{
  SequenceSet, Parsed, parse_sequence_set, parsed, failed, empty_sequence_set, empty_item,
  invalid_range, invalid_sequence_number, starts_at_1, too_many_digits,
}
use imap_work_trial.Search.Keys.{date_of_text, Python, seqset, number, text_of, needle, date_of}
use imap_work_trial.Search.Parse.{
  token_size, size, next, with_token, keys_loop, group_of, behind_name, key_step, key, parse_keys,
  behind_charset, parse_search,
}

-- An error of the source; with room on the stack, no RecursionError.
abbrev Fair : Bool → SearchError → Type 0
Fair room syntax_error = Unit
Fair room bad_charset = Unit
Fair room value_error = Unit
Fair true recursion_error = ⊥
Fair false recursion_error = Unit
Fair room out_of_fuel = ⊥

module _ (room : Bool) where
  -- If there is room on the stack, the number of tokens is below its levels.
  abbrev Room : ℕ → ℕ → Type 0
  Room n levels = room ≡ true → n < levels

  -- A result that is no such error, and that leaves fewer than `n` tokens.
  abbrev Shrinks : {A : Type 0} → ℕ → Result (A × Tokens) → Type 0
  Shrinks n (found (a, rest)) = size rest < n
  Shrinks n (raised e) = Fair room e

  abbrev Ends : {A : Type 0} → Result A → Type 0
  Ends (found a) = Unit
  Ends (raised e) = Fair room e

  Shrinks-bind :
      {A B : Type 0} (n m : ℕ) (r : Result (A × Tokens)) (f : A × Tokens → Result (B × Tokens))
      → Shrinks n r
      → ((a : A) (rest : Tokens) → size rest < n → Shrinks m (f (a, rest)))
      → Shrinks m (r >>= f)
  Shrinks-bind n m (found (a, rest)) f h k = k a rest h
  Shrinks-bind n m (raised e) f h k = h

  Ends-bind :
      {A B : Type 0} (m : ℕ) (r : Result A) (f : A → Result (B × Tokens))
      → Ends r
      → ((a : A) → Shrinks m (f a))
      → Shrinks m (r >>= f)
  Ends-bind m (found a) f h k = k a
  Ends-bind m (raised e) f h k = h

  Ends-then :
      {A B : Type 0} (r : Result A) (f : A → Result B)
      → Ends r
      → ((a : A) → Ends (f a))
      → Ends (r >>= f)
  Ends-then (found a) f h k = k a
  Ends-then (raised e) f h k = h

  Shrinks-then :
      {A B : Type 0} (n : ℕ) (r : Result (A × Tokens)) (f : A × Tokens → Result B)
      → Shrinks n r
      → ((a : A) (rest : Tokens) → size rest < n → Ends (f (a, rest)))
      → Ends (r >>= f)
  Shrinks-then n (found (a, rest)) f h k = k a rest h
  Shrinks-then n (raised e) f h k = h

  widen : {A : Type 0} (n m : ℕ) (r : Result (A × Tokens)) → n ≤ m → Shrinks n r → Shrinks m r
  widen n m (found (a, rest)) le h = omega arith
  widen n m (raised e) le h = h

  token_size-pos : (t : Token) → 1 ≤ token_size t
  token_size-pos (atom value) = omega arith
  token_size-pos (quoted_str value) = omega arith
  token_size-pos (literal_str value) = omega arith
  token_size-pos (list_tok items) = omega arith

  seqset-Ends : (t : Token) → Ends (seqset t)
  unfolding seqset
  seqset-Ends (atom value) = go (parse_sequence_set value)
    where
      go :
          (p : Parsed SequenceSet)
          → Ends (elim p as (λ _. Result SequenceSet) [
            | parsed s ↦ found s
            | failed too_many_digits ↦ raised value_error
            | failed e ↦ raised syntax_error
          ])
      go (parsed s) = tt
      go (failed empty_sequence_set) = tt
      go (failed empty_item) = tt
      go (failed invalid_range) = tt
      go (failed invalid_sequence_number) = tt
      go (failed starts_at_1) = tt
      go (failed too_many_digits) = tt
  seqset-Ends (quoted_str value) = ground arith
  seqset-Ends (literal_str value) = ground arith
  seqset-Ends (list_tok items) = ground arith

  number-Ends : (t : Token) → Ends (number t)
  unfolding number
  number-Ends (atom value) = ground arith
  number-Ends (quoted_str value) = ground arith
  number-Ends (literal_str value) = ground arith
  number-Ends (list_tok items) = ground arith

  with_token-Shrinks :
      {A B : Type 0} (read : Token → Result A) (make : A → B)
      → ((t : Token) → Ends (read t))
      → (ts : Tokens) → Shrinks (suc (size ts)) (with_token read make ts)
  unfolding with_token next
  with_token-Shrinks read make h nil = ground arith
  with_token-Shrinks read make h (cons t rest) = Ends-bind _ (read t) _ (h t) (λ a. omega arith)

  -- One more token was read before.
  with_token_end :
      {A B : Type 0} (read : Token → Result A) (make : A → B)
      → ((t : Token) → Ends (read t))
      → (t : Token) (ts : Tokens) → Shrinks (suc (token_size t + size ts)) (with_token read make ts)
  unfolding with_token next
  with_token_end read make h t nil = ground arith
  with_token_end read make h t (cons u rest) = Ends-bind _ (read u) _ (h u) (λ a. omega arith)

  too_deep :
      (ts : Tokens) → Room (size ts) 0 → Shrinks {A = Crit} (size ts) (raised recursion_error)
  too_deep ts lt = elim (Bool-cases room) [
    | inl plenty ↦ absurd (omega (arith, lt plenty))
    | inr scarce ↦ rw scarce tt
  ]

  module _ (py : Python) where
    decoded-Ends :
        (o : Option Bytes)
        → Ends (elim o as (λ _. Result Bytes) [ none ↦ raised bad_charset | some s ↦ found s ])
    decoded-Ends none = ground arith
    decoded-Ends (some s) = tt

    text_of-Ends : (t : Token) → Ends (text_of py t)
    unfolding text_of astring_bytes
    text_of-Ends (atom value) = decoded-Ends (py.decode value)
    text_of-Ends (quoted_str value) = decoded-Ends (py.decode value)
    text_of-Ends (literal_str value) = decoded-Ends (py.decode value)
    text_of-Ends (list_tok items) = ground arith

    needle-Ends : (t : Token) → Ends (needle py t)
    unfolding needle
    needle-Ends t = Ends-then (text_of py t) _ (text_of-Ends t) (λ s. tt)

    date_of-Ends : (t : Token) → Ends (date_of py t)
    unfolding date_of
    date_of-Ends t = Ends-then (text_of py t) _ (text_of-Ends t) (λ line.
        elim (Option-cases (date_of_text py line)) [
          | inl no' ↦ rw no' (ground arith)
          | inr (d, yes') ↦ rw yes' tt
        ])

    behind_name-Shrinks :
        (f : ℕ) (again : Tokens → Result (Crit × Tokens))
        → ((ts : Tokens) → Room (size ts) f → Shrinks (size ts) (again ts))
        → (kind : Kind) (rest : Tokens) → Room (size rest) f
        → Shrinks (suc (size rest)) (behind_name py again kind rest)
    unfolding behind_name next
    behind_name-Shrinks f again h (done crit) rest lt = omega arith
    behind_name-Shrinks f again h (keyword_kind wanted) rest lt =
        with_token-Shrinks _ _ text_of-Ends rest
    behind_name-Shrinks f again h uid_kind rest lt = with_token-Shrinks _ _ seqset-Ends rest
    behind_name-Shrinks f again h not_kind rest lt =
        Shrinks-bind (size rest) _ (again rest) _ (h rest lt) (λ a more k. omega arith)
    behind_name-Shrinks f again h or_kind rest lt =
        Shrinks-bind (size rest) _ (again rest) _ (h rest lt) (λ a more k.
          Shrinks-bind (size more) _ (again more) _ (h more (λ r. omega (arith, lt r)))
            (λ b last l. omega arith))
    behind_name-Shrinks f again h header_kind nil lt = ground arith
    behind_name-Shrinks f again h header_kind (cons t rest) lt =
        Ends-bind _ (text_of py t) _ (text_of-Ends t)
          (λ field. with_token_end (needle py) (header field) needle-Ends t rest)
    behind_name-Shrinks f again h (date_kind make) rest lt =
        with_token-Shrinks _ _ date_of-Ends rest
    behind_name-Shrinks f again h (size_kind make) rest lt = with_token-Shrinks _ _ number-Ends rest
    behind_name-Shrinks f again h (text_kind name) rest lt = with_token-Shrinks _ _ needle-Ends rest

    keys_loop-Ends :
        (f g : ℕ) (again : Tokens → Result (Crit × Tokens))
        → ((ts : Tokens) → Room (size ts) f → Shrinks (size ts) (again ts))
        → (ts : Tokens) → Room (size ts) f
        → size ts < g
        → Ends (keys_loop g again ts)
    unfolding keys_loop
    keys_loop-Ends f zero again h ts lt enough = absurd (omega arith)
    keys_loop-Ends f (suc g) again h nil lt enough = tt
    keys_loop-Ends f (suc g) again h (cons t rest) lt enough =
        Shrinks-then (size (cons t rest)) (again (cons t rest)) _ (h (cons t rest) lt)
          (λ crit more k.
            Ends-then (keys_loop g again more) _
              (keys_loop-Ends f g again h more (λ r. omega (arith, lt r)) (omega arith))
              (λ crits. tt))

    group_of-Ends : (crits : Crits) → Ends (group_of crits)
    unfolding group_of
    group_of-Ends no_crits = ground arith
    group_of-Ends (also crit crits) = tt

    seqs_Shrinks :
        (value : Bytes) (rest : Tokens) (b : Bool)
        → Shrinks
            (suc (size rest))
            (if b then (seqset (atom value) >>= λ s. found (seqs s, rest)) else raised syntax_error)
    seqs_Shrinks value rest true =
        Ends-bind _ (seqset (atom value)) _ (seqset-Ends (atom value)) (λ s. omega arith)
    seqs_Shrinks value rest false = ground arith

    -- `key` reads a token, or raises an error, which is RecursionError only without room.
    key-Shrinks : (f : ℕ) (ts : Tokens) → Room (size ts) f → Shrinks (size ts) (key py f ts)
    unfolding key key_step
    key-Shrinks zero ts lt = too_deep ts lt
    key-Shrinks (suc f) nil lt = tt
    key-Shrinks (suc f) (cons (quoted_str value) rest) lt = tt
    key-Shrinks (suc f) (cons (literal_str value) rest) lt = tt
    key-Shrinks (suc f) (cons (list_tok items) rest) lt =
        Ends-bind _ (keys_loop (suc (size items)) (key py f) items) _
          (keys_loop-Ends f (suc (size items)) (key py f) (key-Shrinks f) items
            (λ r. omega (arith, lt r)) (omega arith))
          (λ crits. Ends-bind _ (group_of crits) _ (group_of-Ends crits) (λ crit. omega arith))
    key-Shrinks (suc f) (cons (atom value) rest) lt = elim (Option-cases (kind_of (upper value))) [
      | inl no' ↦
          rw (no', key_step) (widen (suc (size rest)) _ _ (omega arith) (seqs_Shrinks value rest _))
      | inr (kind, yes') ↦
          rw (yes', key_step)
            (widen (suc (size rest)) _ _ (omega arith) (
              behind_name-Shrinks f (key py f) (key-Shrinks f) kind rest
                (λ r. omega (arith, lt r))))
    ]

    parse_keys-Ends : (f : ℕ) (ts : Tokens) → Room (size ts) f → Ends (parse_keys py f ts)
    unfolding parse_keys
    parse_keys-Ends f nil lt = tt
    parse_keys-Ends f (cons t rest) lt =
        Ends-then (keys_loop (suc (size (cons t rest))) (key py f) (cons t rest)) _
          (keys_loop-Ends f (suc (size (cons t rest))) (key py f) (key-Shrinks f) (cons t rest) lt
            (omega arith))
          (λ crits. tt)

    behind_charset_lem :
        (ts : Tokens)
        → Ends (behind_charset py ts)
          × ((rest : Tokens) → behind_charset py ts ≡ found rest → size rest ≤ size ts)
    unfolding behind_charset
    behind_charset_lem nil = ground arith
    behind_charset_lem (cons t rest) = ground (arith, text_of-Ends t)

    parse_search-Ends : (f : ℕ) (ts : Tokens) → Room (size ts) f → Ends (parse_search py f ts)
    unfolding parse_search
    parse_search-Ends f nil lt = parse_keys-Ends f nil lt
    parse_search-Ends f (cons (quoted_str value) rest) lt =
        parse_keys-Ends f (cons (quoted_str value) rest) lt
    parse_search-Ends f (cons (literal_str value) rest) lt =
        parse_keys-Ends f (cons (literal_str value) rest) lt
    parse_search-Ends f (cons (list_tok items) rest) lt =
        parse_keys-Ends f (cons (list_tok items) rest) lt
    parse_search-Ends f (cons (atom value) rest) lt =
        elim (Bool-cases (upper value == codes "CHARSET")) [
          | inl yes' ↦
              rw (yes', parse_search) (after (behind_charset py rest) (behind_charset_lem rest))
          | inr no' ↦ rw (no', parse_search) (parse_keys-Ends f (cons (atom value) rest) lt)
        ]
      where
        after :
            (r : Result Tokens)
            → Ends r × ((rest' : Tokens) → r ≡ found rest' → size rest' ≤ size rest)
            → Ends (r >>= λ items. parse_keys py f items)
        after (found items) h = parse_keys-Ends f items (λ r. omega (arith, h.1 items refl, lt r))
        after (raised e) h = h.0

-- The parser of search keys ends, whatever Python's stack has room for: with a criterion, with one
-- of its two exceptions, with ValueError of `int`, or with RecursionError, and this only if there
-- are at least as many tokens, those inside lists counted, as calls of `key` fit into each other.
pub parse_search_ends :
    (py : Python) (levels : ℕ) (ts : Tokens)
    → (parse_search py levels ts ≢ raised out_of_fuel)
      × ((levels ≤ size ts) ⊎ (parse_search py levels ts ≢ raised recursion_error))
parse_search_ends py levels ts = (
  no_fuel_error _ (parse_search-Ends false py levels ts (λ r. absurd (ground arith))),
  elim (Bool-cases (ltb (size ts) levels)) [
    | inl roomy ↦ inr (no_depth_error _ (parse_search-Ends true py levels ts (λ r. ground arith)))
    | inr tight ↦ inl (ground arith)
  ],
)
  where
    no_fuel_error : (r : Result Crit) → Ends false r → r ≢ raised out_of_fuel
    no_fuel_error (found crit) h = ground arith
    no_fuel_error (raised syntax_error) h = ground arith
    no_fuel_error (raised bad_charset) h = ground arith
    no_fuel_error (raised value_error) h = ground arith
    no_fuel_error (raised recursion_error) h = ground arith
    no_fuel_error (raised out_of_fuel) h = absurd h

    no_depth_error : (r : Result Crit) → Ends true r → r ≢ raised recursion_error
    no_depth_error (found crit) h = ground arith
    no_depth_error (raised syntax_error) h = ground arith
    no_depth_error (raised bad_charset) h = ground arith
    no_depth_error (raised value_error) h = ground arith
    no_depth_error (raised recursion_error) h = absurd h
    no_depth_error (raised out_of_fuel) h = absurd h
