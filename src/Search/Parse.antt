-- ===== src/Search/Parse.antt =====
-- imapgw/search.py: `parse_search` and `_Parser`. `levels` is how deep the calls of `key` within
-- `key` may get on the stack of Python; the loops run on fuel for their tokens.
use imap_work_trial.Base.{
  ℕ, zero, suc, ◌+◌, ◌==◌, list_eq, nat_eq, codes, upper, ◌||◌, if◌then◌else◌, none, some,
}
use imap_work_trial.Parser.Tokens.{
  Token, Tokens, atom, quoted_str, literal_str, list_tok, nil, cons,
}
use imap_work_trial.Search.Criteria.{
  Crit, Crits, no_crits, also, conj, disj, neg, keyword, uids, seqs, text, header, Result, found,
  raised, ◌>>=◌, syntax_error, bad_charset, recursion_error, out_of_fuel, Kind, done, keyword_kind,
  uid_kind, not_kind, or_kind, header_kind, date_kind, size_kind, text_kind, kind_of,
}
use imap_work_trial.Search.Keys.{
  Python, looks_like_seqset, seqset, number, text_of, needle, date_of,
}

abbrev mutual
  pub token_size : Token → ℕ
  token_size (atom value) = 1
  token_size (quoted_str value) = 1
  token_size (literal_str value) = 1
  token_size (list_tok items) = suc (size items)

  -- The tokens, those of the lists included.
  pub size : Tokens → ℕ
  size nil = 0
  size (cons t ts) = token_size t + size ts

-- `next`
unfoldable pub next : Tokens → Result (Token × Tokens)
next nil = raised syntax_error
next (cons tok rest) = found (tok, rest)

-- `while not parser.done()`: the keys of all the tokens, each read by `again`
unfoldable pub keys_loop : ℕ → (Tokens → Result (Crit × Tokens)) → Tokens → Result Crits
keys_loop zero again tokens = raised out_of_fuel
keys_loop (suc f) again nil = found no_crits
keys_loop (suc f) again (cons tok rest) =
    again (cons tok rest) >>= λ r. keys_loop f again r.1 >>= λ crits. found (also r.0 crits)

-- A group is not empty.
unfoldable pub group_of : Crits → Result Crit
group_of no_crits = raised syntax_error
group_of (also crit crits) = found (conj (also crit crits))

-- One token, read by `read`, and what is made of it.
unfoldable pub with_token :
    {A B : Type 0} → (Token → Result A) → (A → B) → Tokens → Result (B × Tokens)
unfolding next
with_token read make rest = next rest >>= λ r. read r.0 >>= λ a. found (make a, r.1)

module _ (py : Python) where
  -- What `key` does behind the name of a key; `again` is its own call.
  unfoldable pub behind_name :
      (Tokens → Result (Crit × Tokens)) → Kind → Tokens → Result (Crit × Tokens)
  unfolding with_token next text_of needle date_of number seqset
  behind_name again (done crit) rest = found (crit, rest)
  behind_name again (keyword_kind wanted) rest =
      with_token (text_of py) (λ s. keyword s wanted) rest
  behind_name again uid_kind rest = with_token seqset uids rest
  behind_name again not_kind rest = again rest >>= λ r. found (neg r.0, r.1)
  behind_name again or_kind rest = again rest >>= λ r. again r.1 >>= λ q. found (disj r.0 q.0, q.1)
  behind_name again header_kind rest =
      next rest >>= λ r. text_of py r.0 >>= λ field. with_token (needle py) (header field) r.1
  behind_name again (date_kind make) rest = with_token (date_of py) make rest
  behind_name again (size_kind make) rest = with_token number make rest
  behind_name again (text_kind name) rest = with_token (needle py) (text name) rest

  -- `key`, whose calls of itself are `again`
  unfoldable pub key_step : (Tokens → Result (Crit × Tokens)) → Tokens → Result (Crit × Tokens)
  unfolding keys_loop group_of behind_name kind_of looks_like_seqset seqset
  key_step again nil = raised syntax_error
  key_step again (cons (list_tok items) rest) =
      keys_loop (suc (size items)) again items >>= λ crits.
      group_of crits >>= λ crit. found (crit, rest)
  key_step again (cons (quoted_str value) rest) = raised syntax_error
  key_step again (cons (literal_str value) rest) = raised syntax_error
  key_step again (cons (atom value) rest) = elim (kind_of (upper value)) [
    | some kind ↦ behind_name again kind rest
    | none ↦
        if looks_like_seqset (upper value)
        then (seqset (atom value) >>= λ s. found (seqs s, rest))
        else raised syntax_error
  ]

  -- `key`; a call that is too deep raises RecursionError.
  unfoldable pub key : ℕ → Tokens → Result (Crit × Tokens)
  unfolding key_step
  key zero tokens = raised recursion_error
  key (suc levels) tokens = key_step (key levels) tokens

  -- The keys behind CHARSET.
  unfoldable pub parse_keys : ℕ → Tokens → Result Crit
  unfolding key keys_loop
  parse_keys levels nil = raised syntax_error
  parse_keys levels (cons tok rest) =
      keys_loop (suc (size (cons tok rest))) (key levels) (cons tok rest) >>= λ crits.
      found (conj crits)

  -- The charset that is asked for, and the tokens behind it.
  unfoldable pub behind_charset : Tokens → Result Tokens
  unfolding text_of
  behind_charset nil = raised syntax_error
  behind_charset (cons tok rest) = text_of py tok >>= λ charset.
      if py.upper charset == codes "UTF-8" || py.upper charset == codes "US-ASCII"
      then found rest
      else raised bad_charset

  unfoldable pub parse_search : ℕ → Tokens → Result Crit
  unfolding parse_keys behind_charset
  parse_search levels nil = parse_keys levels nil
  parse_search levels (cons (atom value) rest) =
      if upper value == codes "CHARSET"
      then (behind_charset rest >>= λ items. parse_keys levels items)
      else parse_keys levels (cons (atom value) rest)
  parse_search levels (cons (quoted_str value) rest) =
      parse_keys levels (cons (quoted_str value) rest)
  parse_search levels (cons (literal_str value) rest) =
      parse_keys levels (cons (literal_str value) rest)
  parse_search levels (cons (list_tok items) rest) = parse_keys levels (cons (list_tok items) rest)
