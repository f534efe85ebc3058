-- ===== src/Search/Keys.antt =====
-- imapgw/search.py: what a search key reads from one token, `_text` to `_date`.
use imap_work_trial.Base.{
  ℕ, zero, suc, ◌+◌, ◌-◌, ◌*◌, ◌/◌, ◌%◌, ◌==◌, nat_eq, list_eq, leb, ltb, Bytes, codes, lower,
  is_digit, all, length, contains, read_digits, Bool, false, not, ◌&&◌, ◌||◌, if◌then◌else◌, Dict,
  lookup, Option, none, some, [], ◌∷◌,
}
use imap_work_trial.Parser.Tokens.{
  Token, atom, quoted_str, literal_str, list_tok, ok, err, astring_bytes,
}
use imap_work_trial.Fetch.Sequences.{
  SequenceSet, parse_sequence_set, parsed, failed, too_many_digits, max_digits, partition,
}
use imap_work_trial.Search.Criteria.{
  Result, found, raised, ◌>>=◌, syntax_error, bad_charset, value_error,
}

-- Python's codec and its Unicode tables: `bytes.decode("utf-8")`, which may fail, `str.casefold`, `str.upper`,
-- and the value of a decimal digit, as `\d` and `int` know it.
pub record Python : Type 0 where
  pub decode : Bytes → Option Bytes
  pub casefold : Bytes → Bytes
  pub upper : Bytes → Bytes
  pub digit : ℕ → Option ℕ

-- `_looks_like_seqset`, on the name of a key
unfoldable pub looks_like_seqset : Bytes → Bool
unfolding is_digit
looks_like_seqset [] = false
looks_like_seqset (c ∷ name) =
    all (λ b. is_digit b || contains (codes "*:,") b) (c ∷ name) && (is_digit c || c == b'*')

unfoldable pub seqset : Token → Result SequenceSet
unfolding parse_sequence_set
seqset (atom value) = elim (parse_sequence_set value) [
  | parsed s ↦ found s
  | failed too_many_digits ↦ raised value_error
  | failed e ↦ raised syntax_error
]
seqset (quoted_str value) = raised syntax_error
seqset (literal_str value) = raised syntax_error
seqset (list_tok items) = raised syntax_error

-- The number of LARGER and SMALLER.
unfoldable pub number : Token → Result ℕ
unfolding is_digit read_digits
number (atom value) =
    if value == [] || not (all is_digit value)
    then raised syntax_error
    else if ltb max_digits (length value)
    then raised value_error
    else found (read_digits 0 value)
number (quoted_str value) = raised syntax_error
number (literal_str value) = raised syntax_error
number (list_tok items) = raised syntax_error

abbrev pub months : Dict Bytes ℕ
months =
    (codes "jan", 1)
    ∷ (codes "feb", 2)
    ∷ (codes "mar", 3)
    ∷ (codes "apr", 4)
    ∷ (codes "may", 5)
    ∷ (codes "jun", 6)
    ∷ (codes "jul", 7)
    ∷ (codes "aug", 8)
    ∷ (codes "sep", 9)
    ∷ (codes "oct", 10)
    ∷ (codes "nov", 11)
    ∷ (codes "dec", 12)
    ∷ []

unfoldable pub is_leap : ℕ → Bool
is_leap year = year % 4 == 0 && (not (year % 100 == 0) || year % 400 == 0)

unfoldable pub days_in_month : ℕ → ℕ → ℕ
unfolding is_leap
days_in_month year month =
    if month == 2
    then (if is_leap year then 29 else 28)
    else if contains (4 ∷ 6 ∷ 9 ∷ 11 ∷ []) month
    then 30
    else 31

-- The days of the months before the one behind `month`.
unfoldable pub days_before : ℕ → ℕ → ℕ
unfolding days_in_month
days_before year zero = 0
days_before year (suc month) = days_before year month + days_in_month year (suc month)

-- `date(year, month, day).toordinal()`, and no date where `date` raises ValueError
unfoldable pub date : ℕ → ℕ → ℕ → Option ℕ
unfolding days_before
date year month day =
    let past = year - 1 in
    let years = past * 365 + past / 4 - past / 100 + past / 400 in
    if leb 1 year
      && leb year 9999
      && leb 1 month
      && leb month 12
      && leb 1 day
      && leb day (days_in_month year month)
    then some (years + days_before year (month - 1) + day)
    else none

-- `$` also matches before a newline at the end.
unfoldable pub drop_newline : Bytes → Bytes
drop_newline [] = []
drop_newline (c ∷ []) = if c == 10 then [] else c ∷ []
drop_newline (c ∷ d ∷ text) = c ∷ drop_newline (d ∷ text)

abbrev pub is_letter : ℕ → Bool
is_letter c = (leb b'A' c && leb c b'Z') || (leb b'a' c && leb c b'z')

module _ (py : Python) where
  -- `int` of a text of decimal digits, behind a number that is already read
  unfoldable pub read_decimal : ℕ → Bytes → Option ℕ
  read_decimal n [] = some n
  read_decimal n (c ∷ rest) = elim (py.digit c) [
    | none ↦ none
    | some d ↦ read_decimal (n * 10 + d) rest
  ]

  -- The groups of `_DATE_RE`.
  unfoldable pub date_groups : Bytes → Option (Bytes × Bytes × Bytes)
  unfolding partition drop_newline
  date_groups line =
      let (day, first, rest) = partition b'-' line in
      let (month, second, tail) = partition b'-' rest in
      let year = drop_newline tail in
      if first
        && second
        && leb 1 (length day)
        && leb (length day) 2
        && length month == 3
        && all is_letter month
        && length year == 4
      then some (day, month, year)
      else none

  -- `_text`
  unfoldable pub text_of : Token → Result Bytes
  unfolding astring_bytes
  text_of tok = elim (astring_bytes tok) [
    | err e ↦ raised syntax_error
    | ok value ↦ elim (py.decode value) [ none ↦ raised bad_charset | some s ↦ found s ]
  ]

  -- `_needle`
  unfoldable pub needle : Token → Result Bytes
  unfolding text_of
  needle tok = text_of tok >>= λ s. found (py.casefold s)

  -- The `date` of a text, if it is one.
  unfoldable pub date_of_text : Bytes → Option ℕ
  unfolding date_groups read_decimal lookup date
  date_of_text line = elim (date_groups line) [
    | none ↦ none
    | some (day, month, year) ↦ elim (lookup (lower month) months) [
      | none ↦ none
      | some m ↦ elim (read_decimal 0 year) [
        | none ↦ none
        | some y ↦ elim (read_decimal 0 day) [ none ↦ none | some d ↦ date y m d ]
      ]
    ]
  ]

  -- `_date`
  unfoldable pub date_of : Token → Result ℕ
  unfolding text_of date_of_text
  date_of tok = text_of tok >>= λ line. elim (date_of_text line) [
    | none ↦ raised syntax_error
    | some d ↦ found d
  ]
