-- ===== src/Fetch/Sequences.antt =====
-- imapgw/fetch.py, its sequence sets: `SequenceSet`, `parse_sequence_set`, `select_numbers`.
use imap_work_trial.Base.{
  ℕ, Bytes, length, ◌==◌, nat_eq, list_eq, leb, ltb, Bool, true, false, ◌&&◌, ◌||◌, not, any, all,
  is_digit, read_digits, if◌then◌else◌, List, [], ◌∷◌,
}

pub record SequenceSet : Type 0 where
  pub ranges : List (ℕ × ℕ)

-- `_STAR`
abbrev pub star : ℕ
star = 4294967296

-- What the parser raises: `FetchSyntaxError` by its messages, or, as `too_many_digits`, the ValueError of
-- `int` on too many digits.
pub data FetchSyntaxError : Type 0 where
  empty_sequence_set empty_item invalid_range invalid_sequence_number starts_at_1 too_many_digits :
      FetchSyntaxError

pub data Parsed (A : Type 0) : Type 0 where
  parsed : A → Parsed A
  failed : FetchSyntaxError → Parsed A

abbrev pub is_star : ℕ × ℕ → Bool
is_star r = r.1 == star

-- `contains` of the class
unfoldable pub covers : SequenceSet → ℕ → Bool
covers s n = any (λ (r : ℕ × ℕ). leb r.0 n && leb n r.1) s.ranges

unfoldable pub has_star : SequenceSet → Bool
has_star s = any is_star s.ranges

-- `text.split(sep)`
unfoldable pub split : ℕ → Bytes → Bytes × List Bytes
split sep [] = ([], [])
split sep (c ∷ text) =
    let (first, others) = split sep text in
    if c == sep then ([], first ∷ others) else (c ∷ first, others)

-- `text.partition(sep)`
unfoldable pub partition : ℕ → Bytes → Bytes × Bool × Bytes
partition sep [] = ([], false, [])
partition sep (c ∷ text) =
    let (before, found, after) = partition sep text in
    if c == sep then ([], true, text) else (c ∷ before, found, after)

-- The digits that `int` takes by default.
abbrev pub max_digits : ℕ
max_digits = 4300

-- `_seq_number`
unfoldable pub seq_number : Bytes → Parsed ℕ
unfolding is_digit read_digits
seq_number text =
    let value = read_digits 0 text in
    if text == b'*' ∷ []
    then parsed star
    else if text == [] || not (all is_digit text)
    then failed invalid_sequence_number
    else if ltb max_digits (length text)
    then failed too_many_digits
    else if value == 0
    then failed starts_at_1
    else parsed value

-- `lo, hi = hi, lo` where `lo > hi`
unfoldable pub ordered : ℕ → ℕ → ℕ × ℕ
ordered lo hi = if ltb hi lo then (hi, lo) else (lo, hi)

-- One item of the loop of `parse_sequence_set`.
unfoldable pub parse_range : Bytes → Parsed (ℕ × ℕ)
unfolding seq_number partition
parse_range [] = failed empty_item
parse_range (c ∷ rest) =
    let (lo_s, colon, hi_s) = partition b':' (c ∷ rest) in
    if colon && hi_s == [] then failed invalid_range else elim (seq_number lo_s) [
      | failed e ↦ failed e
      | parsed lo ↦ elim (if hi_s == [] then parsed lo else seq_number hi_s) [
        | failed e ↦ failed e
        | parsed hi ↦ parsed (ordered lo hi)
      ]
    ]

unfoldable pub parse_ranges : Bytes → List Bytes → Parsed (List (ℕ × ℕ))
unfolding parse_range
parse_ranges part [] = elim (parse_range part) [ failed e ↦ failed e | parsed r ↦ parsed (r ∷ []) ]
parse_ranges part (next ∷ others) = elim (parse_range part) [
  | failed e ↦ failed e
  | parsed r ↦ elim (parse_ranges next others) [ failed e ↦ failed e | parsed rs ↦ parsed (r ∷ rs) ]
]

unfoldable pub parse_sequence_set : Bytes → Parsed SequenceSet
unfolding parse_ranges split
parse_sequence_set text =
    let (part, others) = split b',' text in
    if text == [] then failed empty_sequence_set else elim (parse_ranges part others) [
      | failed e ↦ failed e
      | parsed ranges ↦ parsed (record { ranges = ranges })
    ]

-- `candidates[-1]`, for candidates `first ∷ others`
unfoldable pub last_of : ℕ → List ℕ → ℕ
last_of first [] = first
last_of first (n ∷ others) = last_of n others

-- `*` is the largest candidate.
unfoldable pub resolve : ℕ → ℕ → ℕ
resolve largest n = if n == star then largest else n

-- The test of the inner loop of `select_numbers`.
unfoldable pub in_range : ℕ → ℕ → ℕ × ℕ → Bool
unfolding resolve ordered
in_range largest n r =
    let (lo, hi) = ordered (resolve largest r.0) (resolve largest r.1) in leb lo n && leb n hi

unfoldable pub select_from : ℕ → SequenceSet → List ℕ → List ℕ
unfolding in_range
select_from largest s [] = []
select_from largest s (n ∷ candidates) =
    let rest = select_from largest s candidates in
    if any (in_range largest n) s.ranges then n ∷ rest else rest

unfoldable pub select_numbers : SequenceSet → List ℕ → List ℕ
unfolding select_from last_of
select_numbers s [] = []
select_numbers s (first ∷ others) = select_from (last_of first others) s (first ∷ others)
