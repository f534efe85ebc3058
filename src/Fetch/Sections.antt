-- ===== src/Fetch/Sections.antt =====
-- imapgw/fetch.py, its section slicing: `split_message`, `header_lines`, `filter_header`,
-- `section_bytes`. Sections are the strings that `_parse_section` lets through; field names are
-- ASCII.
use mathlib.Core.Option
use imap_work_trial.Base.{
  ℕ, ◌==◌, nat_eq, list_eq, Bool, true, false, not, ◌||◌, ◌&&◌, if◌then◌else◌, take, drop, map,
  contains, Bytes, upper, Option, none, some, List, [], ◌∷◌, ◌++◌,
}

-- The rest of `text` behind `prefix`, if it starts with it.
unfoldable pub strip_prefix : Bytes → Bytes → Option Bytes
strip_prefix [] text = some text
strip_prefix (p ∷ prefix) [] = none
strip_prefix (p ∷ prefix) (c ∷ text) = if p == c then strip_prefix prefix text else none

-- `raw[:idx + len(mark)], raw[idx + len(mark):]` for `idx = raw.find(mark)`, for a `mark` that is
-- not empty
unfoldable pub cut_behind : Bytes → Bytes → Option (Bytes × Bytes)
unfolding strip_prefix
cut_behind mark [] = none
cut_behind mark (c ∷ raw) =
    let later = Option.map (λ (r : Bytes × Bytes). (c ∷ r.0, r.1)) (cut_behind mark raw) in
    elim (strip_prefix mark (c ∷ raw)) [ some body ↦ some (mark, body) | none ↦ later ]

unfoldable pub split_message : Bytes → Bytes × Bytes
unfolding cut_behind
split_message raw = elim (cut_behind (13 ∷ 10 ∷ 13 ∷ 10 ∷ []) raw) [
  | some parts ↦ parts
  | none ↦ elim (cut_behind (10 ∷ 10 ∷ []) raw) [ some parts ↦ parts | none ↦ (raw, []) ]
]

-- A byte before the lines of a text, where it ends no line.
unfoldable pub extend_first : ℕ → List Bytes → List Bytes
extend_first c [] = (c ∷ []) ∷ []
extend_first c (line ∷ lines) = (c ∷ line) ∷ lines

-- `header.splitlines(keepends=True)`: a line ends behind LF, CR LF or a lone CR
unfoldable pub split_lines : Bytes → List Bytes
unfolding extend_first
split_lines [] = []
split_lines (c ∷ []) = (c ∷ []) ∷ []
split_lines (c ∷ d ∷ rest) =
    let behind_both = split_lines rest in
    let behind_one = split_lines (d ∷ rest) in
    if c == 10
    then (c ∷ []) ∷ behind_one
    else if c == 13
    then (if d == 10 then (c ∷ d ∷ []) ∷ behind_both else (c ∷ []) ∷ behind_one)
    else extend_first c behind_one

-- `physical in (b"\r\n", b"\n")`
abbrev pub is_blank : Bytes → Bool
is_blank line = line == 13 ∷ 10 ∷ [] || line == 10 ∷ []

-- `physical[:1] in (b" ", b"\t")`
abbrev pub is_folded : Bytes → Bool
is_folded [] = false
is_folded (c ∷ _) = c == 0x20 || c == 9

-- The loop of `header_lines`, with the last logical line so far, which later lines may extend.
unfoldable pub fold_lines : Bytes → List Bytes → List Bytes
fold_lines last [] = last ∷ []
fold_lines last (physical ∷ lines) =
    let joined = fold_lines (last ++ physical) lines in
    let opened = fold_lines physical lines in
    if is_blank physical then last ∷ [] else if is_folded physical then joined else last ∷ opened

-- The loop of `header_lines`, from its start.
unfoldable pub logical_lines : List Bytes → List Bytes
unfolding fold_lines
logical_lines [] = []
logical_lines (physical ∷ lines) = if is_blank physical then [] else fold_lines physical lines

unfoldable pub header_lines : Bytes → List Bytes
unfolding split_lines logical_lines
header_lines header = logical_lines (split_lines header)

-- `line.split(b":", 1)[0]`
unfoldable pub before_colon : Bytes → Bytes
before_colon [] = []
before_colon (c ∷ line) = let rest = c ∷ before_colon line in if c == b':' then [] else rest

-- The bytes that `strip()` takes off: blank, and HT, LF, VT, FF and CR
abbrev pub is_space : ℕ → Bool
is_space c = c == 0x20 || c == 9 || c == 10 || c == 11 || c == 12 || c == 13

unfoldable pub strip_left : Bytes → Bytes
strip_left [] = []
strip_left (c ∷ text) = if is_space c then strip_left text else c ∷ text

unfoldable pub strip_right : Bytes → Bytes
strip_right [] = []
strip_right (c ∷ text) =
    let rest = strip_right text in if is_space c && rest == [] then [] else c ∷ rest

-- `field`, the name of a header line
unfoldable pub field_name : Bytes → Bytes
unfolding before_colon strip_left strip_right
field_name line = upper (strip_right (strip_left (before_colon line)))

-- `line.endswith(b"\n")`
unfoldable pub ends_line : Bytes → Bool
ends_line [] = false
ends_line (c ∷ []) = c == 10
ends_line (c ∷ d ∷ line) = ends_line (d ∷ line)

-- `(field in wanted) != invert`
abbrev pub is_kept : List Bytes → Bool → Bytes → Bool
is_kept wanted invert line =
    if invert then not (contains wanted (field_name line)) else contains wanted (field_name line)

-- The loop of `filter_header`, and the blank line behind it.
unfoldable pub keep_lines : List Bytes → Bool → List Bytes → Bytes
unfolding field_name ends_line
keep_lines wanted invert [] = 13 ∷ 10 ∷ []
keep_lines wanted invert (line ∷ lines) =
    let rest = keep_lines wanted invert lines in
    if is_kept wanted invert line
    then line ++ (if ends_line line then [] else 13 ∷ 10 ∷ []) ++ rest
    else rest

unfoldable pub filter_header : Bytes → List Bytes → Bool → Bytes
unfolding header_lines keep_lines
filter_header header names invert = keep_lines (map upper names) invert (header_lines header)

-- `attr.section`
pub data Section : Type 0 where
  whole header text header_fields header_fields_not : Section

-- `attr.section`, `attr.fields` and `attr.partial` of a `FetchAttr`
pub record FetchAttr : Type 0 where
  pub section : Section
  pub fields : List Bytes
  pub partial : Option (ℕ × ℕ)

-- `data` before it is cut to the partial range
unfoldable pub section_data : Bytes → Section → List Bytes → Bytes
unfolding split_message filter_header
section_data raw whole fields = raw
section_data raw header fields = (split_message raw).0
section_data raw text fields = (split_message raw).1
section_data raw header_fields fields = filter_header (split_message raw).0 fields false
section_data raw header_fields_not fields = filter_header (split_message raw).0 fields true

unfoldable pub section_bytes : Bytes → FetchAttr → Bytes
unfolding section_data
section_bytes raw attr =
    let content = section_data raw attr.section attr.fields in
    elim attr.partial [ none ↦ content | some (offset, count) ↦ take count (drop offset content) ]
