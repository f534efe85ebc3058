-- ===== src/Fetch/Slices.antt =====
-- imapgw/fetch.py: slicing loses and invents no byte of a message.
use mathlib.Core.Path.{subst}
use native.Mathlib.Nat.{suc-add}
use imap_work_trial.Base.{
  ℕ, zero, suc, ◌+◌, ◌≡◌, refl, sym, ap, ◌∙◌, true, false, not, ◌||◌, ◌==◌, all, All, map, nat_eq,
  list_eq, ==_iff, Bool, Bool-cases, Option-cases, take, drop, Bytes, some, List, [], ◌∷◌, ◌++◌,
  append_assoc, append-nil, arith, inl, inr,
}
use imap_work_trial.Fetch.Sections.{
  strip_prefix, cut_behind, split_message, extend_first, split_lines, is_blank, is_folded,
  fold_lines, logical_lines, header_lines, Section, section_data, section_bytes,
}

strip_prefix-append :
    (prefix text body : Bytes) → strip_prefix prefix text ≡ some body → prefix ++ body ≡ text
unfolding strip_prefix
strip_prefix-append [] text body h = ground arith
strip_prefix-append (p ∷ prefix) [] body h = absurd (ground arith)
strip_prefix-append (p ∷ prefix) (c ∷ text) body h =
    ground (arith, ==_iff p c, strip_prefix-append prefix text body)

cut_behind-append :
    (mark raw front back : Bytes) → cut_behind mark raw ≡ some (front, back) → front ++ back ≡ raw
unfolding cut_behind
cut_behind-append mark [] front back h = absurd (ground arith)
cut_behind-append mark (c ∷ raw) front back h = elim (Option-cases (strip_prefix mark (c ∷ raw))) [
  | inr (body, hit) ↦ ground (arith, strip_prefix-append mark (c ∷ raw) body hit)
  | inl miss ↦ elim (Option-cases (cut_behind mark raw)) [
    | inl out ↦ absurd (ground arith)
    | inr (r, found) ↦ ground (arith, cut_behind-append mark raw r.0 r.1 found)
  ]
]

-- The header and the body that a message is split into make up the message.
pub split_message-append : (raw : Bytes) → (split_message raw).0 ++ (split_message raw).1 ≡ raw
unfolding split_message
split_message-append raw = elim (Option-cases (cut_behind (13 ∷ 10 ∷ 13 ∷ 10 ∷ []) raw)) [
  | inr (r, hit) ↦
      rw (hit, split_message) (cut_behind-append (13 ∷ 10 ∷ 13 ∷ 10 ∷ []) raw r.0 r.1 hit)
  | inl miss ↦ elim (Option-cases (cut_behind (10 ∷ 10 ∷ []) raw)) [
    | inr (r, hit) ↦
        rw (miss, hit, split_message) (cut_behind-append (10 ∷ 10 ∷ []) raw r.0 r.1 hit)
    | inl miss' ↦ rw (miss, miss', split_message) (append-nil raw)
  ]
]

-- All lines, one behind the other.
abbrev pub concat : List Bytes → Bytes
concat [] = []
concat (line ∷ lines) = line ++ concat lines

-- A byte that ends no line.
abbrev pub is_inner : ℕ → Bool
is_inner c = not (c == 10 || c == 13)

-- A lone CR is not the first byte of a CR LF.
abbrev pub Lone : Bytes → Type 0
Lone [] = Unit
Lone (c ∷ rest) = (c == 10) ≡ false

-- The lines of a text: a line ends behind LF, CR LF or a lone CR, or where the text ends.
pub data IsSplit : Bytes → List Bytes → Type 0 where
  no_line : IsSplit [] []
  open_line :
      (c : ℕ) (body : Bytes) → all is_inner (c ∷ body) ≡ true → IsSplit (c ∷ body) ((c ∷ body) ∷ [])
  lf_line :
      (body rest : Bytes) (lines : List Bytes)
      → all is_inner body ≡ true
      → IsSplit rest lines
      → IsSplit (body ++ 10 ∷ rest) ((body ++ 10 ∷ []) ∷ lines)
  crlf_line :
      (body rest : Bytes) (lines : List Bytes)
      → all is_inner body ≡ true
      → IsSplit rest lines
      → IsSplit (body ++ 13 ∷ 10 ∷ rest) ((body ++ 13 ∷ 10 ∷ []) ∷ lines)
  cr_line :
      (body rest : Bytes) (lines : List Bytes)
      → all is_inner body ≡ true
      → Lone rest
      → IsSplit rest lines
      → IsSplit (body ++ 13 ∷ rest) ((body ++ 13 ∷ []) ∷ lines)

extend_first-IsSplit :
    (c : ℕ) (text : Bytes) (lines : List Bytes)
    → is_inner c ≡ true
    → IsSplit text lines
    → IsSplit (c ∷ text) (extend_first c lines)
unfolding extend_first
extend_first-IsSplit c _ _ p no_line = open_line c [] (ground (arith, p))
extend_first-IsSplit c _ _ p (open_line d body q) = open_line c (d ∷ body) (ground (arith, p, q))
extend_first-IsSplit c _ _ p (lf_line body rest lines q l) =
    lf_line (c ∷ body) rest lines (ground (arith, p, q)) l
extend_first-IsSplit c _ _ p (crlf_line body rest lines q l) =
    crlf_line (c ∷ body) rest lines (ground (arith, p, q)) l
extend_first-IsSplit c _ _ p (cr_line body rest lines q lone l) =
    cr_line (c ∷ body) rest lines (ground (arith, p, q)) lone l

split_lines-IsSplit : (text : Bytes) → IsSplit text (split_lines text)
unfolding split_lines
split_lines-IsSplit [] = no_line
split_lines-IsSplit (c ∷ []) = elim (Bool-cases (is_inner c)) [
  | inl inner ↦ open_line c [] (ground (arith, inner))
  | inr ends ↦ elim (Bool-cases (c == 10)) [
    | inl lf ↦ rw ((==_iff c 10).0 lf) (lf_line [] [] [] refl no_line)
    | inr other ↦
        let cr : c ≡ 13 = ground (arith, ==_iff c 13) in rw cr (cr_line [] [] [] refl tt no_line)
  ]
]
split_lines-IsSplit (c ∷ d ∷ rest) = elim (Bool-cases (is_inner c)) [
  | inl inner ↦
      let whole = extend_first-IsSplit c (d ∷ rest) _ inner (split_lines-IsSplit (d ∷ rest)) in
      let same : split_lines (c ∷ d ∷ rest) ≡ extend_first c (split_lines (d ∷ rest)) =
        ground (arith, inner) in
      subst (λ ls. IsSplit (c ∷ d ∷ rest) ls) (sym same) whole
  | inr ends ↦ elim (Bool-cases (c == 10)) [
    | inl lf ↦
        rw ((==_iff c 10).0 lf) (lf_line [] (d ∷ rest) _ refl (split_lines-IsSplit (d ∷ rest)))
    | inr other ↦
        let cr : c ≡ 13 = ground (arith, ==_iff c 13) in
        rw cr (elim (Bool-cases (d == 10)) [
          | inl lf ↦ rw ((==_iff d 10).0 lf) (crlf_line [] rest _ refl (split_lines-IsSplit rest))
          | inr lone ↦
              rw (lone) (cr_line [] (d ∷ rest) _ refl lone (split_lines-IsSplit (d ∷ rest)))
        ])
  ]
]

-- The next line, if there is one, is not a folded one.
abbrev pub Opens : List Bytes → Type 0
Opens [] = Unit
Opens (line ∷ lines) = is_folded line ≡ false

-- The physical lines of a header, grouped: a group is a line and the folded lines behind it, as many
-- as there are, and a blank line ends the groups.
pub data Groups : List Bytes → List (List Bytes) → Type 0 where
  nothing : Groups [] []
  blank : (line : Bytes) (lines : List Bytes) → is_blank line ≡ true → Groups (line ∷ lines) []
  group :
      (first : Bytes) (folds lines : List Bytes) (groups : List (List Bytes))
      → is_blank first ≡ false
      → All (λ l. is_folded l ≡ true) folds
      → Opens lines
      → Groups lines groups
      → Groups (first ∷ folds ++ lines) ((first ∷ folds) ∷ groups)

folded_not_blank : (line : Bytes) → is_folded line ≡ true → is_blank line ≡ false
folded_not_blank [] h = absurd (ground arith)
folded_not_blank (c ∷ line) h = ground arith

-- The groups of the lines behind a line, whose own folded lines are the first ones.
fold_lines_lem :
    (last : Bytes) (lines : List Bytes)
    → (folds rest : List Bytes) × (groups : List (List Bytes)) × (folds ++ rest ≡ lines)
      × All (λ l. is_folded l ≡ true) folds
      × Opens rest
      × Groups rest groups
      × (fold_lines last lines ≡ (last ++ concat folds) ∷ map concat groups)
unfolding fold_lines
fold_lines_lem last [] =
    ([], [], [], refl, tt, tt, nothing, ap (λ l. l ∷ []) (sym (append-nil last)))
fold_lines_lem last (physical ∷ lines) = elim (Bool-cases (is_blank physical)) [
  | inl stops ↦ (
    [],
    physical ∷ lines,
    [],
    refl,
    tt,
    ground (arith, folded_not_blank physical),
    blank physical lines stops,
    rw (stops, fold_lines) (ap (λ l. l ∷ []) (sym (append-nil last))),
  )
  | inr goes ↦ elim (Bool-cases (is_folded physical)) [
    | inl folds ↦
        let (fs, rest, groups, cut, all_fold, opens, g, same) =
          fold_lines_lem (last ++ physical) lines in
        (
          physical ∷ fs,
          rest,
          groups,
          ap (λ ls. physical ∷ ls) cut,
          (folds, all_fold),
          opens,
          g,
          rw (goes, folds, fold_lines)
              (same ∙ ap (λ l. l ∷ map concat groups) (append_assoc last physical (concat fs))),
        )
    | inr opens ↦
        let (fs, rest, groups, cut, all_fold, o, g, same) = fold_lines_lem physical lines in
        (
          [],
          physical ∷ lines,
          (physical ∷ fs) ∷ groups,
          refl,
          tt,
          opens,
          subst (λ ls. Groups (physical ∷ ls) ((physical ∷ fs) ∷ groups)) cut
              (group physical fs rest groups goes all_fold o g),
          rw (goes, opens, fold_lines)
              (ap (λ l. l ∷ fold_lines physical lines) (sym (append-nil last))
                ∙ ap (λ ls. (last ++ []) ∷ ls) same),
        )
  ]
]

logical_lines_lem :
    (lines : List Bytes)
    → (groups : List (List Bytes)) × Groups lines groups × (logical_lines lines ≡ map concat groups)
unfolding logical_lines
logical_lines_lem [] = ([], nothing, refl)
logical_lines_lem (physical ∷ lines) = elim (Bool-cases (is_blank physical)) [
  | inl stops ↦ ([], blank physical lines stops, rw (stops, logical_lines) refl)
  | inr goes ↦
      let (fs, rest, groups, cut, all_fold, o, g, same) = fold_lines_lem physical lines in
      (
        (physical ∷ fs) ∷ groups,
        subst (λ ls. Groups (physical ∷ ls) ((physical ∷ fs) ∷ groups)) cut
            (group physical fs rest groups goes all_fold o g),
        rw (goes, logical_lines) same,
      )
]

-- The physical lines of a header end behind each LF, CR LF and lone CR; its logical lines are the
-- groups of these up to the first blank line: each is a line and all the folded lines behind it,
-- terminators included.
pub header_lines-Groups :
    (header : Bytes)
    → (physical : List Bytes) × (groups : List (List Bytes)) × IsSplit header physical
      × Groups physical groups
      × (header_lines header ≡ map concat groups)
unfolding header_lines
header_lines-Groups header =
    let (groups, g, same) = logical_lines_lem (split_lines header) in
    (split_lines header, groups, split_lines-IsSplit header, g, same)

drop-nil : (n : ℕ) → drop {A = ℕ} n [] ≡ []
drop-nil zero = refl
drop-nil (suc n) = refl

take-nil : (n : ℕ) → take {A = ℕ} n [] ≡ []
take-nil zero = refl
take-nil (suc n) = refl

drop-add : (m n : ℕ) (xs : Bytes) → drop (m + n) xs ≡ drop n (drop m xs)
drop-add zero n xs = ap (λ k. drop k xs) (omega arith)
drop-add (suc m) n [] = rw suc-add (sym (drop-nil n))
drop-add (suc m) n (x ∷ xs) = rw suc-add (drop-add m n xs)

take-add : (m n : ℕ) (xs : Bytes) → take m xs ++ take n (drop m xs) ≡ take (m + n) xs
take-add zero n xs = ap (λ k. take k xs) (omega arith)
take-add (suc m) n [] = rw suc-add (take-nil n)
take-add (suc m) n (x ∷ xs) = rw suc-add (ap (◌∷◌ x) (take-add m n xs))

-- Two partial ranges of a section, the second where the first ends, give the bytes of the range
-- that they make up.
pub section_bytes-chunks :
    (raw : Bytes) (section : Section) (fields : List Bytes) (offset m n : ℕ)
    → section_bytes raw (record { section = section; fields = fields; partial = some (offset, m) })
        ++ section_bytes raw
            (record { section = section; fields = fields; partial = some (offset + m, n) })
      ≡ section_bytes raw
          (record { section = section; fields = fields; partial = some (offset, m + n) })
unfolding section_bytes
section_bytes-chunks raw section fields offset m n =
    rw (drop-add offset m (section_data raw section fields)) (take-add m n _)
