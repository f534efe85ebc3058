-- ===== src/Responses/Lines.antt =====
-- imapgw/responses.py: a text that a client supplied cannot end a response line, and a quoted string
-- is read back by imapgw/parser.py.
use imap_work_trial.Base.{
  ℕ, ◌≡◌, refl, ◌==◌, nat_eq, list_eq, leb, Bool, true, false, not, ◌&&◌, any, all, Bytes, codes,
  Bool-cases, Option, none, some, [], ◌∷◌, ◌++◌, append_assoc, arith, inl, inr,
}
use imap_work_trial.Parser.Tokens.{ok}
use imap_work_trial.Parser.Lexer.{read_quoted}
use imap_work_trial.Parser.Frames.{all_bytes}
use imap_work_trial.Parser.Print.{escape, is_quotable, read_quoted-escape}
use imap_work_trial.Responses.Encode.{
  crlf, clean_char, clean, replace, clean_code, bracketed, tagged, untagged, untagged_ok, bye,
  continuation, is_unquotable, quoted,
}

-- No control character, so neither CR nor LF.
abbrev pub is_text : ℕ → Bool
is_text c = leb 0x20 c && not (c == 0x7f)

-- One line of text, with CRLF at its end and nowhere else.
abbrev pub IsLine : Bytes → Type 0
IsLine bs = (body : Bytes) × (bs ≡ body ++ crlf) × (all is_text body ≡ true)

module _ (p : ℕ → Bool) where
  all-append : (xs ys : Bytes) → all p xs ≡ true → all p ys ≡ true → all p (xs ++ ys) ≡ true
  all-append [] ys hx hy = hy
  all-append (x ∷ xs) ys hx hy = ground (arith, all-append xs ys)

  all-replace :
      (c : ℕ) (by xs : Bytes) → all p by ≡ true → all p xs ≡ true → all p (replace c by xs) ≡ true
  unfolding replace
  all-replace c by [] hb hx = refl
  all-replace c by (x ∷ xs) hb hx = elim (Bool-cases (x == c)) [
    | inl hit ↦ rw hit (all-append by (replace c by xs) hb (all-replace c by xs hb (ground arith)))
    | inr miss ↦ rw miss (
        all-append (x ∷ []) (replace c by xs) (ground arith)
          (all-replace c by xs hb (ground arith)))
  ]

text-clean : (text : Bytes) → all is_text (clean text) ≡ true
unfolding clean clean_char
text-clean [] = refl
text-clean (c ∷ text) = ground (arith, text-clean text)

text-bracketed : (code : Option Bytes) → all is_text (bracketed (clean_code code)) ≡ true
unfolding bracketed clean_code
text-bracketed none = refl
text-bracketed (some code) = go (replace b']' (b')' ∷ []) (replace b'[' (b'(' ∷ []) (clean code))) (
    all-replace is_text b']' (b')' ∷ []) (replace b'[' (b'(' ∷ []) (clean code)) refl
      (all-replace is_text b'[' (b'(' ∷ []) (clean code) refl (text-clean code)))
  where
    go : (c : Bytes) → all is_text c ≡ true → all is_text (bracketed (some c)) ≡ true
    go [] h = refl
    go (x ∷ c) h = all-append is_text (b'[' ∷ x ∷ c) (codes "] ") (ground arith) refl

-- A tagged response is one line whatever tag, text and code are given, if the status is text.
pub tagged-IsLine :
    (tag status text : Bytes) (code : Option Bytes)
    → all is_text status ≡ true
    → IsLine (tagged tag status text code)
unfolding tagged
tagged-IsLine tag status text code h = (
  clean tag ++ (0x20 ∷ status ++ 0x20 ∷ bracketed (clean_code code)) ++ clean text,
  refl,
  all-append is_text (clean tag ++ middle) (clean text)
      (all-append is_text (clean tag) middle (text-clean tag) (
        all-append is_text (0x20 ∷ status) (0x20 ∷ bracketed (clean_code code)) h
          (text-bracketed code)))
      (text-clean text),
)
  where
    middle : Bytes
    middle = 0x20 ∷ status ++ 0x20 ∷ bracketed (clean_code code)

-- So are the untagged responses, the greeting, the farewell and the continuation request.
pub untagged-IsLine :
    (text : Bytes) (code : Option Bytes)
    → IsLine (untagged text)
      × IsLine (untagged_ok text code)
      × IsLine (bye text)
      × IsLine (continuation text)
unfolding untagged untagged_ok bye continuation
untagged-IsLine text code = (
  (codes "* " ++ clean text, refl, text-clean text),
  (
    codes "* OK " ++ bracketed (clean_code code) ++ clean text,
    refl,
    all-append is_text (codes "* OK " ++ bracketed (clean_code code)) _ (text-bracketed code)
        (text-clean text),
  ),
  (codes "* BYE " ++ clean text, refl, text-clean text),
  (codes "+ " ++ clean text, refl, text-clean text),
)

-- The two replacements of `quoted` escape as one pass does.
replace-escape :
    (raw : Bytes)
    → replace b'"' (b'\\' ∷ b'"' ∷ []) (replace b'\\' (b'\\' ∷ b'\\' ∷ []) raw) ≡ escape raw
unfolding replace escape
replace-escape [] = refl
replace-escape (c ∷ raw) = ground (arith, replace-escape raw)

quotable_any :
    (value : Bytes) → all_bytes is_quotable value ≡ true → any is_unquotable value ≡ false
quotable_any [] h = refl
quotable_any (c ∷ value) h = ground (arith, quotable_any value)

-- A value of ASCII text without control characters is quoted so that the tokenizer's `_read_quoted` gets it back, and what
-- follows it.
pub quoted-read :
    (value rest : Bytes)
    → all_bytes is_quotable value ≡ true
    → (body : Bytes) × (quoted value ≡ b'"' ∷ body)
      × (read_quoted (body ++ rest) ≡ ok (value, rest))
unfolding quoted
quoted-read value rest h = (
  escape value ++ b'"' ∷ [],
  rw (quotable_any value h, replace-escape value) refl,
  rw (append_assoc) (read_quoted-escape value rest h),
)
