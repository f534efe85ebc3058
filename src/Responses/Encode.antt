-- ===== src/Responses/Encode.antt =====
-- imapgw/responses.py, its encoders. A text is the list of the bytes of its UTF-8 form: `clean` and
-- the encoders change bytes below 0x80 only, so that they do on the bytes what they do on the text.
use imap_work_trial.Base.{
  ℕ, ◌==◌, nat_eq, list_eq, leb, Bool, not, ◌&&◌, ◌||◌, if◌then◌else◌, length, any, all, map, Bytes,
  codes, decimal, Option, none, some, List, [], ◌∷◌, ◌++◌,
}

abbrev pub crlf : Bytes
crlf = 13 ∷ 10 ∷ []

-- `" "` for a control character
unfoldable pub clean_char : ℕ → ℕ
clean_char c = if leb 0x20 c && not (c == 0x7f) then c else 0x20

unfoldable pub clean : Bytes → Bytes
unfolding clean_char
clean text = map clean_char text

-- `raw.replace(c, by)` for one byte `c`
unfoldable pub replace : ℕ → Bytes → Bytes → Bytes
replace c by [] = []
replace c by (x ∷ xs) = (if x == c then by else x ∷ []) ++ replace c by xs

-- `_clean_code`
unfoldable pub clean_code : Option Bytes → Option Bytes
unfolding clean replace
clean_code none = none
clean_code (some code) = some (replace b']' (b')' ∷ []) (replace b'[' (b'(' ∷ []) (clean code)))

-- `f"[{code}] "` for a code that is not empty
unfoldable pub bracketed : Option Bytes → Bytes
bracketed none = []
bracketed (some []) = []
bracketed (some (c ∷ code)) = b'[' ∷ (c ∷ code) ++ codes "] "

unfoldable pub tagged : Bytes → Bytes → Bytes → Option Bytes → Bytes
unfolding clean clean_code bracketed
tagged tag status text code =
    (clean tag ++ (0x20 ∷ status ++ 0x20 ∷ bracketed (clean_code code))) ++ clean text ++ crlf

unfoldable pub untagged : Bytes → Bytes
unfolding clean
untagged text = codes "* " ++ clean text ++ crlf

unfoldable pub untagged_ok : Bytes → Option Bytes → Bytes
unfolding clean clean_code bracketed
untagged_ok text code = (codes "* OK " ++ bracketed (clean_code code)) ++ clean text ++ crlf

unfoldable pub bye : Bytes → Bytes
unfolding clean
bye text = codes "* BYE " ++ clean text ++ crlf

unfoldable pub continuation : Bytes → Bytes
unfolding clean
continuation text = codes "+ " ++ clean text ++ crlf

unfoldable pub literal : Bytes → Bytes
unfolding decimal
literal content = b'{' ∷ decimal (length content) ++ b'}' ∷ crlf ++ content

-- A byte that no quoted string can hold.
abbrev pub is_unquotable : ℕ → Bool
is_unquotable b = b == 0x0d || b == 0x0a || b == 0x00 || leb 0x80 b

unfoldable pub quoted : Bytes → Bytes
unfolding replace literal
quoted raw =
    if any is_unquotable raw
    then literal raw
    else b'"' ∷ replace b'"' (b'\\' ∷ b'"' ∷ []) (replace b'\\' (b'\\' ∷ b'\\' ∷ []) raw)
      ++ b'"' ∷ []

unfoldable pub nstring : Option Bytes → Bytes
unfolding quoted
nstring none = codes "NIL"
nstring (some value) = quoted value

-- `ch.isalnum() or ch in "-_."`, on ASCII
abbrev pub is_safe : ℕ → Bool
is_safe c =
    leb b'a' c && leb c b'z'
    || leb b'A' c && leb c b'Z'
    || leb b'0' c && leb c b'9'
    || c == b'-'
    || c == b'_'
    || c == b'.'

unfoldable pub atom_or_quoted : Bytes → Bytes
unfolding quoted
atom_or_quoted value = if not (value == []) && all is_safe value then value else quoted value

-- `sep.join(items)`
unfoldable pub join : Bytes → List Bytes → Bytes
join sep [] = []
join sep (item ∷ []) = item
join sep (item ∷ next ∷ items) = item ++ sep ++ join sep (next ∷ items)

unfoldable pub list_response : List Bytes → Option Bytes → Bytes → Bytes
unfolding join quoted atom_or_quoted
list_response attributes delimiter name =
    codes "* LIST ("
    ++ join (0x20 ∷ []) attributes
    ++ codes ") "
    ++ nstring delimiter
    ++ 0x20 ∷ atom_or_quoted name
    ++ crlf

unfoldable pub fetch_response : ℕ → List Bytes → Bytes
unfolding decimal join
fetch_response seq items =
    codes "* " ++ decimal seq ++ codes " FETCH (" ++ join (0x20 ∷ []) items ++ b')' ∷ crlf

unfoldable pub exists : ℕ → Bytes
unfolding decimal
exists count = codes "* " ++ decimal count ++ codes " EXISTS" ++ crlf

unfoldable pub recent : ℕ → Bytes
unfolding decimal
recent count = codes "* " ++ decimal count ++ codes " RECENT" ++ crlf

unfoldable pub expunge : ℕ → Bytes
unfolding decimal
expunge seq = codes "* " ++ decimal seq ++ codes " EXPUNGE" ++ crlf

unfoldable pub capability_line : List Bytes → Bytes
unfolding join
capability_line capabilities = codes "* CAPABILITY " ++ join (0x20 ∷ []) capabilities ++ crlf
