-- ===== src/Examples/Bytes.antt =====
-- Runs of the models of imapgw/bytecache.py and imapgw/responses.py at concrete inputs.
use mathlib.Core.List.{foldl}
use imap_work_trial.Base.{
  ℕ, ◌+◌, ◌-◌, ◌<◌, ◌≡◌, refl, nat_eq, Bytes, codes, length, lookup, take, drop, none, some, List,
  [], ◌∷◌, ◌++◌, arith,
}
use imap_work_trial.ByteCache.Defs.{ByteCache, init, put, discard, move_to_end}
use imap_work_trial.ByteCache.Size.{total, IsValid, IsExact}
use imap_work_trial.ByteCache.Reads.{
  Call, get_call, put_call, step, calls-IsValid, lookup-put, put-drop, put-leak,
}
use imap_work_trial.Parser.Tokens.{ok}
use imap_work_trial.Parser.Lexer.{read_quoted}
use imap_work_trial.Responses.Encode.{tagged, quoted}
use imap_work_trial.Responses.Lines.{IsLine, tagged-IsLine, quoted-read}

-- Keys are numbers here.
abbrev cache : ByteCache ℕ
cache = record { max_bytes = 4; items = (1, 7 ∷ 7 ∷ []) ∷ (2, 8 ∷ []) ∷ []; size = 3 }

cache-IsValid : IsValid cache
unfolding total lookup
cache-IsValid = record { held = omega arith; bounded = omega arith; distinct = (refl, (refl, tt)) }

cache-IsExact : IsExact cache
unfolding total
cache-IsExact = refl

abbrev calls : List (Call ℕ)
calls = put_call 1 (7 ∷ 7 ∷ []) ∷ get_call 1 ∷ put_call 1 (9 ∷ []) ∷ []

calls-IsValid_example : IsValid (foldl step (init 4) calls)
calls-IsValid_example = calls-IsValid 4 calls

abbrev pair : Bytes
pair = 5 ∷ 5 ∷ []

lookup-put_example : lookup 3 (put cache 3 pair).items ≡ some pair
lookup-put_example = lookup-put cache 3 pair cache-IsValid cache-IsExact (omega arith)

put-drop_example :
    (n : ℕ) × ((put cache 3 pair).items ≡ drop n (move_to_end 3 pair cache.items))
    × ((j : ℕ)
        → j < n
        → cache.max_bytes
          < (discard cache 3).size + length pair - total (take j (move_to_end 3 pair cache.items)))
put-drop_example = put-drop cache 3 pair cache-IsValid (omega arith)

abbrev long : Bytes
long = 1 ∷ 2 ∷ 3 ∷ 4 ∷ 5 ∷ []

put-leak_example :
    ((put cache 1 long).size ≡ total (put cache 1 long).items + 2)
    × (lookup 1 (put cache 1 long).items ≡ none)
unfolding lookup
put-leak_example = put-leak cache 1 (7 ∷ 7 ∷ []) long cache-IsValid cache-IsExact refl (omega arith)

tagged-IsLine_example :
    IsLine (tagged (codes "a1") (codes "BAD") (10 ∷ codes "* OK forged") (some (codes "X]")))
tagged-IsLine_example =
    tagged-IsLine (codes "a1") (codes "BAD") (10 ∷ codes "* OK forged") (some (codes "X]")) refl

quoted-read_example :
    (body : Bytes) × (quoted (codes "a\"b") ≡ b'"' ∷ body)
    × (read_quoted (body ++ codes " c") ≡ ok (codes "a\"b", codes " c"))
quoted-read_example = quoted-read (codes "a\"b") (codes " c") refl
