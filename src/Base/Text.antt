-- ===== src/Base/Text.antt =====
-- Bytes and ASCII text: lists of code points.
use Prim.Native.Nat.{ℕ, ◌+◌, ◌-◌}
use Prim.Native.Char.{code}
use Prim.Native.String.{String}
use mathlib.Core.Bool.{Bool, ◌&&◌}
use mathlib.Core.List.{List, [], ◌∷◌, map}
use imap_work_trial.Base.Tests.{leb, if◌then◌else◌}

abbrev pub Bytes : Type 0
Bytes = List ℕ

abbrev pub codes : String → Bytes
codes String.[] = []
codes (String.◌∷◌ c s) = code c ∷ codes s

-- `ch.upper()` and `ch.lower()` on ASCII
unfoldable pub to_upper : ℕ → ℕ
to_upper c = if leb b'a' c && leb c b'z' then c - 32 else c

unfoldable pub to_lower : ℕ → ℕ
to_lower c = if leb b'A' c && leb c b'Z' then c + 32 else c

abbrev pub upper : Bytes → Bytes
upper = map to_upper

abbrev pub lower : Bytes → Bytes
lower = map to_lower

-- `ch.isdigit()` on ASCII
unfoldable pub is_digit : ℕ → Bool
is_digit c = leb b'0' c && leb c b'9'
