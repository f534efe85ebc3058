-- ===== src/Commands/Wildcards.antt =====
-- imapgw/commands.py: `_wildcard_match`. A position in the pattern or in the name is what is left from
-- there on, and the loop runs on fuel.
use imap_work_trial.Base.{
  ℕ, zero, suc, ◌+◌, ◌*◌, ◌==◌, nat_eq, list_eq, Bytes, codes, lower, to_lower, length, Bool, true,
  false, ◌||◌, if◌then◌else◌, Option, none, some, [], ◌∷◌, ◌≡◌, refl,
}

abbrev pub is_star : ℕ → Bool
is_star c = c == b'*'

-- `ch in "*%"`
abbrev pub is_wild : ℕ → Bool
is_wild c = c == b'*' || c == b'%'

-- The loop that collapses wildcards; the flag says whether the last character put out is `*`.
unfoldable pub collapse : Bool → Bytes → Bytes
collapse last [] = []
collapse last (c ∷ pattern) =
    let behind = collapse true pattern in
    let literal = c ∷ collapse false pattern in
    if is_wild c then (if last then behind else b'*' ∷ behind) else literal

-- `while pi < len(p) and p[pi] == "*"`
unfoldable pub skip_stars : Bytes → Bytes
skip_stars [] = []
skip_stars (c ∷ p) = let rest = skip_stars p in if is_star c then rest else c ∷ p

-- The last `*`, once there is one: the pattern behind it, and the name from where it is matched.
abbrev pub Star : Type 0
Star = Option (Bytes × Bytes)

-- The name's next character does not fit: the last `*` takes one character more.
unfoldable pub backtrack : Star → (Bytes → Bytes → Star → Option Bool) → Option Bool
backtrack none onward = some false
backtrack (some (p, [])) onward = some false
backtrack (some (p, c ∷ name)) onward = onward p name (some (p, name))

-- One round of the loop, on a name that is not at its end.
unfoldable pub step : Bytes → ℕ → Bytes → Star → (Bytes → Bytes → Star → Option Bool) → Option Bool
unfolding backtrack
step [] c name star onward = backtrack star onward
step (d ∷ p) c name star onward =
    if is_star d
    then onward p (c ∷ name) (some (p, c ∷ name))
    else if d == c
    then onward p name star
    else backtrack star onward

unfoldable pub match_loop : ℕ → Bytes → Bytes → Star → Option Bool
unfolding step skip_stars
match_loop zero p name star = none
match_loop (suc f) p [] star = some (skip_stars p == [])
match_loop (suc f) p (c ∷ name) star = step p c name star (match_loop f)

-- More rounds than the loop can take (Commands.Globs).
abbrev pub rounds : Bytes → Bytes → ℕ
rounds p name = length p + (length name + 1) * (length p + 1) + 1

unfoldable pub wildcard_match : Bool → Bytes → Bytes → Option Bool
unfolding collapse match_loop to_lower
wildcard_match ignore_case pattern name =
    let folded = if ignore_case then lower pattern else pattern in
    let text = if ignore_case then lower name else name in
    let p = collapse false folded in match_loop (rounds p text) p text none

match_lem :
    (wildcard_match true (codes "%n*%x") (codes "INBOX") ≡ some true)
    × (wildcard_match false (codes "*ab*c") (codes "aabbabc") ≡ some true)
    × (wildcard_match false (codes "S%t") (codes "Spam") ≡ some false)
unfolding wildcard_match collapse match_loop step backtrack skip_stars to_lower
match_lem = (refl, refl, refl)
