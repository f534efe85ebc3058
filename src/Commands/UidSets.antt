-- ===== src/Commands/UidSets.antt =====
-- imapgw/commands.py: `_uid_set`, and that its ranges hold the UIDs and nothing else.
use imap_work_trial.Base.{
  ℕ, ◌+◌, ◌≤◌, ◌≡◌, refl, ◌∙◌, ◌==◌, nat_eq, leb, ◌&&◌, ◌||◌, any, contains, sorted,
  contains-sorted, decimal, Bytes, if◌then◌else◌, List, [], ◌∷◌, ◌++◌, arith,
}
use imap_work_trial.Fetch.Sequences.{covers}

-- The loop of `_uid_set`, with `start` and `prev` of the run so far, and the run behind the loop.
unfoldable pub runs_from : ℕ → ℕ → List ℕ → List (ℕ × ℕ)
runs_from start prev [] = (start, prev) ∷ []
runs_from start prev (u ∷ uids) =
    let longer = runs_from start u uids in
    let others = runs_from u u uids in if u == prev + 1 then longer else (start, prev) ∷ others

unfoldable pub runs : List ℕ → List (ℕ × ℕ)
unfolding runs_from
runs [] = []
runs (u ∷ uids) = runs_from u u uids

-- `f"{start}:{prev}" if start != prev else str(start)`
unfoldable pub show_run : ℕ × ℕ → Bytes
show_run r = if r.0 == r.1 then decimal r.0 else decimal r.0 ++ b':' ∷ decimal r.1

-- `",".join`
unfoldable pub show_runs : List (ℕ × ℕ) → Bytes
unfolding show_run
show_runs [] = []
show_runs (r ∷ []) = show_run r
show_runs (r ∷ next ∷ rs) = show_run r ++ b',' ∷ show_runs (next ∷ rs)

unfoldable pub uid_set : List ℕ → Bytes
unfolding runs show_runs sorted
uid_set uids = show_runs (runs (sorted uids))

runs_from_lem :
    (start prev n : ℕ) (uids : List ℕ)
    → start ≤ prev
    → any (λ (r : ℕ × ℕ). leb r.0 n && leb n r.1) (runs_from start prev uids)
      ≡ (leb start n && leb n prev || contains uids n)
unfolding runs_from
runs_from_lem start prev n [] h = refl
runs_from_lem start prev n (u ∷ uids) h =
    ground (arith, runs_from_lem start u n uids, runs_from_lem u u n uids)

covers-runs : (uids : List ℕ) (n : ℕ) → covers (record { ranges = runs uids }) n ≡ contains uids n
unfolding covers runs
covers-runs [] n = refl
covers-runs (u ∷ uids) n = runs_from_lem u u n uids (omega arith) ∙ ground arith

-- The ranges that `_uid_set` makes of UIDs, in whatever order, hold these UIDs and no other number.
pub covers-runs_of_sorted :
    (uids : List ℕ) (n : ℕ) → covers (record { ranges = runs (sorted uids) }) n ≡ contains uids n
covers-runs_of_sorted uids n = covers-runs (sorted uids) n ∙ contains-sorted n uids
