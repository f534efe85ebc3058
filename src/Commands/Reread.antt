-- ===== src/Commands/Reread.antt =====
-- imapgw/commands.py and imapgw/fetch.py: what `_uid_set` prints, `parse_sequence_set` reads back.
use imap_work_trial.Base.{
  insert_sorted, ℕ, ◌+◌, ◌≤◌, ◌≡◌, ◌≢◌, refl, ap, ◌∙◌, ◌==◌, nat_eq, list_eq, ==_iff, leb, true,
  false, all, contains, contains-append, All, sorted, decimal, digits-decimal, int-decimal,
  decimal-nonempty, is_digit, read_digits, Bytes, length, Bool-cases, List, [], ◌∷◌, ◌++◌, arith,
  inl, inr,
}
use imap_work_trial.Fetch.Sequences.{
  parsed, max_digits, split, partition, seq_number, ordered, parse_range, parse_ranges,
  parse_sequence_set,
}
use imap_work_trial.Commands.UidSets.{runs_from, runs, show_run, show_runs, uid_set}

split-append :
    (sep : ℕ) (item rest : Bytes)
    → contains item sep ≡ false
    → split sep (item ++ sep ∷ rest) ≡ (item, (split sep rest).0 ∷ (split sep rest).1)
unfolding split
split-append sep [] rest h = ground (arith, ==_iff sep sep)
split-append sep (c ∷ item) rest h = ground (arith, split-append sep item rest)

split-alone : (sep : ℕ) (item : Bytes) → contains item sep ≡ false → split sep item ≡ (item, [])
unfolding split
split-alone sep [] h = refl
split-alone sep (c ∷ item) h = ground (arith, split-alone sep item)

partition-append :
    (sep : ℕ) (before after : Bytes)
    → contains before sep ≡ false
    → partition sep (before ++ sep ∷ after) ≡ (before, true, after)
unfolding partition
partition-append sep [] after h = ground (arith, ==_iff sep sep)
partition-append sep (c ∷ before) after h = ground (arith, partition-append sep before after)

partition-alone :
    (sep : ℕ) (text : Bytes) → contains text sep ≡ false → partition sep text ≡ (text, false, [])
unfolding partition
partition-alone sep [] h = refl
partition-alone sep (c ∷ text) h = ground (arith, partition-alone sep text)

-- A byte that is no digit does not occur in a number.
contains-digits :
    (c : ℕ) (text : Bytes) → is_digit c ≡ false → all is_digit text ≡ true → contains text c ≡ false
contains-digits c [] h d = refl
contains-digits c (x ∷ text) h d = ground (arith, ==_iff x c, contains-digits c text)

-- A number from 1 on that `int` reads.
abbrev pub IsNumber : ℕ → Type 0
IsNumber n = (1 ≤ n) × (length (decimal n) ≤ max_digits)

seq_number-digits :
    (d : ℕ) (more : Bytes) (n : ℕ)
    → all is_digit (d ∷ more) ≡ true
    → read_digits 0 (d ∷ more) ≡ n
    → 1 ≤ n
    → length (d ∷ more) ≤ max_digits
    → seq_number (d ∷ more) ≡ parsed n
unfolding seq_number is_digit
seq_number-digits d more n digits value h short = ground arith

seq_number-decimal : (n : ℕ) → IsNumber n → seq_number (decimal n) ≡ parsed n
seq_number-decimal n h =
    let (d, more, e) = decimal-nonempty n in
    rw e (
      seq_number-digits d more n (rw e at (digits-decimal n)) (rw e at (int-decimal n)) h.0
        (rw e at h.1))

-- A run of UIDs.
abbrev pub IsRun : ℕ × ℕ → Type 0
IsRun r = IsNumber r.0 × IsNumber r.1 × (r.0 ≤ r.1)

parse_range-nonempty :
    (d : ℕ) (more : Bytes) (lo hi : ℕ)
    → partition b':' (d ∷ more) ≡ (decimal lo, true, decimal hi)
    → IsNumber lo
    → IsNumber hi
    → lo ≤ hi
    → parse_range (d ∷ more) ≡ parsed (lo, hi)
unfolding parse_range ordered
parse_range-nonempty d more lo hi e low high order =
    let (c, digits, nonempty) = decimal-nonempty hi in
    ground (arith, e, nonempty, seq_number-decimal lo low, seq_number-decimal hi high)

parse_range-number :
    (d : ℕ) (more : Bytes) (n : ℕ)
    → partition b':' (d ∷ more) ≡ (decimal n, false, [])
    → IsNumber n
    → parse_range (d ∷ more) ≡ parsed (n, n)
unfolding parse_range ordered
parse_range-number d more n e low = ground (arith, e, seq_number-decimal n low)

range_of_number :
    (text : Bytes) (d : ℕ) (more : Bytes) (n : ℕ)
    → text ≡ d ∷ more
    → partition b':' text ≡ (decimal n, false, [])
    → IsNumber n
    → parse_range text ≡ parsed (n, n)
range_of_number text d more n e p low = rw e (parse_range-number d more n (rw e at p) low)

range_of_pair :
    (text : Bytes) (d : ℕ) (more : Bytes) (lo hi : ℕ)
    → text ≡ d ∷ more
    → partition b':' text ≡ (decimal lo, true, decimal hi)
    → IsNumber lo
    → IsNumber hi
    → lo ≤ hi
    → parse_range text ≡ parsed (lo, hi)
range_of_pair text d more lo hi e p low high order =
    rw e (parse_range-nonempty d more lo hi (rw e at p) low high order)

no_digit : (n c : ℕ) → is_digit c ≡ false → contains (decimal n) c ≡ false
no_digit n c h = contains-digits c (decimal n) h (digits-decimal n)

colon : is_digit b':' ≡ false
unfolding is_digit
colon = refl

comma : is_digit b',' ≡ false
unfolding is_digit
comma = refl

parse_range-show : (r : ℕ × ℕ) → IsRun r → parse_range (show_run r) ≡ parsed r
unfolding show_run
parse_range-show (lo, hi) (low, high, order) =
    let (d, more, e) = decimal-nonempty lo in
    elim (Bool-cases (lo == hi)) [
      | inl same ↦
          rw (same, show_run)
            (range_of_number (decimal lo) d more lo e
                (partition-alone b':' (decimal lo) (no_digit lo b':' colon)) low
              ∙ ap (λ k. parsed (lo, k)) ((==_iff lo hi).0 same))
      | inr wide ↦
          rw (wide, show_run)
            (range_of_pair (decimal lo ++ b':' ∷ decimal hi) d (more ++ b':' ∷ decimal hi) lo hi
              (ap (λ t. t ++ b':' ∷ decimal hi) e)
              (partition-append b':' (decimal lo) (decimal hi) (no_digit lo b':' colon)) low high
              order)
    ]

show_run-comma : (r : ℕ × ℕ) → contains (show_run r) b',' ≡ false
unfolding show_run
show_run-comma (lo, hi) = ground (
  arith,
  no_digit lo b',' comma,
  no_digit hi b',' comma,
  contains-append (decimal lo) (b':' ∷ decimal hi) b',',
)

parse_ranges-show :
    (r : ℕ × ℕ) (rs : List (ℕ × ℕ))
    → All IsRun (r ∷ rs)
    → parse_ranges (split b',' (show_runs (r ∷ rs))).0 (split b',' (show_runs (r ∷ rs))).1
      ≡ parsed (r ∷ rs)
unfolding show_runs parse_ranges
parse_ranges-show r [] h =
    rw (split-alone b',' (show_run r) (show_run-comma r)) (ground (arith, parse_range-show r h.0))
parse_ranges-show r (next ∷ rs) h =
    rw (split-append b',' (show_run r) (show_runs (next ∷ rs)) (show_run-comma r))
      (ground (arith, parse_range-show r h.0, parse_ranges-show next rs h.1))

runs_from-IsRun :
    (start prev : ℕ) (uids : List ℕ)
    → IsRun (start, prev)
    → All IsNumber uids
    → All IsRun (runs_from start prev uids)
unfolding runs_from
runs_from-IsRun start prev [] h g = (h, tt)
runs_from-IsRun start prev (u ∷ uids) h g =
    ground (arith, runs_from-IsRun start u uids, runs_from-IsRun u u uids)

All-insert_sorted :
    (u : ℕ) (uids : List ℕ) → IsNumber u → All IsNumber uids → All IsNumber (insert_sorted u uids)
unfolding insert_sorted
All-insert_sorted u [] h g = (h, tt)
All-insert_sorted u (w ∷ uids) h g = ground (arith, All-insert_sorted u uids)

All-sorted : (uids : List ℕ) → All IsNumber uids → All IsNumber (sorted uids)
unfolding sorted
All-sorted [] g = tt
All-sorted (u ∷ uids) g = All-insert_sorted u (sorted uids) g.0 (All-sorted uids g.1)

insert_sorted-nonempty :
    (u : ℕ) (uids : List ℕ) → (w : ℕ) × (ws : List ℕ) × (insert_sorted u uids ≡ w ∷ ws)
unfolding insert_sorted
insert_sorted-nonempty u [] = (u, [], refl)
insert_sorted-nonempty u (w ∷ uids) = elim (Bool-cases (leb u w)) [
  | inl below ↦ (u, w ∷ uids, rw below refl)
  | inr above ↦ (w, insert_sorted u uids, rw above refl)
]

runs_from-nonempty :
    (start prev : ℕ) (uids : List ℕ)
    → (r : ℕ × ℕ) × (rs : List (ℕ × ℕ)) × (runs_from start prev uids ≡ r ∷ rs)
unfolding runs_from
runs_from-nonempty start prev [] = ((start, prev), [], refl)
runs_from-nonempty start prev (u ∷ uids) = elim (Bool-cases (u == prev + 1)) [
  | inl longer ↦ rw longer (runs_from-nonempty start u uids)
  | inr other ↦ ((start, prev), runs_from u u uids, rw other refl)
]

no_ranges :
    (r : ℕ × ℕ) (rs : List (ℕ × ℕ))
    → parse_ranges (split b',' []).0 (split b',' []).1 ≢ parsed (r ∷ rs)
unfolding parse_ranges split parse_range
no_ranges r rs e = ground arith

parse-show_runs :
    (r : ℕ × ℕ) (rs : List (ℕ × ℕ))
    → All IsRun (r ∷ rs)
    → parse_sequence_set (show_runs (r ∷ rs)) ≡ parsed (record { ranges = r ∷ rs })
unfolding parse_sequence_set
parse-show_runs r rs h = elim (Bool-cases (show_runs (r ∷ rs) == [])) [
  | inl empty ↦
      let e = parse_ranges-show r rs h in
      absurd (no_ranges r rs (rw ((==_iff (show_runs (r ∷ rs)) []).0 empty) at e))
  | inr some' ↦ rw (some', parse_ranges-show r rs h) refl
]

-- The set of UIDs that a response code names is read back, as a sequence set, into its ranges, if
-- there is a UID, none is 0 and none has more digits than Python's `int` takes.
pub parse-uid_set :
    (u : ℕ) (uids : List ℕ)
    → All IsNumber (u ∷ uids)
    → parse_sequence_set (uid_set (u ∷ uids))
      ≡ parsed (record { ranges = runs (sorted (u ∷ uids)) })
unfolding uid_set runs sorted
parse-uid_set u uids g =
    let (w, ws, e) = insert_sorted-nonempty u (sorted uids) in
    let positive : All IsNumber (w ∷ ws) = rw e at (All-sorted (u ∷ uids) g) in
    let (r, rs, cut) = runs_from-nonempty w w ws in
    let good : All IsRun (r ∷ rs) =
      rw cut at (runs_from-IsRun w w ws (positive.0, positive.0, omega arith) positive.1) in
    rw (e, cut) (parse-show_runs r rs good)
