-- ===== src/Examples/Uids.antt =====
-- Runs of the model of `_uid_set` of imapgw/commands.py at concrete inputs.
use imap_work_trial.Base.{
  ℕ, ◌≡◌, refl, nat_eq, All, contains, sorted, insert_sorted, decimal, put_digits, codes, List, [],
  ◌∷◌, arith,
}
use imap_work_trial.Fetch.Sequences.{covers, parsed, parse_sequence_set}
use imap_work_trial.Commands.UidSets.{
  runs_from, runs, show_run, show_runs, uid_set, covers-runs_of_sorted,
}
use imap_work_trial.Commands.Reread.{IsNumber, parse-uid_set}

abbrev uids : List ℕ
uids = 9 ∷ 4 ∷ 3 ∷ []

uid_set_lem : uid_set (9 ∷ 4 ∷ 1 ∷ 3 ∷ 5 ∷ []) ≡ codes "1,3:5,9"
unfolding uid_set runs runs_from show_run show_runs sorted insert_sorted decimal put_digits
uid_set_lem = refl

covers-runs_of_sorted_example : covers (record { ranges = runs (sorted uids) }) 4 ≡ contains uids 4
covers-runs_of_sorted_example = covers-runs_of_sorted uids 4

positive : All IsNumber uids
unfolding decimal put_digits
positive =
    ((omega arith, omega arith), ((omega arith, omega arith), ((omega arith, omega arith), tt)))

parse-uid_set_example :
    parse_sequence_set (uid_set uids) ≡ parsed (record { ranges = runs (sorted uids) })
parse-uid_set_example = parse-uid_set 9 (4 ∷ 3 ∷ []) positive
