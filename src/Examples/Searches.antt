-- ===== src/Examples/Searches.antt =====
-- Runs of the models of imapgw/search.py and of `_search` at concrete inputs.
use imap_work_trial.Base.{
  ℕ, ◌*◌, ◌==◌, ◌≡◌, ◌≢◌, ◌⊎◌, ◌≤◌, ◌↔◌, refl, nat_eq, list_eq, true, false, Bool, Bytes, codes,
  lower, upper, if◌then◌else◌, ◌-◌, leb, ◌&&◌, contains, lookup, read_digits, is_digit, to_upper,
  to_lower, IsAscending, Dict, Option, none, some, List, [], ◌∷◌, arith,
}
use imap_work_trial.Parser.Tokens.{Tokens, atom, list_tok, nil, cons, astring_bytes}
use imap_work_trial.Mailbox.Flags.{Item, no_flags, seen_flag}
use imap_work_trial.Fetch.Sequences.{
  star, ordered, parse_sequence_set, parse_ranges, parse_range, seq_number, partition, split,
}
use imap_work_trial.Search.Criteria.{
  Crit, no_crits, also, conj, disj, neg, flag, larger, arrived, since, seqs, text, from_key,
  body_key, found, raised, recursion_error, out_of_fuel, kind_of,
}
use imap_work_trial.Search.Keys.{
  Python, looks_like_seqset, seqset, number, text_of, date_of, date_of_text, date_groups,
  read_decimal, drop_newline, date, is_leap, days_in_month, days_before,
}
use imap_work_trial.Search.Parse.{
  next, with_token, keys_loop, group_of, behind_name, key_step, key, parse_keys, parse_search,
}
use imap_work_trial.Search.Parse.{size}
use imap_work_trial.Search.Fuel.{parse_search_ends}
use imap_work_trial.Search.Evaluate.{
  Email, got, SearchContext, evaluate, evaluate_all, and_then, occurs, starts_with, text_meets,
  decoded_body, join,
}
use imap_work_trial.Search.Meaning.{Meets, evaluate-Meets}
use imap_work_trial.Search.Handler.{hit, hits_from}
use imap_work_trial.Search.Hits.{IsHit, hits_from-Answers}

-- ASCII only: the codec and the foldings of Python on it.
abbrev digit : ℕ → Option ℕ
digit c = if leb b'0' c && leb c b'9' then some (c - b'0') else none

abbrev python : Python
python = record { decode = some; casefold = lower; upper = upper; digit = digit }

-- `OR UNSEEN (SINCE 1-Aug-2026 NOT LARGER 100) 2:*`
abbrev keys : Tokens
keys = cons (atom (codes "or")) (
    cons (atom (codes "UNSEEN")) (
      cons
        (list_tok (
          cons (atom (codes "SINCE")) (
            cons (atom (codes "1-Aug-2026")) (
              cons (atom (codes "NOT"))
                (cons (atom (codes "LARGER")) (cons (atom (codes "100")) nil))))))
        (cons (atom (codes "2:*")) nil)))

abbrev crit : Crit
crit = conj (
    also
      (disj (flag seen_flag false)
        (conj (also (arrived since 739829) (also (neg (larger 100)) no_crits))))
      (also (seqs (record { ranges = (2, star) ∷ [] })) no_crits))

date_lem : (date 2026 8 1 ≡ some 739829) × (date 2024 2 29 ≡ some 738945) × (date 2026 2 29 ≡ none)
unfolding date is_leap days_in_month days_before
date_lem = (refl, refl, refl)

parse_search_lem : parse_search python 8 keys ≡ found crit
unfolding parse_search parse_keys key key_step keys_loop group_of behind_name with_token next
    kind_of looks_like_seqset seqset number text_of date_of date_of_text date_groups read_decimal
    drop_newline date is_leap days_in_month days_before astring_bytes lookup to_upper to_lower
    is_digit read_digits parse_sequence_set parse_ranges parse_range seq_number partition split
    ordered
parse_search_lem = refl

parse_search_ends_example :
    (parse_search python 1000 keys ≢ raised out_of_fuel)
    × ((1000 ≤ size keys) ⊎ (parse_search python 1000 keys ≢ raised recursion_error))
parse_search_ends_example = parse_search_ends python 1000 keys

-- The group is at depth 2, and the key that NOT is for at depth 4.
too_deep_lem : parse_search python 3 keys ≡ raised recursion_error
unfolding parse_search parse_keys key key_step keys_loop group_of behind_name with_token next
    kind_of looks_like_seqset seqset number text_of date_of date_of_text date_groups read_decimal
    drop_newline date is_leap days_in_month days_before astring_bytes lookup to_upper to_lower
    is_digit read_digits parse_sequence_set parse_ranges parse_range seq_number partition split
    ordered
too_deep_lem = refl

abbrev email : Email
email = record {
  fields = λ raw. [];
  texts = λ raw. raw ∷ [];
  date = λ s. none;
  casefold = lower;
  lower = lower;
}

abbrev item : ℕ → Item
item uid = record {
  uid = uid;
  remote_key = [];
  remote_id = [];
  flags = no_flags;
  internaldate = 739830 * 86400;
  size_hint = none;
  labels = [];
  from_ = codes "Ann <ann@x>";
  to = [];
  subject = [];
}

abbrev content : Item → Bytes
content i = if i.uid == 5 then codes "See you" else codes "Hello Bob"

abbrev uids : List ℕ
uids = 3 ∷ 5 ∷ 9 ∷ []

abbrev context : SearchContext
context = record {
  seqs = 1 ∷ 2 ∷ 3 ∷ [];
  uids = uids;
  deleted = [];
  raw = λ i. got (content i);
  size = λ i. got 120;
}

-- The item of UID 3 is gone.
abbrev items : Dict ℕ Item
items = (5, item 5) ∷ (9, item 9) ∷ []

-- `FROM "ann" BODY "bob"`
abbrev ann : Crit
ann = conj (also (text from_key (codes "ann")) (also (text body_key (codes "bob")) no_crits))

evaluate-Meets_example :
    (b : Bool) × (evaluate email context 3 (item 9) ann ≡ got b)
    × ((b ≡ true) ↔ Meets email context 3 (item 9) (codes "Hello Bob") 120 ann)
evaluate-Meets_example =
    evaluate-Meets email context 3 (item 9) (codes "Hello Bob") 120 refl refl ann

hits_lem :
    (hits_from email context ann false items 1 uids ≡ got (3 ∷ []))
    × (hits_from email context ann true items 1 uids ≡ got (9 ∷ []))
unfolding hits_from hit evaluate evaluate_all and_then text_meets occurs starts_with decoded_body
    join lookup to_lower
hits_lem = (refl, refl)

uids-IsAscending : IsAscending uids
uids-IsAscending = ground arith

hits_from-Answers_example :
    (hits : List ℕ) × (hits_from email context ann true items 1 uids ≡ got hits)
    × IsAscending hits
    × ((n : ℕ)
        → (contains hits n ≡ true) ↔ IsHit email context ann true items content (λ i. 120) n 1 uids)
hits_from-Answers_example =
    hits_from-Answers email context ann true items content (λ i. 120) (λ i. refl) (λ i. refl) uids
      uids-IsAscending
