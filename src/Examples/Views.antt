-- ===== src/Examples/Views.antt =====
-- Runs of the models of imapgw/session.py and imapgw/fetch.py at concrete inputs.
use mathlib.Core.List.{foldl}
use imap_work_trial.Base.{
  ℕ, ◌≡◌, ◌↔◌, refl, nat_eq, true, false, codes, contains, lookup, insert, erase, sorted,
  insert_sorted, read_digits, is_digit, IsAscending, none, some, List, [], ◌∷◌, inl, inr, arith,
}
use imap_work_trial.Mailbox.Flags.{
  Item, MailboxSnapshot, item_uids, by_uid, fill, no_flags, flags_of,
}
use imap_work_trial.Session.Selected.{
  Selected, expunge, exists, fetch_flags, from_snapshot, number_from, flags_from, flush_view,
  expunge_loop, arrivals, admit, announce_flags, delete_at,
}
use imap_work_trial.Session.Client.{Mirrors, done, known, unknown, follow}
use imap_work_trial.Session.Views.{Later, flush_view-content, flush_view-Mirrors}
use imap_work_trial.Session.Quiet.{flush_view-flags, flush_view-quiet}
use imap_work_trial.Fetch.Sequences.{
  SequenceSet, star, select_numbers, select_from, in_range, last_of, parse_sequence_set,
  parse_ranges, parse_range, seq_number, partition, split, ordered, resolve, parsed, failed,
  invalid_range, starts_at_1,
}
use imap_work_trial.Fetch.Select.{Covered, select_numbers-Covered}

abbrev item : ℕ → Item
item uid = record {
  uid = uid;
  remote_key = codes "<a@b>";
  remote_id = codes "<a@b>";
  flags = no_flags;
  internaldate = 0;
  size_hint = none;
  labels = [];
  from_ = [];
  to = [];
  subject = [];
}

abbrev seen_item : ℕ → Item
seen_item uid = record (item uid) { flags = record no_flags { seen = true } }

-- The client has seen the messages 1, 2 and 5; now 2 is gone, 5 is read, 7 has arrived, 1 is marked.
abbrev before : MailboxSnapshot
before = record {
  inbox_id = codes "a@x";
  name = codes "INBOX";
  uidvalidity = 1;
  uidnext = 6;
  items = item 1 ∷ item 2 ∷ item 5 ∷ [];
  version = 1;
  synced_at = 0;
}

abbrev after : MailboxSnapshot
after = record before { items = item 1 ∷ seen_item 5 ∷ item 7 ∷ []; uidnext = 8; version = 2 }

abbrev view : Selected
view = record {
  name = codes "INBOX";
  read_only = false;
  uids = 1 ∷ 2 ∷ 5 ∷ [];
  seq_of = (1, 1) ∷ (2, 2) ∷ (5, 3) ∷ [];
  view_version = 1;
  flags_seen = (1, no_flags) ∷ (2, no_flags) ∷ (5, no_flags) ∷ [];
}

view_lem : from_snapshot (codes "INBOX") before false [] ≡ view
unfolding from_snapshot number_from flags_from flags_of insert
view_lem = refl

flush_lem :
    (flush_view after (1 ∷ []) view).0
    ≡ expunge 2
      ∷ exists 3
      ∷ fetch_flags 1 1 (record no_flags { deleted = true })
      ∷ fetch_flags 2 5 (record no_flags { seen = true })
      ∷ []
unfolding flush_view expunge_loop delete_at arrivals admit announce_flags by_uid fill flags_of
    lookup insert erase sorted insert_sorted
flush_lem = refl

after-Later : Later view.uids (item_uids after.items)
after-Later = (inl refl, (inl refl, (inr (omega arith, (omega arith, (omega arith, tt))), tt)))

mirror : Mirrors (some 1 ∷ none ∷ some 5 ∷ []) view.uids
mirror = known 1 _ _ (unknown 2 _ _ (known 5 _ _ done))

after-IsAscending : IsAscending (item_uids after.items)
after-IsAscending = ground arith

view-IsAscending : IsAscending view.uids
view-IsAscending = ground arith

flush_view-Mirrors_example :
    Mirrors
      (foldl follow (some 1 ∷ none ∷ some 5 ∷ []) (flush_view after (1 ∷ []) view).0)
      (flush_view after (1 ∷ []) view).1.uids
flush_view-Mirrors_example =
    flush_view-Mirrors after (1 ∷ []) view (some 1 ∷ none ∷ some 5 ∷ []) after-IsAscending
      view-IsAscending after-Later mirror

flush_view-content_example :
    IsAscending (flush_view after (1 ∷ []) view).1.uids
    × ((u : ℕ)
        → contains (flush_view after (1 ∷ []) view).1.uids u ≡ contains (item_uids after.items) u)
flush_view-content_example =
    flush_view-content after (1 ∷ []) view after-IsAscending view-IsAscending after-Later

flush_view-quiet_example : (flush_view after (1 ∷ []) (flush_view after (1 ∷ []) view).1).0 ≡ []
flush_view-quiet_example =
    flush_view-quiet after (1 ∷ []) view after-IsAscending view-IsAscending after-Later

present :
    (contains (flush_view after (1 ∷ []) view).1.uids 5 ≡ true)
    × (lookup 5 (by_uid after) ≡ some (seen_item 5))
unfolding flush_view expunge_loop delete_at arrivals admit by_uid fill lookup insert sorted
    insert_sorted
present = (refl, refl)

flush_view-flags_example :
    lookup 5 (flush_view after (1 ∷ []) view).1.flags_seen ≡ some (flags_of (seen_item 5) (1 ∷ []))
flush_view-flags_example = flush_view-flags after (1 ∷ []) view 5 (seen_item 5) present.0 present.1

abbrev others : List ℕ
others = 3 ∷ 9 ∷ []

abbrev numbers : List ℕ
numbers = 1 ∷ others

-- `2:4,*`
abbrev sequence : SequenceSet
sequence = record { ranges = (2, 4) ∷ (star, star) ∷ [] }

parse_lem :
    (parse_sequence_set (codes "4:2,*") ≡ parsed sequence)
    × (parse_sequence_set (codes "3:") ≡ failed invalid_range)
    × (parse_sequence_set (codes "0") ≡ failed starts_at_1)
unfolding parse_sequence_set parse_ranges parse_range seq_number partition split ordered read_digits
    is_digit
parse_lem = (refl, refl, refl)

select_lem : select_numbers sequence numbers ≡ 3 ∷ 9 ∷ []
unfolding select_numbers select_from in_range last_of resolve ordered
select_lem = refl

select_numbers-Covered_example :
    ((contains (select_numbers sequence numbers) 3 ≡ true)
      ↔ ((contains numbers 3 ≡ true) × Covered 9 3 sequence.ranges))
    × (IsAscending numbers → IsAscending (select_numbers sequence numbers))
select_numbers-Covered_example = select_numbers-Covered sequence numbers 9 3 refl
