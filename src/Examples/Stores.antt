-- ===== src/Examples/Stores.antt =====
-- Runs of the model of STORE at concrete inputs.
use imap_work_trial.Base.{
  ℕ, ◌≡◌, refl, nat_eq, list_eq, true, false, All, codes, to_lower, to_upper, lookup, insert,
  read_digits, is_digit, none, some, List, [], ◌∷◌, inr,
}
use imap_work_trial.Parser.Tokens.{Tokens, atom, list_tok, nil, cons}
use imap_work_trial.Fetch.Sequences.{
  select_numbers, select_from, in_range, last_of, parse_sequence_set, parse_ranges, parse_range,
  seq_number, partition, split, ordered, resolve,
}
use imap_work_trial.UidStore.Tables.{Box, select_marks, same_box, insert_marks, delete_marks}
use imap_work_trial.UidStore.Calls.{Env, set_deleted, transaction, deleted_uids}
use imap_work_trial.Mailbox.Flags.{
  Flag, seen_flag, deleted_flag, has_flag, Flags, Item, MailboxSnapshot, no_flags, message_flags,
  flags_of, by_uid, fill,
}
use imap_work_trial.Mailbox.Catalog.{inbox}
use imap_work_trial.Mailbox.Listing.{hold_labels, held_in}
use imap_work_trial.Mailbox.Sync.{Service}
use imap_work_trial.Mailbox.Changes.{
  UpdateLabels, changed_labels, labels_after, flag_labels, change_labels, set_flag, replace_item,
  replace_in,
}
use imap_work_trial.Session.Selected.{Selected}
use imap_work_trial.Search.Handler.{count_from}
use imap_work_trial.Commands.Store.{
  adding, has, wants, Progress, Surroundings, mark, store_deleted, store_label, store_flag,
  store_flags, store_one, store_action, silence, canonical_flag,
}
use imap_work_trial.Commands.Relabelled.{Obeys}
use imap_work_trial.Commands.Asked.{IsStorable, Apart, Sets, asked, shown}
use imap_work_trial.Commands.Stored.{store_one-Sets}
use imap_work_trial.Commands.StoreCommand.{
  Attempt, done, Run, read_flags, flag_tokens, read_numbers, read_request, allowed, by_uids,
  by_seqs, targets, store_message, store_messages, store,
}

abbrev env : Env
env = record {
  clock = 0;
  now = codes "2026-08-17";
  readable = true;
  writable = true;
  commits = true;
}

abbrev update : UpdateLabels
update item add remove = some (changed_labels item.labels add remove)

update-Obeys : Obeys update
update-Obeys item add remove = (changed_labels item.labels add remove, refl, inr (λ l. refl))

abbrev out : Surroundings
out = record { now = 50; env = env; update = update }

abbrev box : Box
box = record { inbox_id = codes "a@x"; name = codes "INBOX" }

-- An unread message.
abbrev item : Item
item = record {
  uid = 7;
  remote_key = codes "m1";
  remote_id = codes "m1";
  flags = no_flags;
  internaldate = 0;
  size_hint = none;
  labels = codes "received" ∷ codes "unread" ∷ [];
  from_ = [];
  to = [];
  subject = [];
}

abbrev snapshot : MailboxSnapshot
snapshot = record {
  inbox_id = codes "a@x";
  name = codes "INBOX";
  uidvalidity = 1;
  uidnext = 8;
  items = item ∷ [];
  version = 1;
  synced_at = 0;
}

abbrev service : Service
service = record {
  store = record { mailbox = []; uid_map = []; deleted_mark = []; watermark = 0 };
  latest = (box, snapshot) ∷ [];
  versions = [];
  generation = [];
  pinned = [];
  label_overrides = [];
}

abbrev start : Progress
start = record { item = item; deleted = []; service = service }

abbrev flags : List Flag
flags = seen_flag ∷ deleted_flag ∷ []

permanent : All IsStorable inbox.permanent_flags
permanent = (tt, (tt, (tt, tt)))

apart : Apart inbox.permanent_flags
apart = (refl, (refl, (refl, tt)))

item_lem : item.flags ≡ message_flags item.labels
unfolding message_flags
item_lem = refl

store_one-Sets_example :
    Sets box
      (has inbox.permanent_flags)
      (λ g. asked adding (has flags g) (has_flag g (shown start)))
      start
      (store_one out inbox box adding flags start)
store_one-Sets_example =
    store_one-Sets out inbox box refl refl update-Obeys adding flags start permanent apart item_lem
      refl

abbrev view : Selected
view = record {
  name = codes "INBOX";
  read_only = false;
  uids = 7 ∷ [];
  seq_of = (7, 1) ∷ [];
  view_version = 1;
  flags_seen = [];
}

-- `1 +flags (\seen \Deleted)`
abbrev args : Tokens
args = cons (atom (codes "1")) (
    cons (atom (codes "+flags"))
      (cons (list_tok (cons (atom (codes "\\seen")) (cons (atom (codes "\\Deleted")) nil))) nil))

abbrev told : Attempt Run → List (ℕ × ℕ × Flags)
told (done run) = run.told
told _ = []

store_lem :
    told (store out inbox box view snapshot false args service)
    ≡ (1, 7, record no_flags { seen = true; deleted = true }) ∷ []
unfolding store read_request read_flags flag_tokens read_numbers allowed targets by_uids by_seqs
    store_messages store_message store_one store_flags store_flag store_label store_deleted mark
    wants set_flag change_labels flag_labels labels_after changed_labels hold_labels held_in
    replace_item replace_in set_deleted transaction deleted_uids select_marks insert_marks
    delete_marks same_box by_uid fill flags_of has_flag message_flags lookup insert to_lower
    to_upper store_action silence canonical_flag parse_sequence_set parse_ranges parse_range
    seq_number partition split ordered read_digits is_digit select_numbers select_from in_range
    last_of resolve count_from
store_lem = refl
