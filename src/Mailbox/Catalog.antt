-- ===== src/Mailbox/Catalog.antt =====
-- imapgw/mailbox.py: the mailboxes, as views of labels.
use imap_work_trial.Base.{
  ◌==◌, list_eq, nat_eq, Bytes, codes, upper, to_upper, Bool, true, false, Dict, lookup,
  if◌then◌else◌, Option, List, [], ◌∷◌,
}
use imap_work_trial.Mailbox.Flags.{Flag, seen_flag, flagged_flag, deleted_flag}

pub data Kind : Type 0 where
  messages drafts : Kind

pub record MailboxDef : Type 0 where
  pub name : Bytes
  pub kind : Kind
  pub query_labels : List Bytes
  pub exclude_labels : List Bytes
  pub include_trash : Bool
  pub include_spam : Bool
  pub permanent_flags : List Flag
  pub appendable : Bool

-- The defaults of `MailboxDef`.
abbrev pub view : Bytes → Kind → MailboxDef
view name kind = record {
  name = name;
  kind = kind;
  query_labels = [];
  exclude_labels = [];
  include_trash = false;
  include_spam = false;
  permanent_flags = [];
  appendable = false;
}

abbrev pub hidden_labels : List Bytes
hidden_labels = codes "trash" ∷ codes "spam" ∷ []

abbrev pub message_permanent : List Flag
message_permanent = seen_flag ∷ flagged_flag ∷ deleted_flag ∷ []

abbrev pub trash_permanent : List Flag
trash_permanent = seen_flag ∷ flagged_flag ∷ []

abbrev pub draft_permanent : List Flag
draft_permanent = deleted_flag ∷ []

abbrev pub inbox : MailboxDef
inbox = record (view (codes "INBOX") messages) {
  query_labels = codes "received" ∷ [];
  exclude_labels = hidden_labels;
  permanent_flags = message_permanent;
}

abbrev pub sent : MailboxDef
sent = record (view (codes "Sent") messages) {
  query_labels = codes "sent" ∷ [];
  exclude_labels = hidden_labels;
  permanent_flags = message_permanent;
}

abbrev pub trash : MailboxDef
trash = record (view (codes "Trash") messages) {
  query_labels = codes "trash" ∷ [];
  include_trash = true;
  permanent_flags = trash_permanent;
}

abbrev pub spam : MailboxDef
spam = record (view (codes "Spam") messages) {
  query_labels = codes "spam" ∷ [];
  include_spam = true;
  permanent_flags = trash_permanent;
}

abbrev pub draft_box : MailboxDef
draft_box = record (view (codes "Drafts") drafts) {
  appendable = true;
  permanent_flags = draft_permanent;
}

-- `MAILBOXES`
abbrev pub mailboxes : Dict Bytes MailboxDef
mailboxes =
    (codes "INBOX", inbox)
    ∷ (codes "Drafts", draft_box)
    ∷ (codes "Sent", sent)
    ∷ (codes "Trash", trash)
    ∷ (codes "Spam", spam)
    ∷ []

-- `lookup_mailbox`, on ASCII names
unfoldable pub lookup_mailbox : Bytes → Dict Bytes MailboxDef → Option MailboxDef
unfolding lookup to_upper
lookup_mailbox name defs =
    if upper name == codes "INBOX" then lookup (codes "INBOX") defs else lookup name defs
