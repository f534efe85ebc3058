-- ===== src/Mailbox/Flags.antt =====
-- imapgw/mailbox.py: the flags of an item. A set of flags is a record with a field for each of
-- `ALL_FLAGS`.
use imap_work_trial.Base.{
  ℕ, ◌≡◌, ◌↔◌, Eq, list_eq, nat_eq, Bool, true, false, not, ◌&&◌, if◌then◌else◌, contains, Bytes,
  codes, Dict, insert, Option, List, [], ◌∷◌, arith,
}

pub record Flags : Type 0 where
  pub seen : Bool
  pub answered : Bool
  pub flagged : Bool
  pub deleted : Bool
  pub draft : Bool

-- `ALL_FLAGS`
pub data Flag : Type 0 where
  seen_flag answered_flag flagged_flag deleted_flag draft_flag : Flag

-- `flag in flags`
unfoldable pub has_flag : Flag → Flags → Bool
has_flag seen_flag flags = flags.seen
has_flag answered_flag flags = flags.answered
has_flag flagged_flag flags = flags.flagged
has_flag deleted_flag flags = flags.deleted
has_flag draft_flag flags = flags.draft

abbrev pub bool_beq : Bool → Bool → Bool
bool_beq true b = b
bool_beq false b = not b

-- Equality of frozensets of flags.
abbrev pub flags_beq : Flags → Flags → Bool
flags_beq f g =
    bool_beq f.seen g.seen
    && bool_beq f.answered g.answered
    && bool_beq f.flagged g.flagged
    && bool_beq f.deleted g.deleted
    && bool_beq f.draft g.draft

pub bool_beq_iff : (a b : Bool) → (bool_beq a b ≡ true) ↔ (a ≡ b)
bool_beq_iff a b = ground arith

pub flags_beq_iff : (f g : Flags) → (flags_beq f g ≡ true) ↔ (f ≡ g)
flags_beq_iff f g = ground arith

instance abbrev pub flags_eq : Eq Flags
flags_eq = record { equal = flags_beq; equal_iff = flags_beq_iff }

-- A `datetime` is the number of seconds since the day 0, in its own zone.
pub record Item : Type 0 where
  pub uid : ℕ
  pub remote_key : Bytes
  pub remote_id : Bytes
  pub flags : Flags
  pub internaldate : ℕ
  pub size_hint : Option ℕ
  pub labels : List Bytes
  pub from_ : Bytes
  pub to : List Bytes
  pub subject : Bytes

pub record MailboxSnapshot : Type 0 where
  pub inbox_id : Bytes
  pub name : Bytes
  pub uidvalidity : ℕ
  pub uidnext : ℕ
  pub items : List Item
  pub version : ℕ
  pub synced_at : ℕ

abbrev pub item_uids : List Item → List ℕ
item_uids [] = []
item_uids (item ∷ items) = item.uid ∷ item_uids items

-- `by_uid`, as `{item.uid: item for item in self.items}` fills it
unfoldable pub fill : List Item → Dict ℕ Item → Dict ℕ Item
fill [] d = d
fill (item ∷ items) d = fill items (insert item.uid item d)

unfoldable pub by_uid : MailboxSnapshot → Dict ℕ Item
by_uid snapshot = fill snapshot.items []

abbrev pub no_flags : Flags
no_flags = record {
  seen = false;
  answered = false;
  flagged = false;
  deleted = false;
  draft = false;
}

unfoldable pub message_flags : List Bytes → Flags
message_flags labels = record no_flags {
  seen = not (contains labels (codes "unread"));
  flagged = contains labels (codes "starred");
}

-- `DRAFT_FLAGS`
abbrev pub draft_flags : Flags
draft_flags = record no_flags { draft = true; seen = true }

unfoldable pub flags_of : Item → List ℕ → Flags
flags_of item marked =
    if contains marked item.uid then record item.flags { deleted = true } else item.flags
