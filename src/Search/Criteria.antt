-- ===== src/Search/Criteria.antt =====
-- imapgw/search.py: criteria, and the search keys by their names. A date is its ordinal, and text is
-- a list of code points.
use imap_work_trial.Base.{
  ℕ, Bytes, codes, Bool, true, false, Dict, lookup, list_eq, nat_eq, Option, some, [], ◌∷◌, ◌≡◌,
  refl,
}
use imap_work_trial.Mailbox.Flags.{
  Flag, seen_flag, answered_flag, flagged_flag, deleted_flag, draft_flag,
}
use imap_work_trial.Fetch.Sequences.{SequenceSet}

pub data Comparison : Type 0 where
  before on since : Comparison

-- `_ITEM_TEXT_KEYS` and `_RAW_TEXT_KEYS`
pub data TextKey : Type 0 where
  from_key to_key subject_key cc_key bcc_key body_key text_key : TextKey

mutual
  -- `Crit`: a constructor for each `op`, with its `args`.
  pub data Crit : Type 0 where
    all_items none_items : Crit
    conj : Crits → Crit
    disj : Crit → Crit → Crit
    neg : Crit → Crit
    flag : Flag → Bool → Crit
    keyword : Bytes → Bool → Crit
    uids seqs : SequenceSet → Crit
    larger smaller : ℕ → Crit
    arrived sent : Comparison → ℕ → Crit
    text : TextKey → Bytes → Crit
    header : Bytes → Bytes → Crit

  -- The arguments of AND.
  pub data Crits : Type 0 where
    no_crits : Crits
    also : Crit → Crits → Crits

-- The exceptions of the parser: its own two, and ValueError of `int` and RecursionError, which it
-- does not catch. The fuel's end belongs to the model only.
pub data SearchError : Type 0 where
  syntax_error bad_charset value_error recursion_error out_of_fuel : SearchError

pub data Result {ℓ} (A : Type ℓ) : Type ℓ where
  found : A → Result A
  raised : SearchError → Result A

infixl 1 ◌>>=◌
abbrev pub ◌>>=◌ {ℓ κ} : {A : Type ℓ} {B : Type κ} → Result A → (A → Result B) → Result B
found a >>= f = f a
raised e >>= f = raised e

-- What `key` reads behind the name of a key.
pub data Kind : Type 0 where
  done : Crit → Kind
  keyword_kind : Bool → Kind
  uid_kind not_kind or_kind header_kind : Kind
  date_kind : (ℕ → Crit) → Kind
  size_kind : (ℕ → Crit) → Kind
  text_kind : TextKey → Kind

-- The names of the keys: `_FLAG_KEYS`, `_DATE_KEYS`, the text keys and those that `key` compares.
abbrev pub kinds : Dict Bytes Kind
kinds =
    (codes "ALL", done all_items)
    ∷ (codes "ANSWERED", done (flag answered_flag true))
    ∷ (codes "UNANSWERED", done (flag answered_flag false))
    ∷ (codes "DELETED", done (flag deleted_flag true))
    ∷ (codes "UNDELETED", done (flag deleted_flag false))
    ∷ (codes "DRAFT", done (flag draft_flag true))
    ∷ (codes "UNDRAFT", done (flag draft_flag false))
    ∷ (codes "FLAGGED", done (flag flagged_flag true))
    ∷ (codes "UNFLAGGED", done (flag flagged_flag false))
    ∷ (codes "SEEN", done (flag seen_flag true))
    ∷ (codes "UNSEEN", done (flag seen_flag false))
    ∷ (codes "NEW", done none_items)
    ∷ (codes "OLD", done all_items)
    ∷ (codes "RECENT", done none_items)
    ∷ (codes "KEYWORD", keyword_kind true)
    ∷ (codes "UNKEYWORD", keyword_kind false)
    ∷ (codes "UID", uid_kind)
    ∷ (codes "NOT", not_kind)
    ∷ (codes "OR", or_kind)
    ∷ (codes "BEFORE", date_kind (arrived before))
    ∷ (codes "ON", date_kind (arrived on))
    ∷ (codes "SINCE", date_kind (arrived since))
    ∷ (codes "SENTBEFORE", date_kind (sent before))
    ∷ (codes "SENTON", date_kind (sent on))
    ∷ (codes "SENTSINCE", date_kind (sent since))
    ∷ (codes "LARGER", size_kind larger)
    ∷ (codes "SMALLER", size_kind smaller)
    ∷ (codes "FROM", text_kind from_key)
    ∷ (codes "TO", text_kind to_key)
    ∷ (codes "SUBJECT", text_kind subject_key)
    ∷ (codes "CC", text_kind cc_key)
    ∷ (codes "BCC", text_kind bcc_key)
    ∷ (codes "BODY", text_kind body_key)
    ∷ (codes "TEXT", text_kind text_key)
    ∷ (codes "HEADER", header_kind)
    ∷ []

unfoldable pub kind_of : Bytes → Option Kind
unfolding lookup
kind_of name = lookup name kinds

kind_of_lem : kind_of (codes "SENTON") ≡ some (date_kind (sent on))
unfolding kind_of lookup
kind_of_lem = refl
