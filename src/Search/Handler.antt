-- ===== src/Search/Handler.antt =====
-- imapgw/commands.py: `_search`, in the state behind `require_selected`.
use imap_work_trial.Base.{
  ℕ, suc, nat_eq, Bytes, codes, Bool, true, false, if◌then◌else◌, Dict, lookup, Option, none, some,
  List, [], ◌∷◌, ◌++◌, map, decimal,
}
use imap_work_trial.Parser.Tokens.{Tokens}
use imap_work_trial.Mailbox.Flags.{Item, MailboxSnapshot, by_uid}
use imap_work_trial.Session.Selected.{Selected}
use imap_work_trial.Session.Dispatch.{Status, no, bad}
use imap_work_trial.Responses.Encode.{crlf, join}
use imap_work_trial.Search.Criteria.{Crit, found, raised, bad_charset, syntax_error}
use imap_work_trial.Search.Keys.{Python}
use imap_work_trial.Search.Parse.{parse_search}
use imap_work_trial.Search.Evaluate.{
  Email, Fetched, got, not_found, broken, SearchContext, evaluate,
}

-- `search_response` of imapgw/responses.py
unfoldable pub search_response : List ℕ → Bytes
unfolding join decimal
search_response [] = codes "* SEARCH" ++ crlf
search_response (n ∷ numbers) =
    codes "* SEARCH " ++ join (0x20 ∷ []) (map decimal (n ∷ numbers)) ++ crlf

-- `range(first, first + count)`, for the length of a list
unfoldable pub count_from : ℕ → List ℕ → List ℕ
count_from first [] = []
count_from first (u ∷ us) = first ∷ count_from (suc first) us

-- What `_search` asks of the mailbox service: the deleted marks, and the content of an item.
pub record Content : Type 0 where
  pub deleted : List ℕ
  pub raw : Item → Fetched Bytes
  pub size : Item → Fetched ℕ

unfoldable pub context : Selected → Content → SearchContext
unfolding count_from
context sel content = record {
  seqs = count_from 1 sel.uids;
  uids = sel.uids;
  deleted = content.deleted;
  raw = content.raw;
  size = content.size;
}

-- One item: its number is a hit, it is none, or the command fails.
unfoldable pub hit : ℕ → Fetched Bool → Fetched (List ℕ) → Fetched (List ℕ)
hit n (got true) rest = elim rest [
  | got hits ↦ got (n ∷ hits)
  | not_found ↦ not_found
  | broken ↦ broken
]
hit n (got false) rest = rest
hit n not_found rest = rest
hit n broken rest = broken

module _ (email : Email) (ctx : SearchContext) (crit : Crit) (uid_mode : Bool)
    (items : Dict ℕ Item) where
  -- The loop over the view, from a sequence number on.
  unfoldable pub hits_from : ℕ → List ℕ → Fetched (List ℕ)
  unfolding hit evaluate lookup
  hits_from seq [] = got []
  hits_from seq (uid ∷ uids) = elim (lookup uid items) [
    | none ↦ hits_from (suc seq) uids
    | some item ↦
        hit (if uid_mode then uid else seq) (evaluate email ctx seq item crit)
          (hits_from (suc seq) uids)
  ]

-- How `_search` ends: with the numbers that it writes, with a refusal, whose status and code are
-- given without its text, with what the service raised, or with an exception of Python that it does
-- not catch.
pub data Answer : Type 0 where
  answered : List ℕ → Answer
  refused : Status → Option Bytes → Answer
  upstream crashed : Answer

-- `latest`, or without one the outcome of `sync`
unfoldable pub snapshot_of :
    Option MailboxSnapshot → Fetched MailboxSnapshot → Fetched MailboxSnapshot
snapshot_of none synced = synced
snapshot_of (some latest) synced = got latest

module _ (py : Python) (levels : ℕ) (email : Email) (latest : Option MailboxSnapshot)
    (synced : Fetched MailboxSnapshot) where
  -- The evaluation behind the parser.
  unfoldable pub search_view : Selected → Content → Bool → Crit → Fetched (List ℕ)
  unfolding snapshot_of hits_from context by_uid
  search_view sel content uid_mode crit = elim (snapshot_of latest synced) [
    | got snapshot ↦
        hits_from email (context sel content) crit uid_mode (by_uid snapshot) 1 sel.uids
    | not_found ↦ not_found
    | broken ↦ broken
  ]

  unfoldable pub search : Selected → Content → Bool → Tokens → Answer
  unfolding search_view parse_search
  search sel content uid_mode args = elim (parse_search py levels args) [
    | raised bad_charset ↦ refused no (some (codes "BADCHARSET (UTF-8)"))
    | raised syntax_error ↦ refused bad none
    | raised e ↦ crashed
    | found crit ↦ elim (search_view sel content uid_mode crit) [
      | got hits ↦ answered hits
      | not_found ↦ upstream
      | broken ↦ upstream
    ]
  ]
