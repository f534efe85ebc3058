-- ===== src/Commands/StoreCommand.antt =====
-- imapgw/commands.py: `_store`, its arguments, its guards and its loop over the messages.
use imap_work_trial.Base.{
  ℕ, ◌-◌, list_eq, nat_eq, Bytes, codes, Bool, true, false, ◌&&◌, if◌then◌else◌, Dict, lookup,
  insert, get_elem?, Option, none, some, List, [], ◌∷◌,
}
use imap_work_trial.Parser.Tokens.{
  Token, Tokens, atom, quoted_str, literal_str, list_tok, nil, cons,
}
use imap_work_trial.UidStore.Tables.{Box}
use imap_work_trial.UidStore.Calls.{deleted_uids}
use imap_work_trial.Fetch.Sequences.{
  SequenceSet, parse_sequence_set, parsed, failed, too_many_digits, select_numbers,
}
use imap_work_trial.Mailbox.Flags.{Flag, Flags, Item, MailboxSnapshot, by_uid, flags_of}
use imap_work_trial.Mailbox.Catalog.{MailboxDef}
use imap_work_trial.Mailbox.Sync.{Service}
use imap_work_trial.Session.Selected.{Selected}
use imap_work_trial.Session.Dispatch.{Status, no, bad}
use imap_work_trial.Search.Handler.{count_from}
use imap_work_trial.Commands.Store.{
  Mode, store_action, canonical_flag, has, Progress, Surroundings, store_one,
}

-- A value, a refusal, whose status and code are given without its text, or an exception of Python
-- that is not caught.
pub data Attempt (A : Type 0) : Type 0 where
  done : A → Attempt A
  refused : Status → Option Bytes → Attempt A
  crashed : Attempt A

infixl 1 ◌>>=◌
abbrev pub ◌>>=◌ : {A B : Type 0} → Attempt A → (A → Attempt B) → Attempt B
done a >>= f = f a
refused status code >>= f = refused status code
crashed >>= f = crashed

-- The loop over the flag tokens.
unfoldable pub read_flags : Tokens → Attempt (List Flag)
unfolding canonical_flag
read_flags nil = done []
read_flags (cons (atom value) rest) = elim (canonical_flag value) [
  | none ↦ refused no (some (codes "CANNOT"))
  | some flag ↦ read_flags rest >>= λ flags. done (flag ∷ flags)
]
read_flags (cons (quoted_str value) rest) = refused bad none
read_flags (cons (literal_str value) rest) = refused bad none
read_flags (cons (list_tok items) rest) = refused bad none

-- `flags_tok.items if isinstance(flags_tok, ListTok) else (flags_tok,)`
unfoldable pub flag_tokens : Token → Tokens
flag_tokens (list_tok items) = items
flag_tokens (atom value) = cons (atom value) nil
flag_tokens (quoted_str value) = cons (quoted_str value) nil
flag_tokens (literal_str value) = cons (literal_str value) nil

-- What STORE asks for.
pub record Request : Type 0 where
  pub numbers : SequenceSet
  pub mode : Mode
  pub silent : Bool
  pub flags : List Flag

unfoldable pub read_numbers : Bytes → Attempt SequenceSet
unfolding parse_sequence_set
read_numbers text = elim (parse_sequence_set text) [
  | failed too_many_digits ↦ crashed
  | failed e ↦ refused bad none
  | parsed s ↦ done s
]

-- The arguments, in the order of their tests.
unfoldable pub read_request : Tokens → Attempt Request
unfolding store_action read_flags flag_tokens read_numbers
read_request (cons (atom numbers) (cons (atom action) (cons flags nil))) =
    elim (store_action action) [
      | none ↦ refused bad none
      | some (mode, silent) ↦ read_flags (flag_tokens flags) >>= λ names.
          read_numbers numbers >>= λ s.
          done (record { numbers = s; mode = mode; silent = silent; flags = names })
    ]
read_request _ = refused bad none

-- The flags that the mailbox does not let a client change.
abbrev pub all_permanent : List Flag → List Flag → Bool
all_permanent permanent [] = true
all_permanent permanent (f ∷ flags) = has permanent f && all_permanent permanent flags

-- The guards behind the arguments.
unfoldable pub allowed : Selected → MailboxDef → Request → Attempt Request
allowed sel mdef request =
    if sel.read_only
    then refused no (some (codes "READ-ONLY"))
    else if all_permanent mdef.permanent_flags request.flags
    then done request
    else refused no (some (codes "CANNOT"))

-- `[(sel.seq_of[u], u) for u in …]`, for UIDs that all are in `seq_of`
unfoldable pub by_uids : Dict ℕ ℕ → List ℕ → List (ℕ × ℕ)
unfolding lookup
by_uids seq_of [] = []
by_uids seq_of (u ∷ us) = elim (lookup u seq_of) [
  | none ↦ by_uids seq_of us
  | some seq ↦ (seq, u) ∷ by_uids seq_of us
]

-- `[(s, sel.uids[s - 1]) for s in …]`, for numbers that are all in range
unfoldable pub by_seqs : List ℕ → List ℕ → List (ℕ × ℕ)
by_seqs uids [] = []
by_seqs uids (s ∷ ss) = elim (get_elem? uids (s - 1)) [
  | none ↦ by_seqs uids ss
  | some u ↦ (s, u) ∷ by_seqs uids ss
]

unfoldable pub targets : Selected → Bool → SequenceSet → List (ℕ × ℕ)
unfolding by_uids by_seqs select_numbers count_from
targets sel true numbers = by_uids sel.seq_of (select_numbers numbers sel.uids)
targets sel false numbers = by_seqs sel.uids (select_numbers numbers (count_from 1 sel.uids))

-- How far the loop over the messages is: the flags that it tells the client of each, newest first,
-- the remembered flags, the marks and the service; and whether a call raised.
pub record Run : Type 0 where
  pub told : List (ℕ × ℕ × Flags)
  pub flags_seen : Dict ℕ Flags
  pub deleted : List ℕ
  pub service : Service
  pub raised : Bool

module _ (out : Surroundings) (mdef : MailboxDef) (key : Box) (request : Request) where
  -- One message that the snapshot has.
  unfoldable pub store_message : ℕ → ℕ → Item → Run → Run
  unfolding store_one flags_of insert
  store_message seq uid item run =
      let start : Progress = record { item = item; deleted = run.deleted; service = run.service } in
      let (ended, service) = store_one out mdef key request.mode request.flags start in
      elim ended [
        | none ↦ record run { service = service; raised = true }
        | some p ↦
            let final = flags_of p.item p.deleted in
            record run {
              told = if request.silent then run.told else (seq, uid, final) ∷ run.told;
              flags_seen = insert uid final run.flags_seen;
              deleted = p.deleted;
              service = p.service;
            }
      ]

  -- The loop; the first call that raises ends it.
  unfoldable pub store_messages : Dict ℕ Item → List (ℕ × ℕ) → Run → Run
  unfolding store_message lookup
  store_messages items [] run = run
  store_messages items ((seq, uid) ∷ rest) run = elim run.raised [
    | true ↦ run
    | false ↦ elim (lookup uid items) [
      | none ↦ store_messages items rest run
      | some item ↦ store_messages items rest (store_message seq uid item run)
    ]
  ]

-- `_store` on the snapshot that it works with.
unfoldable pub store :
    Surroundings
    → MailboxDef
    → Box
    → Selected
    → MailboxSnapshot
    → Bool
    → Tokens
    → Service
    → Attempt Run
unfolding read_request allowed targets store_messages by_uid deleted_uids
store out mdef key sel snapshot uid_mode args s =
    read_request args >>= allowed sel mdef >>= λ request. done (
      store_messages out mdef key request (by_uid snapshot) (targets sel uid_mode request.numbers)
        (record {
          told = [];
          flags_seen = sel.flags_seen;
          deleted = deleted_uids key s.store;
          service = s;
          raised = false;
        }))
