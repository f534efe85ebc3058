-- ===== src/Session/Dispatch.antt =====
-- imapgw/session.py: `State`, `dispatch` and the credentials of a session. The deferred work that
-- `_run_deferred` awaits behind the command is left out.
use imap_work_trial.Base.{
  ℕ, ◌==◌, nat_eq, Bool, true, false, ◌&&◌, if◌then◌else◌, Bytes, codes, any, list_eq, Option, none,
  some, List, [], ◌∷◌, ◌++◌,
}
use imap_work_trial.Parser.Tokens.{Command}

pub data State : Type 0 where
  not_authenticated authenticated selected logout : State

abbrev pub same_state : State → State → Bool
same_state not_authenticated not_authenticated = true
same_state authenticated authenticated = true
same_state selected selected = true
same_state logout logout = true
same_state _ _ = false

-- The status of a tagged response that refuses a command.
pub data Status : Type 0 where
  no bad : Status

-- What `dispatch` writes: `r.tagged` with its tag, status, text and code, and `r.bye`.
pub data Reply : Type 0 where
  tagged : Bytes → Status → Bytes → Option Bytes → Reply
  bye : Bytes → Reply

-- The fields of `Session` that `dispatch` reads and writes; `written` is what it wrote, oldest first.
pub record Connection : Type 0 where
  pub state : State
  pub inbox_id : Option Bytes
  pub api : Bool
  pub api_key : Option Bytes
  pub registered : List Bytes
  pub conn_id : Bytes
  pub written : List Reply

unfoldable pub write : Connection → Reply → Connection
write c reply = record c { written = c.written ++ reply ∷ [] }

-- How a handler ended: it returned, or raised. The exceptions are those of the `except` clauses, in
-- their order; `failed` is `CommandFailed`, and `auth_error` carries the HTTP status.
pub data Outcome : Type 0 where
  returned : Outcome
  failed : Status → Bytes → Option Bytes → Outcome
  auth_error : ℕ → Outcome
  unavailable upstream_error timed_out internal : Outcome

-- `require_state`: none, or what it raises
unfoldable pub require_state : List State → Connection → Option Outcome
require_state states c =
    if any (same_state c.state) states
    then none
    else some (failed bad (codes "command not allowed in this state") none)

unfoldable pub set_credentials : Bytes → Bytes → Connection → Connection
set_credentials inbox_id api_key c = record c {
  inbox_id = some inbox_id;
  registered = api_key ∷ c.registered;
  api_key = some api_key;
  api = true;
}

-- `REDACTOR.unregister`: one registration less
unfoldable pub unregister : Bytes → List Bytes → List Bytes
unregister secret [] = []
unregister secret (s ∷ registered) =
    let rest = s ∷ unregister secret registered in if s == secret then registered else rest

-- `if self._api_key`
unfoldable pub release : Option Bytes → List Bytes → List Bytes
unfolding unregister
release none registered = registered
release (some []) registered = registered
release (some (c ∷ key)) registered = unregister (c ∷ key) registered

unfoldable pub clear_credentials : Connection → Connection
unfolding release
clear_credentials c = record c {
  registered = release c.api_key c.registered;
  api_key = none;
  api = false;
}

-- The `except` clause for `AuthError`.
unfoldable pub refuse_auth : Command → ℕ → Connection → Connection
unfolding write
refuse_auth cmd status c =
    if same_state c.state not_authenticated
    then write c
        (tagged cmd.tag no (codes "invalid credentials") (some (codes "AUTHENTICATIONFAILED")))
    else if status == 403
    then write c (
        tagged cmd.tag no (codes "this API key may not perform " ++ cmd.name)
          (some (codes "CANNOT")))
    else record (write c (bye (codes "credentials no longer valid"))) { state = logout }

-- The `except` clauses.
unfoldable pub report : Command → Outcome → Connection → Connection
unfolding write refuse_auth
report cmd returned c = c
report cmd (failed status text code) c = write c (tagged cmd.tag status text code)
report cmd (auth_error status) c = refuse_auth cmd status c
report cmd unavailable c = write c (
    tagged cmd.tag no (codes "upstream unavailable, try again (" ++ cmd.name ++ codes ")")
      (some (codes "UNAVAILABLE")))
report cmd upstream_error c =
    write c (tagged cmd.tag no (codes "upstream error (" ++ cmd.name ++ codes ")") none)
report cmd timed_out c = write c (
    tagged cmd.tag no (codes "upstream timeout (" ++ cmd.name ++ codes ")")
      (some (codes "UNAVAILABLE")))
report cmd internal c =
    write c (tagged cmd.tag no (codes "internal error (ref " ++ c.conn_id ++ codes ")") none)

-- The `finally` clause.
unfoldable pub settle : Connection → Connection
unfolding clear_credentials
settle c = if same_state c.state not_authenticated && c.api then clear_credentials c else c

-- A handler of `commands.HANDLERS`: what it makes of the session, and how it ended.
abbrev pub Handler : Type 0
Handler = Command → Connection → Connection × Outcome

unfoldable pub dispatch : (Bytes → Option Handler) → Command → Connection → Connection
unfolding write report settle
dispatch handlers cmd c = elim (handlers cmd.name) [
  | none ↦ write c (tagged cmd.tag bad (codes "unknown command " ++ cmd.name) none)
  | some handler ↦ let (c', outcome) = handler cmd c in settle (report cmd outcome c')
]
