-- ===== src/Session/Answers.antt =====
-- imapgw/session.py: what `dispatch` answers to a command that fails, and what it leaves of the
-- credentials.
use imap_work_trial.Base.{
  ℕ, ◌≡◌, ◌≢◌, refl, sym, ap, ◌∙◌, ◌==◌, nat_eq, ==_iff, true, false, Bytes, Bool-cases, Option,
  none, some, [], ◌∷◌, ◌++◌, arith, inl, inr,
}
use imap_work_trial.Parser.Tokens.{Command}
use imap_work_trial.Session.Dispatch.{
  State, not_authenticated, logout, same_state, Status, tagged, bye, Connection, write, Outcome,
  returned, failed, auth_error, unavailable, upstream_error, timed_out, internal, clear_credentials,
  refuse_auth, report, settle, Handler, dispatch,
}

-- What a command that fails is answered: one response with its tag and the state as it was, or BYE
-- behind which the session is over. BYE is for credentials that the upstream service no longer
-- accepts, once the session is authenticated.
pub data Refused (cmd : Command) (outcome : Outcome) (c c' : Connection) : Type 0 where
  refused :
      (status : Status) (text : Bytes) (code : Option Bytes)
      → c'.written ≡ c.written ++ tagged cmd.tag status text code ∷ []
      → c'.state ≡ c.state
      → Refused cmd outcome c c'
  thrown_out :
      (n : ℕ) (text : Bytes)
      → outcome ≡ auth_error n
      → n ≢ 403
      → c.state ≢ not_authenticated
      → c'.written ≡ c.written ++ bye text ∷ []
      → c'.state ≡ logout
      → Refused cmd outcome c c'

settle-written : (c : Connection) → ((settle c).written ≡ c.written) × ((settle c).state ≡ c.state)
unfolding settle clear_credentials
settle-written c = ground arith

same_state_lem : (s : State) → same_state s not_authenticated ≡ false → s ≢ not_authenticated
same_state_lem s h = ground arith

report-Refused :
    (cmd : Command) (outcome : Outcome) (c : Connection)
    → outcome ≢ returned
    → Refused cmd outcome c (report cmd outcome c)
unfolding report write refuse_auth
report-Refused cmd returned c h = absurd (h refl)
report-Refused cmd (failed status text code) c h = refused status text code refl refl
report-Refused cmd unavailable c h = refused _ _ _ refl refl
report-Refused cmd upstream_error c h = refused _ _ _ refl refl
report-Refused cmd timed_out c h = refused _ _ _ refl refl
report-Refused cmd internal c h = refused _ _ _ refl refl
report-Refused cmd (auth_error n) c h = elim (Bool-cases (same_state c.state not_authenticated)) [
  | inl early ↦ rw (early, refuse_auth) (refused _ _ _ refl refl)
  | inr late ↦ elim (Bool-cases (n == 403)) [
    | inl denied ↦ rw (late, denied, refuse_auth) (refused _ _ _ refl refl)
    | inr gone ↦
        rw (late, gone, refuse_auth)
          (thrown_out n _ refl (ground (arith, ==_iff n 403)) (same_state_lem c.state late) refl
            refl)
  ]
]

Refused-settle :
    {cmd : Command} {outcome : Outcome} {c c' : Connection}
    → Refused cmd outcome c c'
    → Refused cmd outcome c (settle c')
Refused-settle {c' = c'} (refused status text code w s) =
    let (written, state) = settle-written c' in refused status text code (written ∙ w) (state ∙ s)
Refused-settle {c' = c'} (thrown_out n text o other late w s) =
    let (written, state) = settle-written c' in
    thrown_out n text o other late (written ∙ w) (state ∙ s)

-- A command whose handler raises is answered behind what the handler wrote: by one NO or BAD with
-- the command's tag, which leaves the state as the handler left it, or, where the upstream service
-- rejects the credentials of an authenticated session with another status than 403, by BYE and the
-- end of the session.
pub dispatch-Refused :
    (handlers : Bytes → Option Handler) (cmd : Command) (c : Connection) (handler : Handler)
    → handlers cmd.name ≡ some handler
    → (handler cmd c).1 ≢ returned
    → Refused cmd (handler cmd c).1 (handler cmd c).0 (dispatch handlers cmd c)
unfolding dispatch
dispatch-Refused handlers cmd c handler e raised =
    rw (e, dispatch)
      (Refused-settle (report-Refused cmd (handler cmd c).1 (handler cmd c).0 raised))

-- No key is kept without a client of the upstream service beside it.
abbrev pub IsPaired : Connection → Type 0
IsPaired c = c.api ≡ false → c.api_key ≡ none

report-credentials :
    (cmd : Command) (outcome : Outcome) (c : Connection)
    → ((report cmd outcome c).api ≡ c.api) × ((report cmd outcome c).api_key ≡ c.api_key)
unfolding report write refuse_auth
report-credentials cmd returned c = (refl, refl)
report-credentials cmd (failed status text code) c = (refl, refl)
report-credentials cmd (auth_error n) c = ground arith
report-credentials cmd unavailable c = (refl, refl)
report-credentials cmd upstream_error c = (refl, refl)
report-credentials cmd timed_out c = (refl, refl)
report-credentials cmd internal c = (refl, refl)

settle-cleared :
    (c : Connection)
    → IsPaired c
    → same_state (settle c).state not_authenticated ≡ true
    → ((settle c).api ≡ false) × ((settle c).api_key ≡ none)
unfolding settle clear_credentials
settle-cleared c paired early = elim (Bool-cases c.api) [
  | inl held ↦ ground arith
  | inr absent ↦ ground (arith, paired absent)
]

-- A session that is not authenticated behind a command that has a handler holds no client and no
-- key, whether the handler returned or raised, if the handler leaves no key without a client.
pub dispatch-cleared :
    (handlers : Bytes → Option Handler) (cmd : Command) (c : Connection) (handler : Handler)
    → handlers cmd.name ≡ some handler
    → IsPaired (handler cmd c).0
    → (dispatch handlers cmd c).state ≡ not_authenticated
    → ((dispatch handlers cmd c).api ≡ false) × ((dispatch handlers cmd c).api_key ≡ none)
unfolding dispatch
dispatch-cleared handlers cmd c handler e paired =
    let (client, key) = report-credentials cmd (handler cmd c).1 (handler cmd c).0 in
    rw (e, dispatch)
      (λ early.
        settle-cleared (report cmd (handler cmd c).1 (handler cmd c).0)
          (λ absent. key ∙ paired (sym client ∙ absent))
          (ap (λ s. same_state s not_authenticated) early))
