-- ===== src/ApiClient/Budget.antt =====
-- imapgw/apiclient.py: what the retries of a request can come to.
use imap_work_trial.Base.{ℕ, ◌+◌, ◌≤◌, ◌<◌, ◌≡◌, ◌⊎◌, Option, arith}
use imap_work_trial.ApiClient.Requests.{
  HttpResponse, AgentMailError, Client, answer, fatal, again, attempt_once, answered, raised,
  Finished, delay_of, attempts_allowed,
}

-- Why the loop ended at its last attempt.
pub data Ended (c : Client) (deadline : ℕ) (r : Finished) : Type 0 where
  got :
      (resp : HttpResponse)
      → attempt_once c r.attempts ≡ answer resp
      → r.outcome ≡ answered resp
      → Ended c deadline r
  refused :
      (err : AgentMailError)
      → attempt_once c r.attempts ≡ fatal err
      → r.outcome ≡ raised err
      → Ended c deadline r
  gave_up :
      (err : AgentMailError) (asked : Option ℕ)
      → attempt_once c r.attempts ≡ again err asked
      → r.outcome ≡ raised err
      → (r.attempts ≡ attempts_allowed c)
        ⊎ (deadline < r.started + c.takes r.attempts + delay_of c r.attempts asked)
      → Ended c deadline r

-- The attempts from `first` on that were followed by another one could be tried again.
abbrev pub Retried : Client → ℕ → ℕ → Type 0
Retried c first last =
    (j : ℕ)
    → first ≤ j
    → j < last
    → (err : AgentMailError) × (asked : Option ℕ) × (attempt_once c j ≡ again err asked)

pub record Within (c : Client) (first now deadline : ℕ) (r : Finished) : Type 0 where
  pub at_least : first ≤ r.attempts
  pub at_most : r.attempts ≤ attempts_allowed c
  pub in_time : (r.started ≤ now) ⊎ (r.started ≤ deadline)
  pub retried : Retried c first r.attempts
  pub ended : Ended c deadline r

allowed : (c : Client) → 1 ≤ attempts_allowed c
unfolding attempts_allowed
allowed c = omega arith
