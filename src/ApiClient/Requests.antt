-- ===== src/ApiClient/Requests.antt =====
-- imapgw/apiclient.py: `_classify`, `_retry_after`, `_backoff_delay`, `_with_retries`, `download`.
-- Times are natural numbers of some unit; a sleep lasts as long as it is asked to.
use mathlib.Core.Option
use imap_work_trial.Base.{
  ℕ, zero, suc, ◌+◌, ◌-◌, ◌*◌, ◌/◌, ◌^◌, max, ◌==◌, nat_eq, leb, ltb, Bool, true, false, ◌&&◌, ◌||◌,
  Bytes, if◌then◌else◌, Option, none, some,
}

-- `HttpResponse`; of the headers only `retry-after` is read
pub record HttpResponse : Type 0 where
  pub status : ℕ
  pub retry_after_header : Option Bytes
  pub body : Bytes

-- `AgentMailError` and its subclasses: each with `status`, `UnavailableError` with `retryable` too
pub data AgentMailError : Type 0 where
  auth_error : ℕ → AgentMailError
  not_found : AgentMailError
  bad_request : ℕ → AgentMailError
  unavailable : Option ℕ → Bool → AgentMailError

abbrev pub retryable : AgentMailError → Bool
retryable (unavailable status r) = r
retryable (auth_error _) = false
retryable not_found = false
retryable (bad_request _) = false

-- `_classify`, by the status
unfoldable pub classify : ℕ → AgentMailError
classify status =
    if leb 300 status && ltb status 400
    then unavailable (some status) false
    else if status == 401 || status == 403
    then auth_error status
    else if status == 404
    then not_found
    else if status == 429 || leb 500 status
    then unavailable (some status) true
    else bad_request status

-- What one request to the transport comes to: an answer, or `TransportError`.
pub data Reply : Type 0 where
  response : HttpResponse → Reply
  transport_error : Reply

-- The client's settings, and what it is run with: the transport's reply to the n-th request and the
-- time that it takes, `rng` as a number of 2 ^ -53, and `float` on the header's text,
-- as whether it is negative and its magnitude.
pub record Client : Type 0 where
  pub max_attempts : ℕ
  pub retry_budget : ℕ
  pub backoff_base : ℕ
  pub transport : ℕ → Reply
  pub takes : ℕ → ℕ
  pub rng : ℕ → ℕ
  pub read_float : Bytes → Option (Bool × ℕ)

-- `max(1, max_attempts)` of `__init__`
unfoldable pub attempts_allowed : Client → ℕ
attempts_allowed c = max 1 c.max_attempts

-- `_backoff_delay`
unfoldable pub backoff_delay : Client → ℕ → ℕ
backoff_delay c attempt =
    c.backoff_base * 2 ^ (attempt - 1) * (4 * 2 ^ 53 + c.rng attempt) / (4 * 2 ^ 53)

-- `max(0.0, value)`, for a sign and a magnitude
abbrev pub at_least_0 : Bool × ℕ → ℕ
at_least_0 (negative, magnitude) = if negative then 0 else magnitude

-- `_retry_after`; a header that `float` cannot read counts as none
unfoldable pub retry_after : Client → HttpResponse → Option ℕ
retry_after c resp = elim resp.retry_after_header [
  | none ↦ none
  | some raw ↦ Option.map at_least_0 (c.read_float raw)
]

-- `200 <= resp.status < 300`
abbrev pub is_success : HttpResponse → Bool
is_success resp = leb 200 resp.status && ltb resp.status 300

-- What one attempt comes to: the answer, the error that ends the loop at once, or the error that it
-- may try again after, with the delay that the server asks for.
pub data Attempt : Type 0 where
  answer : HttpResponse → Attempt
  fatal : AgentMailError → Attempt
  again : AgentMailError → Option ℕ → Attempt

unfoldable pub attempt_once : Client → ℕ → Attempt
unfolding classify retry_after
attempt_once c attempt = elim (c.transport attempt) [
  | transport_error ↦ again (unavailable none true) none
  | response resp ↦
      let err = classify resp.status in
      if is_success resp
      then answer resp
      else if retryable err
      then again err (retry_after c resp)
      else fatal err
]

pub data Outcome : Type 0 where
  answered : HttpResponse → Outcome
  raised : AgentMailError → Outcome

-- How the loop ended, and what it took: the number of requests, and the time at which the last one
-- was made.
pub record Finished : Type 0 where
  pub outcome : Outcome
  pub attempts : ℕ
  pub started : ℕ

abbrev pub ended_at : ℕ → ℕ → Outcome → Finished
ended_at attempt now o = record { outcome = o; attempts = attempt; started = now }

-- `retry_after if retry_after is not None else self._backoff_delay(attempt)`
unfoldable pub delay_of : Client → ℕ → Option ℕ → ℕ
unfolding backoff_delay
delay_of c attempt (some d) = d
delay_of c attempt none = backoff_delay c attempt

-- The loop of `_with_retries`, on fuel: the attempt to make, the time, and the deadline.
unfoldable pub retry_loop : ℕ → Client → ℕ → ℕ → ℕ → Option Finished
retry_loop zero c attempt now deadline = none
retry_loop (suc f) c attempt now deadline =
    let finish = λ (o : Outcome). some (ended_at attempt now o) in
    elim (attempt_once c attempt) [
      | answer resp ↦ finish (answered resp)
      | fatal err ↦ finish (raised err)
      | again err asked ↦
          let now' = now + c.takes attempt in
          let delay = delay_of c attempt asked in
          let onward = retry_loop f c (attempt + 1) (now' + delay) deadline in
          if leb (attempts_allowed c) attempt
          then finish (raised err)
          else if ltb deadline (now' + delay)
          then finish (raised err)
          else onward
    ]

-- `_with_retries`; as many rounds as attempts are allowed are enough (ApiClient.Budget)
unfoldable pub with_retries : Client → ℕ → Option Finished
unfolding attempts_allowed
with_retries c now = retry_loop (attempts_allowed c) c 1 now (now + c.retry_budget)

-- `download`: only a 200 counts
unfoldable pub download_of : HttpResponse → Outcome
download_of resp =
    if resp.status == 200 then answered resp else raised (unavailable (some resp.status) false)
