-- ===== src/Examples/Requests.antt =====
-- Runs of the models of imapgw/apiclient.py at concrete inputs.
use imap_work_trial.Base.{
  ℕ, ◌+◌, ◌≡◌, refl, false, ◌==◌, if◌then◌else◌, Bool-cases, inl, inr, nat_eq, list_eq, Bytes,
  codes, length, Option, none, some, List, [], ◌∷◌,
}
use imap_work_trial.ApiClient.Requests.{
  HttpResponse, Reply, response, transport_error, Client, answered, with_retries, retry_loop,
  attempt_once, attempts_allowed, classify, retry_after, delay_of, backoff_delay,
}
use imap_work_trial.ApiClient.Paging.{
  Page, page, listed, Listing, malformed, paginate, page_loop, page_round, objects, follow, prepend,
  Ends, HandsOut, paginate-Ends,
}

abbrev answer : ℕ → Option Bytes → HttpResponse
answer status retry = record { status = status; retry_after_header = retry; body = [] }

-- A lost request, a 503 with a `retry-after`, and a 200.
abbrev transport : ℕ → Reply
transport n =
    if n == 1
    then transport_error
    else if n == 2
    then response (answer 503 (some (codes "4")))
    else response (answer 200 none)

abbrev client : Client
client = record {
  max_attempts = 4;
  retry_budget = 30;
  backoff_base = 2;
  transport = transport;
  takes = λ n. 1;
  rng = λ n. 0;
  read_float = λ raw. some (false, 4);
}

-- The third request is made at 10 + 1 + 2 + 1 + 4.
with_retries_lem :
    with_retries client 10
    ≡ some (record { outcome = answered (answer 200 none); attempts = 3; started = 18 })
unfolding with_retries retry_loop attempt_once attempts_allowed classify retry_after delay_of
    backoff_delay
with_retries_lem = refl

abbrev tokens : List Bytes
tokens = codes "a" ∷ codes "b" ∷ []

-- Three pages, the last of which names the first again.
abbrev pages : Option Bytes → Page ℕ
pages none = page (listed (some 1 ∷ some 2 ∷ [])) (some (codes "a"))
pages (some token) =
    if token == codes "a"
    then page (listed (some 3 ∷ [])) (some (codes "b"))
    else page (listed []) (some (codes "a"))

abbrev looped : Listing ℕ
looped = record {
  yielded = 1 ∷ 2 ∷ 3 ∷ [];
  error = some malformed;
  seen = codes "b" ∷ codes "a" ∷ [];
}

paginate_lem : paginate 3 pages ≡ some looped
unfolding paginate page_loop page_round objects follow prepend
paginate_lem = refl

pages-HandsOut : (token : Option Bytes) → HandsOut tokens (pages token)
pages-HandsOut none = refl
pages-HandsOut (some token) = elim (Bool-cases (token == codes "a")) [
  | inl first ↦ rw (first, pages) refl
  | inr other ↦ rw (other, pages) refl
]

paginate-Ends_example : Ends (paginate (length tokens + 1) pages)
paginate-Ends_example = paginate-Ends tokens pages pages-HandsOut
