-- ===== src/ApiClient/Paging.antt =====
-- imapgw/apiclient.py: `_paginate`, the loop over the pages of a listing, and why it ends.
use imap_work_trial.Base.{
  ℕ, zero, suc, ◌+◌, ◌≤◌, ◌<◌, ◌≡◌, refl, ==_iff, nat_eq, list_eq, Bool, true, false, not, Bytes,
  length, filter, contains, IsDistinct, if◌then◌else◌, Bool-cases, Option, none, some, List, [],
  ◌∷◌, ◌++◌, arith, inl, inr,
}
use imap_work_trial.ApiClient.Requests.{AgentMailError, unavailable}

-- `page[items_key]`: not there, no list, or a list whose entries are objects or not
pub data Entries (A : Type 0) : Type 0 where
  missing not_a_list : Entries A
  listed : List (Option A) → Entries A

-- What a GET of a page comes to: an error of `_json`, or the page with its `next_page_token`.
pub data Page (A : Type 0) : Type 0 where
  failed : AgentMailError → Page A
  page : Entries A → Option Bytes → Page A

-- The items yielded, the error at the end if there is one, and the tokens followed, newest first.
pub record Listing (A : Type 0) : Type 0 where
  pub yielded : List A
  pub error : Option AgentMailError
  pub seen : List Bytes

-- `UnavailableError` of a malformed page or of a loop
abbrev pub malformed : AgentMailError
malformed = unavailable none false

abbrev pub stop : {A : Type 0} → List A → Option AgentMailError → List Bytes → Option (Listing A)
stop yielded error seen = some (record { yielded = yielded; error = error; seen = seen })

-- The `for` over a page's entries: what it yields, and whether all were objects.
unfoldable pub objects : {A : Type 0} → List (Option A) → List A × Bool
objects [] = ([], true)
objects (none ∷ entries) = ([], false)
objects (some item ∷ entries) = let (items, whole) = objects entries in (item ∷ items, whole)

-- `if not token`
abbrev pub wanted : Option Bytes → Option Bytes
wanted none = none
wanted (some []) = none
wanted (some (c ∷ token)) = some (c ∷ token)

unfoldable pub prepend : {A : Type 0} → List A → Option (Listing A) → Option (Listing A)
prepend items none = none
prepend items (some l) = some (record l { yielded = items ++ l.yielded })

-- What a round does behind the items of its page; `onward` is the run from the next token on.
unfoldable pub follow :
    {A : Type 0}
    → List A
    → List Bytes
    → (Bytes → Option (Listing A))
    → Option Bytes
    → Option (Listing A)
unfolding prepend
follow items seen onward none = stop items none seen
follow items seen onward (some t) =
    if contains seen t then stop items (some malformed) seen else prepend items (onward t)

-- One round of the loop.
unfoldable pub page_round :
    {A : Type 0} → List Bytes → (Bytes → Option (Listing A)) → Page A → Option (Listing A)
unfolding objects follow
page_round seen onward (failed err) = stop [] (some err) seen
page_round seen onward (page missing next) = stop [] (some malformed) seen
page_round seen onward (page not_a_list next) = stop [] (some malformed) seen
page_round seen onward (page (listed entries) next) =
    let (items, whole) = objects entries in
    if whole then follow items seen onward (wanted next) else stop items (some malformed) seen

-- The loop of `_paginate`, on fuel.
unfoldable pub page_loop :
    {A : Type 0} → ℕ → (Option Bytes → Page A) → Option Bytes → List Bytes → Option (Listing A)
unfolding page_round
page_loop zero pages token seen = none
page_loop (suc f) pages token seen =
    page_round seen (λ t. page_loop f pages (some t) (t ∷ seen)) (pages token)

unfoldable pub paginate : {A : Type 0} → ℕ → (Option Bytes → Page A) → Option (Listing A)
unfolding page_loop
paginate f pages = page_loop f pages none []

abbrev pub Known : List Bytes → Option Bytes → Type 0
Known tokens none = Unit
Known tokens (some t) = contains tokens t ≡ true

-- The tokens that pages hand out come from `tokens`.
abbrev pub HandsOut : {A : Type 0} → List Bytes → Page A → Type 0
HandsOut tokens (failed err) = Unit
HandsOut tokens (page entries next) = Known tokens (wanted next)

-- The tokens that are not followed yet.
abbrev unseen : List Bytes → List Bytes → ℕ
unseen seen tokens = length (filter (λ t. not (contains seen t)) tokens)

unseen-le : (t : Bytes) (seen tokens : List Bytes) → unseen (t ∷ seen) tokens ≤ unseen seen tokens
unseen-le t seen [] = omega arith
unseen-le t seen (u ∷ tokens) = ground (arith, unseen-le t seen tokens)

unseen-lt :
    (t : Bytes) (seen tokens : List Bytes)
    → contains seen t ≡ false
    → contains tokens t ≡ true
    → unseen (t ∷ seen) tokens < unseen seen tokens
unseen-lt t seen [] new from = absurd (ground arith)
unseen-lt t seen (u ∷ tokens) new from =
    ground (arith, ==_iff u t, ==_iff t u, unseen-le t seen tokens, unseen-lt t seen tokens)

unseen-length : (tokens : List Bytes) → unseen [] tokens ≤ length tokens
unseen-length [] = omega arith
unseen-length (t ∷ tokens) = ground (arith, unseen-length tokens)

-- A run that ended, and followed no token twice.
abbrev pub Ends : {A : Type 0} → Option (Listing A) → Type 0
Ends {A} r = (l : Listing A) × (r ≡ some l) × IsDistinct l.seen

prepend-Ends :
    {A : Type 0} (items : List A) (r : Option (Listing A)) → Ends r → Ends (prepend items r)
unfolding prepend
prepend-Ends items none (l, e, d) = absurd (ground arith)
prepend-Ends items (some k) (l, e, d) =
    (record k { yielded = items ++ k.yielded }, refl, ground arith)

follow-Ends :
    {A : Type 0} (items : List A) (seen : List Bytes) (onward : Bytes → Option (Listing A))
    (next : Option Bytes)
    → IsDistinct seen
    → ((t : Bytes) → next ≡ some t → contains seen t ≡ false → Ends (onward t))
    → Ends (follow items seen onward next)
unfolding follow
follow-Ends items seen onward none d h =
    (record { yielded = items; error = none; seen = seen }, refl, d)
follow-Ends items seen onward (some t) d h = elim (Bool-cases (contains seen t)) [
  | inl old ↦ (record { yielded = items; error = some malformed; seen = seen }, rw old refl, d)
  | inr new ↦ rw new (prepend-Ends items (onward t) (h t refl new))
]

handed_out :
    (tokens : List Bytes) (next : Option Bytes) (t : Bytes)
    → Known tokens next
    → next ≡ some t
    → contains tokens t ≡ true
handed_out tokens none t from e = absurd (ground arith)
handed_out tokens (some u) t from e = ground arith

page_round-Ends :
    {A : Type 0} (tokens seen : List Bytes) (onward : Bytes → Option (Listing A)) (p : Page A)
    → HandsOut tokens p
    → IsDistinct seen
    → ((t : Bytes) → contains tokens t ≡ true → contains seen t ≡ false → Ends (onward t))
    → Ends (page_round seen onward p)
unfolding page_round
page_round-Ends tokens seen onward (failed err) from d h =
    (record { yielded = []; error = some err; seen = seen }, refl, d)
page_round-Ends tokens seen onward (page missing next) from d h =
    (record { yielded = []; error = some malformed; seen = seen }, refl, d)
page_round-Ends tokens seen onward (page not_a_list next) from d h =
    (record { yielded = []; error = some malformed; seen = seen }, refl, d)
page_round-Ends tokens seen onward (page (listed entries) next) from d h =
    elim (Bool-cases (objects entries).1) [
      | inl whole ↦ rw whole (
          follow-Ends _ seen onward (wanted next) d
            (λ t e new. h t (handed_out tokens (wanted next) t from e) new))
      | inr broken ↦ (
        record { yielded = (objects entries).0; error = some malformed; seen = seen },
        rw broken refl,
        d,
      )
    ]

page_loop-Ends :
    {A : Type 0} (tokens : List Bytes) (pages : Option Bytes → Page A)
    → ((token : Option Bytes) → HandsOut tokens (pages token))
    → (f : ℕ) (token : Option Bytes) (seen : List Bytes) → IsDistinct seen
    → unseen seen tokens < f
    → Ends (page_loop f pages token seen)
unfolding page_loop
page_loop-Ends tokens pages from zero token seen d h = absurd (omega arith)
page_loop-Ends tokens pages from (suc f) token seen d h =
    page_round-Ends tokens seen _ (pages token) (from token) d (λ t known new.
      page_loop-Ends tokens pages from f (some t) (t ∷ seen) (new, d)
        (omega (arith, unseen-lt t seen tokens new known)))

-- If the tokens that the service hands out are among finitely many, a listing ends, with an error
-- or behind its last page, and it follows no token twice.
pub paginate-Ends :
    {A : Type 0} (tokens : List Bytes) (pages : Option Bytes → Page A)
    → ((token : Option Bytes) → HandsOut tokens (pages token))
    → Ends (paginate (length tokens + 1) pages)
unfolding paginate
paginate-Ends tokens pages from =
    page_loop-Ends tokens pages from (length tokens + 1) none [] tt
      (omega (arith, unseen-length tokens))
