-- ===== src/Session/Filters.antt =====
-- imapgw/session.py: the loop of EXPUNGE in `flush_pending` is a filter, and filters and sorting on
-- lists in ascending order.
use imap_work_trial.Base.{
  ℕ, zero, suc, ◌≤◌, ◌<◌, ◌≡◌, refl, ap, ap₂, ◌∙◌, nat_eq, ==_iff, Bool, true, ◌&&◌, if◌then◌else◌,
  length, get_elem?, take, drop, filter, contains, All, All-append, All-map, IsAscending, Dict,
  erase, sorted, insert_sorted, Bool-cases, Option-cases, none, some, List, [], ◌∷◌, ◌++◌,
  append_assoc, arith, inl, inr,
}
use imap_work_trial.Mailbox.Flags.{Flags, flags_eq}
use imap_work_trial.Session.Selected.{delete_at, expunge_loop}

filter-append : (p : ℕ → Bool) (xs ys : List ℕ) → filter p (xs ++ ys) ≡ filter p xs ++ filter p ys
filter-append p [] ys = refl
filter-append p (x ∷ xs) ys = ground (arith, filter-append p xs ys)

-- What an index divides a list into.
split_at :
    (n u : ℕ) (xs : List ℕ)
    → get_elem? xs n ≡ some u
    → (take (suc n) xs ≡ take n xs ++ u ∷ []) × (drop n xs ≡ u ∷ drop (suc n) xs)
split_at n u [] e = absurd (ground arith)
split_at zero u (x ∷ xs) e = ground arith
split_at (suc n) u (x ∷ xs) e = ground (arith, split_at n u xs)

take-delete_at : (n : ℕ) (xs : List ℕ) → take n (delete_at n xs) ≡ take n xs
unfolding delete_at
take-delete_at zero xs = refl
take-delete_at (suc n) [] = refl
take-delete_at (suc n) (x ∷ xs) = ap (◌∷◌ x) (take-delete_at n xs)

drop-delete_at : (n : ℕ) (xs : List ℕ) → drop n (delete_at n xs) ≡ drop (suc n) xs
unfolding delete_at
drop-delete_at zero [] = refl
drop-delete_at zero (x ∷ xs) = refl
drop-delete_at (suc n) [] = refl
drop-delete_at (suc n) (x ∷ xs) = drop-delete_at n xs

length-delete_at : (n : ℕ) (xs : List ℕ) → suc n ≤ length xs → n ≤ length (delete_at n xs)
unfolding delete_at
length-delete_at n [] h = absurd (omega arith)
length-delete_at zero (x ∷ xs) h = omega arith
length-delete_at (suc n) (x ∷ xs) h = ground (arith, length-delete_at n xs)

get_elem?-none : (n : ℕ) (xs : List ℕ) → get_elem? xs n ≡ none → length xs ≤ n
get_elem?-none n [] e = omega arith
get_elem?-none zero (x ∷ xs) e = absurd (ground arith)
get_elem?-none (suc n) (x ∷ xs) e = ground (arith, get_elem?-none n xs)

-- One step of the loop, on the list that it should leave.
filter_step :
    (p : ℕ → Bool) (n u : ℕ) (us : List ℕ)
    → get_elem? us n ≡ some u
    → filter p (take (suc n) us) ++ drop (suc n) us
      ≡ filter p (take n us) ++ (if p u then u ∷ drop (suc n) us else drop (suc n) us)
filter_step p n u us e =
    let (taken, _) = split_at n u us e in
    rw (taken, filter-append p (take n us) (u ∷ []))
      (append_assoc (filter p (take n us)) (filter p (u ∷ [])) (drop (suc n) us)
        ∙ ap (λ r. filter p (take n us) ++ r) (ground arith))

-- The loop of EXPUNGE has filtered the UIDs behind the place that it has come to.
pub expunge_loop-filter :
    (live : List ℕ) (n : ℕ) (us : List ℕ) (seen : Dict ℕ Flags)
    → n ≤ length us
    → (expunge_loop live n us seen).1 ≡ filter (contains live) (take n us) ++ drop n us
unfolding expunge_loop
expunge_loop-filter live zero us seen h = refl
expunge_loop-filter live (suc n) us seen h = elim (Option-cases (get_elem? us n)) [
  | inl e ↦ absurd (omega (arith, get_elem?-none n us e))
  | inr (u, e) ↦ elim (Bool-cases (contains live u)) [
    | inl stays ↦
        rw (filter_step (contains live) n u us e, e, stays, expunge_loop)
          (expunge_loop-filter live n us seen (omega arith)
            ∙ ap (λ r. filter (contains live) (take n us) ++ r) (split_at n u us e).1)
    | inr goes ↦
        rw (filter_step (contains live) n u us e, e, goes, expunge_loop)
          (expunge_loop-filter live n (delete_at n us) (erase u seen) (length-delete_at n us h)
            ∙ ap₂ (λ t r. filter (contains live) t ++ r) (take-delete_at n us)
                (drop-delete_at n us))
  ]
]

insert_sorted-first : (a : ℕ) (xs : List ℕ) → All (λ y. a < y) xs → insert_sorted a xs ≡ a ∷ xs
unfolding insert_sorted
insert_sorted-first a [] h = refl
insert_sorted-first a (x ∷ xs) h = ground arith

pub sorted-ascending : (xs : List ℕ) → IsAscending xs → sorted xs ≡ xs
unfolding sorted
sorted-ascending [] h = refl
sorted-ascending (x ∷ xs) h = rw (sorted-ascending xs h.1) (insert_sorted-first x xs h.0)

pub append-IsAscending :
    (xs ys : List ℕ)
    → IsAscending xs
    → IsAscending ys
    → All (λ a. All (λ k. k < a) xs) ys
    → IsAscending (xs ++ ys)
append-IsAscending [] ys hx hy h = hy
append-IsAscending (x ∷ xs) ys hx hy h = (
  All-append (λ y. x < y) xs ys hx.0 (All-map _ _ (λ a k. k.0) ys h),
  append-IsAscending xs ys hx.1 hy (All-map _ _ (λ a k. k.1) ys h),
)

pub All-filter : (P : ℕ → Type 0) (p : ℕ → Bool) (xs : List ℕ) → All P xs → All P (filter p xs)
All-filter P p [] h = tt
All-filter P p (x ∷ xs) h = ground (arith, All-filter P p xs)

pub filter-IsAscending : (p : ℕ → Bool) (xs : List ℕ) → IsAscending xs → IsAscending (filter p xs)
filter-IsAscending p [] h = tt
filter-IsAscending p (x ∷ xs) h =
    ground (arith, All-filter (λ y. x < y) p xs h.0, filter-IsAscending p xs)

pub contains-filter :
    (p : ℕ → Bool) (xs : List ℕ) (u : ℕ) → contains (filter p xs) u ≡ (contains xs u && p u)
contains-filter p [] u = refl
contains-filter p (x ∷ xs) u = ground (arith, ==_iff x u, contains-filter p xs u)

pub All-of : (P : ℕ → Type 0) (xs : List ℕ) → ((u : ℕ) → contains xs u ≡ true → P u) → All P xs
All-of P [] h = tt
All-of P (x ∷ xs) h = (h x (ground (arith, ==_iff x x)), All-of P xs (λ u c. h u (ground arith)))
