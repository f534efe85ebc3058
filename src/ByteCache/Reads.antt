-- ===== src/ByteCache/Reads.antt =====
-- What can be read after a call, what is evicted, and the runs of calls.
use mathlib.Core.List.{foldl}
use imap_work_trial.Base.{
  ℕ, zero, suc, ◌+◌, ◌-◌, ◌≤◌, ◌<◌, ◌≡◌, ◌⊎◌, refl, Eq, ==_iff, Bytes, Dict, lookup, erase,
  lookup-erase, length, take, drop, ltb, false, Bool-cases, lt→ltb, none, some, List, [], ◌∷◌, ◌++◌,
  arith, inl, inr,
}
use imap_work_trial.ByteCache.Defs.{ByteCache, init, evict, move_to_end, get, discard, put, clear}
use imap_work_trial.ByteCache.Size.{
  total, total-erase, total-move, erase_absent, discard_lem, IsValid, IsExact, init-IsValid,
  put-IsValid, get-IsValid, discard-IsValid, clear-IsValid,
}

-- The loop drops oldest entries, and each of them only while the size is over the budget.
evict_lem :
    {K : Type 0} (max_bytes size : ℕ) (items : Dict K Bytes)
    → (n : ℕ) × ((evict max_bytes size items).0 ≡ drop n items)
      × ((j : ℕ) → j < n → max_bytes < size - total (take j items))
unfolding evict total
evict_lem max_bytes size [] = (0, refl, λ j h. elim h [ ])
evict_lem max_bytes size ((k, d) ∷ items) = elim (Bool-cases (ltb max_bytes size)) [
  | inl over ↦
      let (n, dropped, late) = evict_lem max_bytes (size - length d) items in
      (
        suc n,
        rw over dropped,
        elim [ zero ↦ λ h. ground arith | suc j ↦ λ h. omega (arith, late j) ],
      )
  | inr fits ↦ (0, rw fits, λ j h. elim h [ ])
]

evict_exact :
    {K : Type 0} (max_bytes size : ℕ) (items : Dict K Bytes)
    → size ≡ total items
    → (evict max_bytes size items).1 ≡ total (evict max_bytes size items).0
unfolding evict total
evict_exact max_bytes size [] h = h
evict_exact max_bytes size ((k, d) ∷ items) h =
    ground (arith, evict_exact max_bytes (size - length d) items)

module _ {K : Type 0} ⦃e : Eq K⦄ where
  lookup-append_last :
      (items : Dict K Bytes) (k : K) (d : Bytes)
      → lookup k items ≡ none
      → lookup k (items ++ (k, d) ∷ []) ≡ some d
  unfolding lookup
  lookup-append_last [] k d new = ground (arith, ==_iff k k)
  lookup-append_last ((j, c) ∷ items) k d new = ground (arith, lookup-append_last items k d)

  -- The newest entry is the last to go, and it stays if it fits the budget alone.
  evict_keeps :
      (max_bytes size : ℕ) (items : Dict K Bytes) (k : K) (d : Bytes)
      → size ≡ total items + length d
      → length d ≤ max_bytes
      → lookup k items ≡ none
      → lookup k (evict max_bytes size (items ++ (k, d) ∷ [])).0 ≡ some d
  unfolding evict total lookup
  evict_keeps max_bytes size [] k d h fits new = ground (arith, ==_iff k k)
  evict_keeps max_bytes size ((j, c) ∷ items) k d h fits new =
      ground
        (arith, lookup-append_last items k d, evict_keeps max_bytes (size - length c) items k d)

  absent : (k : K) (items : Dict K Bytes) → lookup k (erase k items) ≡ none
  absent k items = rw lookup-erase (ground (arith, ==_iff k k))

  exact_after_discard :
      (c : ByteCache K) (k : K)
      → IsValid c
      → IsExact c
      → (discard c k).size ≡ total (erase k c.items)
  exact_after_discard c k v x = omega (arith, (discard_lem c k v).1)

  -- After a `put` of content that fits the budget, with a size that counts the entries' bytes and
  -- no more, the key has that content.
  pub lookup-put :
      (c : ByteCache K) (k : K) (d : Bytes)
      → IsValid c
      → IsExact c
      → length d ≤ c.max_bytes
      → lookup k (put c k d).items ≡ some d
  unfolding put
  lookup-put c k d v x fits =
      let (items, _, _) = discard_lem c k v in
      rw (ltb_fits, put, items)
        (evict_keeps c.max_bytes _ (erase k c.items) k d
          (omega (arith, exact_after_discard c k v x)) fits (absent k c.items))
    where
      ltb_fits : ltb c.max_bytes (length d) ≡ false
      ltb_fits = ground arith

  -- A `put` of content that fits keeps the entries in their order, the key's own now last, less
  -- some of the oldest; each of these was dropped while the size was over the budget.
  pub put-drop :
      (c : ByteCache K) (k : K) (d : Bytes)
      → IsValid c
      → length d ≤ c.max_bytes
      → (n : ℕ) × ((put c k d).items ≡ drop n (move_to_end k d c.items))
        × ((j : ℕ)
            → j < n
            → c.max_bytes
              < (discard c k).size + length d - total (take j (move_to_end k d c.items)))
  unfolding put move_to_end
  put-drop c k d v fits =
      let (items, _, _) = discard_lem c k v in
      rw (ltb_fits, put, items)
        (evict_lem c.max_bytes ((discard c k).size + length d) (erase k c.items ++ (k, d) ∷ []))
    where
      ltb_fits : ltb c.max_bytes (length d) ≡ false
      ltb_fits = ground arith

  -- `put` keeps the size equal to the bytes of the entries, if the content fits the budget or the
  -- key is new.
  pub put-IsExact :
      (c : ByteCache K) (k : K) (d : Bytes)
      → IsValid c
      → IsExact c
      → (length d ≤ c.max_bytes) ⊎ (lookup k c.items ≡ none)
      → IsExact (put c k d)
  unfolding put
  put-IsExact c k d v x h = elim (Bool-cases (ltb c.max_bytes (length d))) [
    | inl over ↦ rw (over, put) (ground (arith, erase_absent k c.items))
    | inr fits ↦
        rw (fits, put)
          (evict_exact c.max_bytes _ _ (
            rw (discard_lem c k v).0
              (omega (arith, total-move k d (erase k c.items), exact_after_discard c k v x))))
  ]

  -- A `put` of content over the budget drops the key's old entry and leaves the old entry's bytes
  -- in the size: from then on the size is too large by these bytes.
  pub put-leak :
      (c : ByteCache K) (k : K) (old d : Bytes)
      → IsValid c
      → IsExact c
      → lookup k c.items ≡ some old
      → c.max_bytes < length d
      → ((put c k d).size ≡ total (put c k d).items + length old)
        × (lookup k (put c k d).items ≡ none)
  unfolding put
  put-leak c k old d v x hit over =
      rw (lt→ltb _ _ over, put)
        (omega (arith, total-erase k c.items old v.distinct hit), absent k c.items)

-- One call of a method; `get` is a call too, since it changes the order.
pub data Call (K : Type 0) : Type 0 where
  get_call : K → Call K
  put_call : K → Bytes → Call K
  discard_call : K → Call K
  clear_call : Call K

module _ {K : Type 0} ⦃e : Eq K⦄ where
  unfoldable pub step : ByteCache K → Call K → ByteCache K
  step c (get_call k) = (get c k).0
  step c (put_call k d) = put c k d
  step c (discard_call k) = discard c k
  step c clear_call = clear c

  step-IsValid : (c : ByteCache K) (call : Call K) → IsValid c → IsValid (step c call)
  unfolding step
  step-IsValid c (get_call k) v = get-IsValid c k v
  step-IsValid c (put_call k d) v = put-IsValid c k d v
  step-IsValid c (discard_call k) v = discard-IsValid c k v
  step-IsValid c clear_call v = clear-IsValid c

  -- After any calls on a new cache the entries' bytes are within the size, the size is within the
  -- budget, and no key stands twice.
  pub calls-IsValid :
      (max_bytes : ℕ) (calls : List (Call K)) → IsValid (foldl step (init max_bytes) calls)
  calls-IsValid max_bytes calls = go calls (init max_bytes) (init-IsValid max_bytes)
    where
      go : (calls : List (Call K)) (c : ByteCache K) → IsValid c → IsValid (foldl step c calls)
      go [] c v = v
      go (call ∷ calls) c v = go calls (step c call) (step-IsValid c call v)
