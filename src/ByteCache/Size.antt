-- ===== src/ByteCache/Size.antt =====
-- The size that the cache keeps, against the bytes that it holds.
use imap_work_trial.Base.{
  lookup-erase, ◌==◌, ℕ, ◌+◌, ◌-◌, ◌≤◌, ◌≡◌, refl, Eq, ==_iff, Dict, lookup, erase, Bytes, length,
  ltb, false, Bool-cases, Option-cases, none, some, [], ◌∷◌, ◌++◌, arith, inl, inr,
}
use imap_work_trial.ByteCache.Defs.{ByteCache, init, evict, move_to_end, get, discard, put, clear}

-- The bytes that the entries hold.
unfoldable pub total : {K : Type 0} → Dict K Bytes → ℕ
total [] = 0
total ((k, d) ∷ items) = length d + total items

pub total-append : {K : Type 0} (a b : Dict K Bytes) → total (a ++ b) ≡ total a + total b
unfolding total
total-append [] b = omega arith
total-append ((k, d) ∷ a) b = omega (arith, total-append a b)

pub total-move :
    {K : Type 0} (k : K) (d : Bytes) (items : Dict K Bytes)
    → total (items ++ (k, d) ∷ []) ≡ total items + length d
unfolding total
total-move k d items = omega (arith, total-append items ((k, d) ∷ []))

-- A key stands at most once.
module _ {K : Type 0} ⦃e : Eq K⦄ where
  abbrev pub HasDistinctKeys : Dict K Bytes → Type 0
  HasDistinctKeys [] = Unit
  HasDistinctKeys ((k, d) ∷ items) = (lookup k items ≡ none) × HasDistinctKeys items

  pub erase_absent : (k : K) (items : Dict K Bytes) → lookup k items ≡ none → erase k items ≡ items
  unfolding lookup erase
  erase_absent k [] h = refl
  erase_absent k ((j, d) ∷ items) h = ground (arith, ==_iff j k, erase_absent k items)

  pub total-erase :
      (k : K) (items : Dict K Bytes) (d : Bytes)
      → HasDistinctKeys items
      → lookup k items ≡ some d
      → total (erase k items) + length d ≡ total items
  unfolding total lookup erase
  total-erase k [] d h p = ground arith
  total-erase k ((j, c) ∷ items) d h p =
      ground (arith, ==_iff j k, erase_absent k items, total-erase k items d)

  pub total-erase-le : (k : K) (items : Dict K Bytes) → total (erase k items) ≤ total items
  unfolding total erase
  total-erase-le k [] = omega arith
  total-erase-le k ((j, c) ∷ items) = ground (arith, total-erase-le k items)

  -- What every operation keeps.
  pub record IsValid (c : ByteCache K) : Type 0 where
    pub held : total c.items ≤ c.size
    pub bounded : c.size ≤ c.max_bytes
    pub distinct : HasDistinctKeys c.items

  lookup-erase_absent :
      (k q : K) (items : Dict K Bytes) → lookup q items ≡ none → lookup q (erase k items) ≡ none
  lookup-erase_absent k q items h = rw lookup-erase (ground arith)

  HasDistinctKeys-erase :
      (k : K) (items : Dict K Bytes) → HasDistinctKeys items → HasDistinctKeys (erase k items)
  unfolding erase
  HasDistinctKeys-erase k [] h = tt
  HasDistinctKeys-erase k ((j, d) ∷ items) h =
      ground (arith, lookup-erase_absent k j items, HasDistinctKeys-erase k items)

  lookup-append_absent :
      (q k : K) (d : Bytes) (items : Dict K Bytes)
      → lookup q items ≡ none
      → (k == q) ≡ false
      → lookup q (items ++ (k, d) ∷ []) ≡ none
  unfolding lookup
  lookup-append_absent q k d [] h n = ground arith
  lookup-append_absent q k d ((j, c) ∷ items) h n = ground (arith, lookup-append_absent q k d items)

  HasDistinctKeys-append :
      (k : K) (d : Bytes) (items : Dict K Bytes)
      → lookup k items ≡ none
      → HasDistinctKeys items
      → HasDistinctKeys (items ++ (k, d) ∷ [])
  unfolding lookup
  HasDistinctKeys-append k d [] h i = (refl, tt)
  HasDistinctKeys-append k d ((j, c) ∷ items) h i = ground (
    arith,
    ==_iff k j,
    ==_iff j k,
    lookup-append_absent j k d items,
    HasDistinctKeys-append k d items,
  )

  pub HasDistinctKeys-move :
      (k : K) (d : Bytes) (items : Dict K Bytes)
      → HasDistinctKeys items
      → HasDistinctKeys (erase k items ++ (k, d) ∷ [])
  HasDistinctKeys-move k d items h =
      HasDistinctKeys-append k d (erase k items) (rw lookup-erase (ground (arith, ==_iff k k)))
        (HasDistinctKeys-erase k items h)

  -- `discard` takes the entry's bytes off the size, and nothing if there is no entry.
  pub discard_lem :
      (c : ByteCache K) (k : K)
      → IsValid c
      → ((discard c k).items ≡ erase k c.items)
        × ((discard c k).size + total c.items ≡ c.size + total (erase k c.items))
        × ((discard c k).max_bytes ≡ c.max_bytes)
  unfolding discard
  discard_lem c k v = elim (Option-cases (lookup k c.items)) [
    | inl miss ↦ ground (arith, erase_absent k c.items)
    | inr (d, hit) ↦ ground (arith, total-erase k c.items d)
  ]

evict_held :
    {K : Type 0} (max_bytes size : ℕ) (items : Dict K Bytes)
    → total items ≤ size
    → total (evict max_bytes size items).0 ≤ (evict max_bytes size items).1
unfolding evict total
evict_held max_bytes size [] h = omega arith
evict_held max_bytes size ((k, d) ∷ items) h =
    ground (arith, evict_held max_bytes (size - length d) items)

-- The part of the size that no entry accounts for stays what it was.
evict_bounded :
    {K : Type 0} (max_bytes size : ℕ) (items : Dict K Bytes)
    → total items ≤ size
    → size ≤ max_bytes + total items
    → (evict max_bytes size items).1 ≤ max_bytes
unfolding evict total
evict_bounded max_bytes size [] h b = omega arith
evict_bounded max_bytes size ((k, d) ∷ items) h b =
    ground (arith, evict_bounded max_bytes (size - length d) items)

evict-HasDistinctKeys :
    {K : Type 0} ⦃e : Eq K⦄ (max_bytes size : ℕ) (items : Dict K Bytes)
    → HasDistinctKeys items
    → HasDistinctKeys (evict max_bytes size items).0
unfolding evict
evict-HasDistinctKeys max_bytes size [] h = tt
evict-HasDistinctKeys max_bytes size ((k, d) ∷ items) h =
    ground (arith, evict-HasDistinctKeys max_bytes (size - length d) items)

module _ {K : Type 0} ⦃e : Eq K⦄ where
  pub init-IsValid : (max_bytes : ℕ) → IsValid (init {K = K} max_bytes)
  unfolding init total
  init-IsValid max_bytes = record { held = omega arith; bounded = omega arith; distinct = tt }

  pub clear-IsValid : (c : ByteCache K) → IsValid (clear c)
  unfolding clear total
  clear-IsValid c = record { held = omega arith; bounded = omega arith; distinct = tt }

  pub put-IsValid : (c : ByteCache K) (k : K) (d : Bytes) → IsValid c → IsValid (put c k d)
  unfolding put
  put-IsValid c k d v = elim (Bool-cases (ltb c.max_bytes (length d))) [
    | inl over ↦
        rw (over, put)
          (record {
            held = omega (arith, total-erase-le k c.items);
            bounded = v.bounded;
            distinct = HasDistinctKeys-erase k c.items v.distinct;
          })
    | inr fits ↦
        let (items, size, _) = discard_lem c k v in
        let content = (discard c k).items ++ (k, d) ∷ [] in
        let t : total content ≡ total (erase k c.items) + length d =
          rw items (total-move k d (erase k c.items)) in
        let held : total content ≤ (discard c k).size + length d = omega arith in
        let small : (discard c k).size + length d ≤ c.max_bytes + total content = ground arith in
        rw (fits, put)
          (record {
            held = evict_held c.max_bytes _ content held;
            bounded = evict_bounded c.max_bytes _ content held small;
            distinct =
                evict-HasDistinctKeys c.max_bytes _ content
                  (rw items (HasDistinctKeys-move k d c.items v.distinct));
          })
  ]

  pub discard-IsValid : (c : ByteCache K) (k : K) → IsValid c → IsValid (discard c k)
  discard-IsValid c k v =
      let (items, size, budget) = discard_lem c k v in
      record {
        held = rw items (omega arith);
        bounded = rw budget (omega (arith, total-erase-le k c.items));
        distinct = rw items (HasDistinctKeys-erase k c.items v.distinct);
      }

  total-move_to_end :
      (k : K) (d : Bytes) (items : Dict K Bytes)
      → HasDistinctKeys items
      → lookup k items ≡ some d
      → total (move_to_end k d items) ≡ total items
  unfolding move_to_end
  total-move_to_end k d items h p =
      omega (arith, total-move k d (erase k items), total-erase k items d h p)

  pub get-IsValid : (c : ByteCache K) (k : K) → IsValid c → IsValid (get c k).0
  unfolding get
  get-IsValid c k v = elim (Option-cases (lookup k c.items)) [
    | inl miss ↦ rw (miss, get) v
    | inr (d, hit) ↦
        rw (hit, get)
          (record {
            held = omega (arith, total-move_to_end k d c.items v.distinct hit);
            bounded = v.bounded;
            distinct = unfold move_to_end in HasDistinctKeys-move k d c.items v.distinct;
          })
  ]

  -- The size counts the bytes of the entries, no more.
  abbrev pub IsExact : ByteCache K → Type 0
  IsExact c = c.size ≡ total c.items

  get-IsExact : (c : ByteCache K) (k : K) → IsValid c → IsExact c → IsExact (get c k).0
  unfolding get
  get-IsExact c k v x = elim (Option-cases (lookup k c.items)) [
    | inl miss ↦ rw (miss, get) x
    | inr (d, hit) ↦ rw (hit, get) (omega (arith, total-move_to_end k d c.items v.distinct hit))
  ]

  discard-IsExact : (c : ByteCache K) (k : K) → IsValid c → IsExact c → IsExact (discard c k)
  discard-IsExact c k v x = let (items, size, _) = discard_lem c k v in rw items (omega arith)
