-- ===== src/ByteCache/Lookups.antt =====
-- imapgw/bytecache.py: what a `get` and a `put` of another key leave to find.
use imap_work_trial.Base.{
  ℕ, zero, suc, ◌≡◌, ◌∙◌, ap, Option, refl, Eq, ◌==◌, ==_iff, Bytes, Dict, lookup, erase,
  lookup-erase, length, drop, ltb, false, Bool-cases, Option-cases, if◌then◌else◌, none, some, [],
  ◌∷◌, ◌++◌, arith, inl, inr,
}
use imap_work_trial.ByteCache.Defs.{ByteCache, move_to_end, get, put}
use imap_work_trial.ByteCache.Size.{total-erase, total-move, IsValid, IsExact}
use imap_work_trial.ByteCache.Reads.{put-drop}

module _ {K : Type 0} ⦃e : Eq K⦄ where
  lookup-last :
      (q k : K) (d : Bytes) (items : Dict K Bytes)
      → lookup q (items ++ (k, d) ∷ []) ≡ (elim (lookup q items) as (λ _. Option Bytes) [
        | some c ↦ some c
        | none ↦ if k == q then some d else none
      ])
  unfolding lookup
  lookup-last q k d [] = refl
  lookup-last q k d ((j, c) ∷ items) = ground (arith, lookup-last q k d items)

  lookup-move :
      (q k : K) (d : Bytes) (items : Dict K Bytes)
      → lookup q (move_to_end k d items) ≡ (if k == q then some d else lookup q items)
  unfolding move_to_end
  lookup-move q k d items = ground (
    arith,
    lookup-last q k d (erase k items),
    lookup-erase k q items,
    Option-cases (lookup q items),
  )

  -- `get` changes what stands under no key.
  pub lookup-get : (c : ByteCache K) (k q : K) → lookup q (get c k).0.items ≡ lookup q c.items
  unfolding get
  lookup-get c k q = elim (Option-cases (lookup k c.items)) [
    | inl no' ↦ rw (no', get) refl
    | inr (d, hit) ↦ rw (hit, get) (lookup-move q k d c.items ∙ ground (arith, ==_iff k q, hit))
  ]

  pub get-IsExact : (c : ByteCache K) (k : K) → IsValid c → IsExact c → IsExact (get c k).0
  unfolding get move_to_end
  get-IsExact c k v x = elim (Option-cases (lookup k c.items)) [
    | inl no' ↦ rw (no', get) x
    | inr (d, hit) ↦
        rw (hit, get)
          (omega
            (arith, x, total-move k d (erase k c.items), total-erase k c.items d v.distinct hit))
  ]

  pub get_value : (c : ByteCache K) (k : K) → (get c k).1 ≡ lookup k c.items
  unfolding get
  get_value c k = ground (arith, Option-cases (lookup k c.items))

  pub max_bytes-get : (c : ByteCache K) (k : K) → (get c k).0.max_bytes ≡ c.max_bytes
  unfolding get
  max_bytes-get c k = ground arith

  drop_absent :
      (n : ℕ) (q : K) (items : Dict K Bytes)
      → lookup q items ≡ none
      → lookup q (drop n items) ≡ none
  unfolding lookup
  drop_absent zero q items h = h
  drop_absent (suc n) q [] h = h
  drop_absent (suc n) q ((j, c) ∷ items) h = drop_absent n q items (ground arith)

  -- A `put` brings no other key into the cache.
  pub put_absent :
      (c : ByteCache K) (k q : K) (d : Bytes)
      → IsValid c
      → (k == q) ≡ false
      → lookup q c.items ≡ none
      → lookup q (put c k d).items ≡ none
  unfolding put
  put_absent c k q d v other h = elim (Bool-cases (ltb c.max_bytes (length d))) [
    | inl over ↦ rw (over, put) (lookup-erase k q c.items ∙ ground (arith, h))
    | inr fits ↦
        let (n, dropped, _) = put-drop c k d v (ground arith) in
        ap (lookup q) dropped
        ∙ drop_absent n q _ (lookup-move q k d c.items ∙ ground (arith, other, h))
  ]
