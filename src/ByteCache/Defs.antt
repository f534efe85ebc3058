-- ===== src/ByteCache/Defs.antt =====
-- imapgw/bytecache.py, its class and methods.
use imap_work_trial.Base.{
  ℕ, ◌+◌, ◌-◌, max, Eq, Dict, lookup, erase, Bytes, length, ltb, if◌then◌else◌, Option, none, some,
  [], ◌∷◌, ◌++◌,
}

pub record ByteCache (K : Type 0) : Type 0 where
  pub max_bytes : ℕ
  pub items : Dict K Bytes
  pub size : ℕ

-- `__init__`
unfoldable pub init : {K : Type 0} → ℕ → ByteCache K
init max_bytes = record { max_bytes = max 0 max_bytes; items = []; size = 0 }

-- The `while` of `put`: the oldest entry goes while the size is over the budget.
unfoldable pub evict : {K : Type 0} → ℕ → ℕ → Dict K Bytes → Dict K Bytes × ℕ
evict max_bytes size [] = ([], size)
evict max_bytes size ((k, d) ∷ items) =
    let rest = evict max_bytes (size - length d) items in
    if ltb max_bytes size then rest else ((k, d) ∷ items, size)

unfoldable pub clear : {K : Type 0} → ByteCache K → ByteCache K
clear c = record c { items = []; size = 0 }

module _ {K : Type 0} ⦃e : Eq K⦄ where
  -- `self._items.move_to_end(key)`
  unfoldable pub move_to_end : K → Bytes → Dict K Bytes → Dict K Bytes
  move_to_end key content items = erase key items ++ (key, content) ∷ []

  unfoldable pub get : ByteCache K → K → ByteCache K × Option Bytes
  unfolding move_to_end
  get c key = elim (lookup key c.items) [
    | none ↦ (c, none)
    | some content ↦ (record c { items = move_to_end key content c.items }, some content)
  ]

  unfoldable pub discard : ByteCache K → K → ByteCache K
  discard c key = elim (lookup key c.items) [
    | none ↦ c
    | some old ↦ record c { items = erase key c.items; size = c.size - length old }
  ]

  unfoldable pub put : ByteCache K → K → Bytes → ByteCache K
  put c key content =
      if ltb c.max_bytes (length content)
      then record c { items = erase key c.items }
      else let c' = discard c key in
        let (items, size) =
          evict c.max_bytes (c'.size + length content) (c'.items ++ (key, content) ∷ []) in
        record c { items = items; size = size }
