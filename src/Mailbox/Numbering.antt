-- ===== src/Mailbox/Numbering.antt =====
-- imapgw/mailbox.py: the UIDs of the items that a sync builds.
use imap_work_trial.Base.{
  ℕ, ◌≡◌, ◌↔◌, refl, ap, ◌∙◌, ◌==◌, list_eq, nat_eq, ==_iff, Bytes, contains, sorted, insert_sorted,
  IsDistinct, All, true, false, Bool-cases, Option-cases, Dict, lookup, none, some, List, [], ◌∷◌,
  arith, inl, inr,
}
use imap_work_trial.Mailbox.Flags.{Item, item_uids}
use imap_work_trial.Mailbox.Listing.{Entry, keys_of}
use imap_work_trial.Mailbox.Sync.{build_items, insert_item, sort_items}
use imap_work_trial.Mailbox.Entries.{Builds}

-- The UIDs of keys, in the order of the keys.
unfoldable pub uids_of : Dict Bytes ℕ → List Bytes → List ℕ
uids_of m [] = []
uids_of m (k ∷ ks) = elim (lookup k m) [ none ↦ uids_of m ks | some u ↦ u ∷ uids_of m ks ]

abbrev pub HasUid : Dict Bytes ℕ → Bytes → Type 0
HasUid m k = (u : ℕ) × (lookup k m ≡ some u)

pub build_items_lem :
    (m : Dict Bytes ℕ) (entries : List Entry)
    → All (HasUid m) (keys_of entries)
    → All Builds entries
    → (items : List Item) × (build_items m entries ≡ some items)
      × (item_uids items ≡ uids_of m (keys_of entries))
unfolding build_items uids_of
build_items_lem m [] h b = ([], refl, refl)
build_items_lem m (e ∷ entries) h b =
    let (items, runs, uids) = build_items_lem m entries h.1 b.1 in
    (
      e.build h.0.0 ∷ items,
      rw (h.0.1, build_items) (rw runs refl),
      rw (h.0.1, uids_of) (ground (arith, b.0 h.0.0, uids)),
    )

item_uids-insert_item :
    (i : Item) (items : List Item)
    → item_uids (insert_item i items) ≡ insert_sorted i.uid (item_uids items)
unfolding insert_item insert_sorted
item_uids-insert_item i [] = refl
item_uids-insert_item i (x ∷ items) = ground (arith, item_uids-insert_item i items)

pub item_uids-sort_items :
    (items : List Item) → item_uids (sort_items items) ≡ sorted (item_uids items)
unfolding sort_items sorted
item_uids-sort_items [] = refl
item_uids-sort_items (i ∷ items) =
    item_uids-insert_item i (sort_items items)
    ∙ ap (insert_sorted i.uid) (item_uids-sort_items items)

-- No two keys have the same UID.
abbrev pub IsInjective : Dict Bytes ℕ → Type 0
IsInjective m = (k q : Bytes) (u : ℕ) → lookup k m ≡ some u → lookup q m ≡ some u → k ≡ q

contains-uids_of :
    (m : Dict Bytes ℕ) (ks : List Bytes) (u : ℕ)
    → contains (uids_of m ks) u ≡ true
    → (k : Bytes) × (contains ks k ≡ true) × (lookup k m ≡ some u)
unfolding uids_of
contains-uids_of m [] u h = absurd (ground arith)
contains-uids_of m (k ∷ ks) u h = elim (Option-cases (lookup k m)) [
  | inl no' ↦
      let (q, c, l) = contains-uids_of m ks u (rw (no', uids_of) at h) in (q, ground (arith, c), l)
  | inr (w, known) ↦ elim (Bool-cases (w == u)) [
    | inl same ↦ (k, ground (arith, ==_iff k k), ground (arith, ==_iff w u))
    | inr other ↦
        let (q, c, l) = contains-uids_of m ks u (ground (arith)) in (q, ground (arith, c), l)
  ]
]

uids_of-contains :
    (m : Dict Bytes ℕ) (ks : List Bytes) (k : Bytes) (u : ℕ)
    → contains ks k ≡ true
    → lookup k m ≡ some u
    → contains (uids_of m ks) u ≡ true
unfolding uids_of
uids_of-contains m [] k u c l = absurd (ground arith)
uids_of-contains m (q ∷ ks) k u c l =
    ground (arith, ==_iff q k, ==_iff u u, uids_of-contains m ks k u)

pub contains-uids_of_iff :
    (m : Dict Bytes ℕ) (ks : List Bytes) (u : ℕ)
    → (contains (uids_of m ks) u ≡ true)
      ↔ ((k : Bytes) × (contains ks k ≡ true) × (lookup k m ≡ some u))
contains-uids_of_iff m ks u = (contains-uids_of m ks u, λ (k, c, l). uids_of-contains m ks k u c l)

uids_of_fresh :
    (m : Dict Bytes ℕ) (ks : List Bytes) (k : Bytes) (u : ℕ)
    → IsInjective m
    → contains ks k ≡ false
    → lookup k m ≡ some u
    → contains (uids_of m ks) u ≡ false
uids_of_fresh m ks k u inj n known = elim (Bool-cases (contains (uids_of m ks) u)) [
  | inl hit ↦
      let (q, c, l) = contains-uids_of m ks u hit in
      let same : q ≡ k = inj q k u l known in absurd (ground (arith, ap (contains ks) same, c, n))
  | inr miss ↦ miss
]

pub uids_of-IsDistinct :
    (m : Dict Bytes ℕ) (ks : List Bytes) → IsInjective m → IsDistinct ks → IsDistinct (uids_of m ks)
unfolding uids_of
uids_of-IsDistinct m [] inj d = tt
uids_of-IsDistinct m (k ∷ ks) inj d = elim (Option-cases (lookup k m)) [
  | inl no' ↦ rw (no', uids_of) (uids_of-IsDistinct m ks inj d.1)
  | inr (u, known) ↦
      rw (known, uids_of) (uids_of_fresh m ks k u inj d.0 known, uids_of-IsDistinct m ks inj d.1)
]
