-- ===== src/Session/Quiet.antt =====
-- imapgw/session.py: the flags that `flush_pending` remembers, and that it says nothing twice.
use imap_work_trial.Base.{
  ℕ, zero, suc, ◌≡◌, refl, sym, ◌∙◌, ◌==◌, nat_eq, ==_iff, ==_refl, All, All-map, true, not, length,
  get_elem?, filter, contains, Dict, lookup, insert, lookup-insert, IsAscending, Bool-cases,
  Option-cases, none, some, List, [], ◌∷◌, arith, inl, inr,
}
use imap_work_trial.Mailbox.Flags.{
  Flags, flags_eq, Item, MailboxSnapshot, item_uids, by_uid, flags_of,
}
use imap_work_trial.Session.Selected.{
  Selected, expunge_loop, arrivals, admit, announce_flags, flush_view,
}
use imap_work_trial.Session.Filters.{All-of}
use imap_work_trial.Session.Views.{Later, flush_view-content}

-- The remembered flags of a message are those that it has.
abbrev pub IsTold : Dict ℕ Item → List ℕ → Dict ℕ Flags → ℕ → Type 0
IsTold items marked seen u =
    (item : Item) → lookup u items ≡ some item → lookup u seen ≡ some (flags_of item marked)

IsTold-insert :
    (items : Dict ℕ Item) (marked : List ℕ) (seen : Dict ℕ Flags) (u w : ℕ) (j : Item)
    → lookup w items ≡ some j
    → IsTold items marked seen u
    → IsTold items marked (insert w (flags_of j marked) seen) u
IsTold-insert items marked seen u w j at_w told item at_u = elim (Bool-cases (w == u)) [
  | inl same ↦ rw (lookup-insert, same) (ground (arith, ==_iff w u))
  | inr other ↦ rw (lookup-insert, other) (told item at_u)
]

IsTold-here :
    (items : Dict ℕ Item) (marked : List ℕ) (seen : Dict ℕ Flags) (u w : ℕ) (j : Item)
    → lookup w items ≡ some j
    → (w == u) ≡ true
    → IsTold items marked (insert w (flags_of j marked) seen) u
IsTold-here items marked seen u w j at_w same item at_u =
    rw (lookup-insert, same) (ground (arith, ==_iff w u))

All-get_elem? :
    (P : ℕ → Type 0) (n : ℕ) (us : List ℕ) (u : ℕ) → All P us → get_elem? us n ≡ some u → P u
All-get_elem? P n [] u h e = absurd (ground arith)
All-get_elem? P zero (w ∷ us) u h e = ground arith
All-get_elem? P (suc n) (w ∷ us) u h e = All-get_elem? P n us u h.1 e

module _ (items : Dict ℕ Item) (marked : List ℕ) where
  announce-miss :
      (seq w : ℕ) (us : List ℕ) (seen : Dict ℕ Flags)
      → lookup w items ≡ none
      → announce_flags items marked seq (w ∷ us) seen
        ≡ announce_flags items marked (suc seq) us seen
  unfolding announce_flags
  announce-miss seq w us seen miss = rw (miss, announce_flags) refl

  announce-hit :
      (seq w : ℕ) (us : List ℕ) (seen : Dict ℕ Flags) (j : Item)
      → lookup w items ≡ some j
      → (announce_flags items marked seq (w ∷ us) seen).1
        ≡ (announce_flags items marked (suc seq) us (insert w (flags_of j marked) seen)).1
  unfolding announce_flags
  announce-hit seq w us seen j hit = elim (Option-cases (lookup w seen)) [
    | inl new ↦ rw (hit, new, announce_flags) refl
    | inr (previous, old) ↦ rw (hit, old, announce_flags) refl
  ]

  announce-same :
      (seq w : ℕ) (us : List ℕ) (seen : Dict ℕ Flags) (j : Item)
      → lookup w items ≡ some j
      → lookup w seen ≡ some (flags_of j marked)
      → (announce_flags items marked seq (w ∷ us) seen).0
        ≡ (announce_flags items marked (suc seq) us (insert w (flags_of j marked) seen)).0
  unfolding announce_flags
  announce-same seq w us seen j hit old =
      rw (hit, old, ==_refl (flags_of j marked), announce_flags) refl

  announce-stays :
      (seq : ℕ) (us : List ℕ) (seen : Dict ℕ Flags) (u : ℕ)
      → IsTold items marked seen u
      → IsTold items marked (announce_flags items marked seq us seen).1 u
  unfolding announce_flags
  announce-stays seq [] seen u told = told
  announce-stays seq (w ∷ us) seen u told = elim (Option-cases (lookup w items)) [
    | inl miss ↦ rw (announce-miss seq w us seen miss) (announce-stays (suc seq) us seen u told)
    | inr (j, hit) ↦
        rw (announce-hit seq w us seen j hit)
          (announce-stays (suc seq) us _ u (IsTold-insert items marked seen u w j hit told))
  ]

  -- Behind the loop of FETCH the flags of each message that it came to are remembered.
  announce-tells :
      (seq : ℕ) (us : List ℕ) (seen : Dict ℕ Flags) (u : ℕ)
      → contains us u ≡ true
      → IsTold items marked (announce_flags items marked seq us seen).1 u
  announce-tells seq [] seen u c = absurd (ground arith)
  announce-tells seq (w ∷ us) seen u c = elim (Option-cases (lookup w items)) [
    | inl miss ↦ elim (Bool-cases (w == u)) [
      | inl same ↦ λ item at_u. absurd (ground (arith, ==_iff w u))
      | inr other ↦
          rw (announce-miss seq w us seen miss) (announce-tells (suc seq) us seen u (ground arith))
    ]
    | inr (j, hit) ↦ rw (announce-hit seq w us seen j hit) (elim (Bool-cases (w == u)) [
      | inl same ↦ announce-stays (suc seq) us _ u (IsTold-here items marked seen u w j hit same)
      | inr other ↦ announce-tells (suc seq) us _ u (ground arith)
    ])
  ]

  -- The loop of FETCH says nothing where all flags are remembered.
  announce-quiet :
      (seq : ℕ) (us : List ℕ) (seen : Dict ℕ Flags)
      → All (IsTold items marked seen) us
      → (announce_flags items marked seq us seen).0 ≡ []
  unfolding announce_flags
  announce-quiet seq [] seen h = refl
  announce-quiet seq (w ∷ us) seen h = elim (Option-cases (lookup w items)) [
    | inl miss ↦ rw (announce-miss seq w us seen miss) (announce-quiet (suc seq) us seen h.1)
    | inr (j, hit) ↦
        announce-same seq w us seen j hit (h.0 j hit)
        ∙ announce-quiet (suc seq) us _
            (All-map _ _ (λ u told. IsTold-insert items marked seen u w j hit told) us h.1)
  ]

-- No message of a view is expunged that the snapshot has.
expunge_loop-quiet :
    (live : List ℕ) (n : ℕ) (us : List ℕ) (seen : Dict ℕ Flags)
    → All (λ u. contains live u ≡ true) us
    → expunge_loop live n us seen ≡ ([], us, seen)
unfolding expunge_loop
expunge_loop-quiet live zero us seen h = refl
expunge_loop-quiet live (suc n) us seen h = elim (Option-cases (get_elem? us n)) [
  | inl e ↦ rw (e, expunge_loop) refl
  | inr (u, e) ↦
      rw (e, All-get_elem? _ n us u h e, expunge_loop) (expunge_loop-quiet live n us seen h)
]

filter-none :
    (known live : List ℕ)
    → All (λ u. contains known u ≡ true) live
    → filter (λ u. not (contains known u)) live ≡ []
filter-none known [] h = refl
filter-none known (u ∷ live) h = ground (arith, filter-none known live h.1)

-- After `flush_view` the remembered flags of each message of the view are those that it has, by
-- the snapshot and the marks.
pub flush_view-flags :
    (latest : MailboxSnapshot) (marked : List ℕ) (sel : Selected) (u : ℕ) (item : Item)
    → contains (flush_view latest marked sel).1.uids u ≡ true
    → lookup u (by_uid latest) ≡ some item
    → lookup u (flush_view latest marked sel).1.flags_seen ≡ some (flags_of item marked)
unfolding flush_view
flush_view-flags latest marked sel u item c at_u =
    announce-tells (by_uid latest) marked 1 _ _ u c item at_u

quiet_lem :
    (latest : MailboxSnapshot) (marked : List ℕ) (sel : Selected)
    → All (λ u. contains (item_uids latest.items) u ≡ true) sel.uids
    → All (λ u. contains sel.uids u ≡ true) (item_uids latest.items)
    → All (IsTold (by_uid latest) marked sel.flags_seen) sel.uids
    → (flush_view latest marked sel).0 ≡ []
unfolding flush_view arrivals admit
quiet_lem latest marked sel live known told =
    rw
      (
        expunge_loop-quiet (item_uids latest.items) (length sel.uids) sel.uids sel.flags_seen live,
        filter-none sel.uids (item_uids latest.items) known,
      )
      (announce-quiet (by_uid latest) marked 1 sel.uids sel.flags_seen told)

-- Nothing is said twice: a second `flush_view` with the same snapshot and the same marks writes
-- no response, under the conditions of the view's order.
pub flush_view-quiet :
    (latest : MailboxSnapshot) (marked : List ℕ) (sel : Selected)
    → IsAscending (item_uids latest.items)
    → IsAscending sel.uids
    → Later sel.uids (item_uids latest.items)
    → (flush_view latest marked (flush_view latest marked sel).1).0 ≡ []
flush_view-quiet latest marked sel live_order order later =
    let (_, same) = flush_view-content latest marked sel live_order order later in
    quiet_lem latest marked (flush_view latest marked sel).1 (All-of _ _ (λ u c. sym (same u) ∙ c))
      (All-of _ _ (λ u c. same u ∙ c))
      (All-of _ _ (λ u c item at_u. flush_view-flags latest marked sel u item c at_u))
