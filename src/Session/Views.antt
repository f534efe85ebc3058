-- ===== src/Session/Views.antt =====
-- imapgw/session.py: `flush_pending` brings the view up to the latest snapshot and the client with
-- it.
use mathlib.Core.List.{foldl}
use mathlib.Core.Path.{subst}
use imap_work_trial.Base.{
  ℕ, ◌<◌, ◌≡◌, ◌⊎◌, refl, sym, ap, ◌∙◌, nat_eq, true, not, &&-true, length, length-append, take,
  drop, filter, contains, contains-append, contains-All, All, IsAscending, Dict, Option, List, [],
  ◌∷◌, ◌++◌, append-nil, arith, inl, inr,
}
use imap_work_trial.Mailbox.Flags.{Flags, flags_eq, Item, MailboxSnapshot, item_uids, by_uid}
use imap_work_trial.Session.Selected.{
  Selected, Response, expunge_loop, arrivals, admit, announce_flags, flush_view,
}
use imap_work_trial.Session.Client.{
  follow, unknowns, Mirrors, Mirrors-length, Mirrors-grow, expunge_loop-Mirrors,
  announce_flags-Mirrors,
}
use imap_work_trial.Session.Filters.{
  expunge_loop-filter, sorted-ascending, append-IsAscending, All-filter, filter-IsAscending,
  contains-filter, All-of,
}

-- Every UID of the snapshot that the view lacks is above those of the view.
abbrev pub Later : List ℕ → List ℕ → Type 0
Later us live = All (λ u. (contains us u ≡ true) ⊎ All (λ k. k < u) us) live

-- The view behind the loop of EXPUNGE.
abbrev pub kept_of : MailboxSnapshot → Selected → List ℕ
kept_of latest sel = filter (contains (item_uids latest.items)) sel.uids

take-all : (xs : List ℕ) → take (length xs) xs ≡ xs
take-all [] = refl
take-all (x ∷ xs) = ap (◌∷◌ x) (take-all xs)

drop-all : (xs : List ℕ) → drop (length xs) xs ≡ []
drop-all [] = refl
drop-all (x ∷ xs) = drop-all xs

expunge_loop-kept :
    (live us : List ℕ) (seen : Dict ℕ Flags)
    → (expunge_loop live (length us) us seen).1 ≡ filter (contains live) us
expunge_loop-kept live us seen =
    expunge_loop-filter live (length us) us seen (omega arith)
    ∙ rw (take-all us, drop-all us) (append-nil (filter (contains live) us))

above-kept :
    (latest : MailboxSnapshot) (sel : Selected) (u : ℕ)
    → Later sel.uids (item_uids latest.items)
    → contains (arrivals (kept_of latest sel) latest.items) u ≡ true
    → All (λ k. k < u) (kept_of latest sel)
unfolding arrivals
above-kept latest sel u later c =
    let live = item_uids latest.items in
    let (here, new) = &&-true _ _ (sym (contains-filter _ live u) ∙ c) in
    elim (contains-All _ live u later here) [
      | inl known ↦ absurd (ground (arith, contains-filter (contains live) sel.uids u))
      | inr above ↦ All-filter _ (contains live) sel.uids above
    ]

arrivals-IsAscending :
    (known : List ℕ) (items : List Item)
    → IsAscending (item_uids items)
    → IsAscending (arrivals known items)
unfolding arrivals
arrivals-IsAscending known items h = filter-IsAscending _ (item_uids items) h

-- The arrivals go behind the view, whose order they keep.
joined-IsAscending :
    (latest : MailboxSnapshot) (sel : Selected)
    → IsAscending (item_uids latest.items)
    → IsAscending sel.uids
    → Later sel.uids (item_uids latest.items)
    → IsAscending (kept_of latest sel ++ arrivals (kept_of latest sel) latest.items)
joined-IsAscending latest sel live_order order later =
    append-IsAscending (kept_of latest sel) _ (filter-IsAscending _ sel.uids order)
      (arrivals-IsAscending (kept_of latest sel) latest.items live_order)
      (All-of _ _ (λ u c. above-kept latest sel u later c))

admit_lem :
    (us added : List ℕ)
    → IsAscending (us ++ added)
    → ((admit us added).1 ≡ us ++ added)
      × ((v : List (Option ℕ))
          → Mirrors v us
          → Mirrors (foldl follow v (admit us added).0) (us ++ added))
unfolding admit follow
admit_lem us [] h = rw append-nil (refl, λ v m. m)
admit_lem us (u ∷ added) h = rw (sorted-ascending _ h) (
  refl,
  λ v m.
      subst (λ n. Mirrors (v ++ unknowns n) (us ++ u ∷ added)) {x = length (u ∷ added)}
        (omega (arith, length-append us (u ∷ added), Mirrors-length m))
        (Mirrors-grow (u ∷ added) m),
)

foldl-append :
    (view : List (Option ℕ)) (xs ys : List Response)
    → foldl follow view (xs ++ ys) ≡ foldl follow (foldl follow view xs) ys
foldl-append view [] ys = refl
foldl-append view (x ∷ xs) ys = foldl-append (follow view x) xs ys

-- `flush_view` leaves a view of the snapshot's UIDs in ascending order: the UIDs of the view that
-- the snapshot still has, and behind them its others.
flush_view-uids :
    (latest : MailboxSnapshot) (marked : List ℕ) (sel : Selected)
    → IsAscending (item_uids latest.items)
    → IsAscending sel.uids
    → Later sel.uids (item_uids latest.items)
    → (flush_view latest marked sel).1.uids
      ≡ kept_of latest sel ++ arrivals (kept_of latest sel) latest.items
unfolding flush_view
flush_view-uids latest marked sel live_order order later =
    rw (expunge_loop-kept (item_uids latest.items) sel.uids sel.flags_seen)
      (admit_lem _ _ (joined-IsAscending latest sel live_order order later)).0

contains-joined :
    (latest : MailboxSnapshot) (sel : Selected) (u : ℕ)
    → contains (kept_of latest sel ++ arrivals (kept_of latest sel) latest.items) u
      ≡ contains (item_uids latest.items) u
unfolding arrivals
contains-joined latest sel u = ground (
  arith,
  contains-append (kept_of latest sel) (arrivals (kept_of latest sel) latest.items) u,
  contains-filter (contains (item_uids latest.items)) sel.uids u,
  contains-filter (λ w. not (contains (kept_of latest sel) w)) (item_uids latest.items) u,
)

-- After `flush_view` the view has the UIDs of the snapshot and no others, in ascending order, if
-- the snapshot and the view were in ascending order and each UID of the snapshot that the view
-- lacked was above those of the view.
pub flush_view-content :
    (latest : MailboxSnapshot) (marked : List ℕ) (sel : Selected)
    → IsAscending (item_uids latest.items)
    → IsAscending sel.uids
    → Later sel.uids (item_uids latest.items)
    → IsAscending (flush_view latest marked sel).1.uids
      × ((u : ℕ)
          → contains (flush_view latest marked sel).1.uids u ≡ contains (item_uids latest.items) u)
flush_view-content latest marked sel live_order order later =
    rw (flush_view-uids latest marked sel live_order order later)
      (joined-IsAscending latest sel live_order order later, contains-joined latest sel)

admit_announce :
    (items : Dict ℕ Item) (marked us added : List ℕ) (seen : Dict ℕ Flags)
    → IsAscending (us ++ added)
    → {v : List (Option ℕ)} → Mirrors v us
    → Mirrors
        (foldl follow v
          ((admit us added).0 ++ (announce_flags items marked 1 (admit us added).1 seen).0))
        (admit us added).1
admit_announce items marked us added seen order m =
    let (e, follows) = admit_lem us added order in
    rw foldl-append (
      announce_flags-Mirrors items marked 0 _ _ seen refl (subst (Mirrors _) (sym e) (follows _ m)))

-- A client that was in step with the view and follows the responses of `flush_view` is in step with
-- the new view: it has as many messages, and every UID that it knows is at the server's sequence
-- number. The conditions are those of the view's order.
pub flush_view-Mirrors :
    (latest : MailboxSnapshot) (marked : List ℕ) (sel : Selected) (v : List (Option ℕ))
    → IsAscending (item_uids latest.items)
    → IsAscending sel.uids
    → Later sel.uids (item_uids latest.items)
    → Mirrors v sel.uids
    → Mirrors
        (foldl follow v (flush_view latest marked sel).0)
        (flush_view latest marked sel).1.uids
unfolding flush_view
flush_view-Mirrors latest marked sel v live_order order later m =
    let live = item_uids latest.items in
    rw foldl-append (
      admit_announce (by_uid latest) marked _ _ _
        (rw (expunge_loop-kept live sel.uids sel.flags_seen)
          (joined-IsAscending latest sel live_order order later))
        (expunge_loop-Mirrors live (length sel.uids) sel.uids sel.flags_seen m))
