-- ===== src/Session/Client.antt =====
-- A client that follows the responses of `flush_pending`, as RFC 3501 tells it to: what it knows
-- of a view is, for each sequence number, the UID or nothing yet.
use mathlib.Core.List.{foldl}
use mathlib.Core.Path.{subst}
use imap_work_trial.Base.{
  ℕ, zero, suc, ◌-◌, ◌≡◌, refl, ◌==◌, nat_eq, length, get_elem?, drop, contains, Dict, lookup,
  insert, erase, Bool-cases, Option-cases, Option, none, some, List, [], ◌∷◌, ◌++◌, arith, inl, inr,
}
use imap_work_trial.Mailbox.Flags.{Flags, flags_eq, Item, flags_of}
use imap_work_trial.Session.Selected.{
  Response, expunge, exists, fetch_flags, delete_at, expunge_loop, announce_flags,
}

abbrev pub set_at {ℓ} : {A : Type ℓ} → ℕ → A → List A → List A
set_at i a [] = []
set_at zero a (x ∷ xs) = a ∷ xs
set_at (suc i) a (x ∷ xs) = x ∷ set_at i a xs

abbrev pub unknowns : ℕ → List (Option ℕ)
unknowns zero = []
unknowns (suc n) = none ∷ unknowns n

-- EXPUNGE drops the message of the number and moves the later ones down, EXISTS makes room for new
-- messages, FETCH with a UID names the message of the number.
unfoldable pub follow : List (Option ℕ) → Response → List (Option ℕ)
follow view (expunge zero) = view
follow view (expunge (suc i)) = delete_at i view
follow view (exists n) = view ++ unknowns (n - length view)
follow view (fetch_flags zero uid flags) = view
follow view (fetch_flags (suc i) uid flags) = set_at i (some uid) view

-- The client's view has as many messages as the server's list of UIDs, and every UID that the
-- client knows is the server's at the same sequence number.
pub data Mirrors : List (Option ℕ) → List ℕ → Type 0 where
  done : Mirrors [] []
  known : (u : ℕ) (v : List (Option ℕ)) (us : List ℕ) → Mirrors v us → Mirrors (some u ∷ v) (u ∷ us)
  unknown : (u : ℕ) (v : List (Option ℕ)) (us : List ℕ) → Mirrors v us → Mirrors (none ∷ v) (u ∷ us)

pub Mirrors-length : {v : List (Option ℕ)} {us : List ℕ} → Mirrors v us → length v ≡ length us
Mirrors-length done = refl
Mirrors-length (known u v us m) = omega (arith, Mirrors-length m)
Mirrors-length (unknown u v us m) = omega (arith, Mirrors-length m)

pub Mirrors-delete :
    (i : ℕ) {v : List (Option ℕ)} {us : List ℕ}
    → Mirrors v us
    → Mirrors (delete_at i v) (delete_at i us)
unfolding delete_at
Mirrors-delete i done = done
Mirrors-delete zero (known u v us m) = m
Mirrors-delete zero (unknown u v us m) = m
Mirrors-delete (suc i) (known u v us m) = known u _ _ (Mirrors-delete i m)
Mirrors-delete (suc i) (unknown u v us m) = unknown u _ _ (Mirrors-delete i m)

pub Mirrors-set :
    (i u : ℕ) {v : List (Option ℕ)} {us : List ℕ}
    → get_elem? us i ≡ some u
    → Mirrors v us
    → Mirrors (set_at i (some u) v) us
Mirrors-set i u e done = done
Mirrors-set zero u e (known w v us m) =
    subst (λ x. Mirrors (some u ∷ v) (x ∷ us)) (ground arith) (known u v us m)
Mirrors-set zero u e (unknown w v us m) =
    subst (λ x. Mirrors (some u ∷ v) (x ∷ us)) (ground arith) (known u v us m)
Mirrors-set (suc i) u e (known w v us m) = known w _ _ (Mirrors-set i u e m)
Mirrors-set (suc i) u e (unknown w v us m) = unknown w _ _ (Mirrors-set i u e m)

Mirrors-unknowns : (added : List ℕ) → Mirrors (unknowns (length added)) added
Mirrors-unknowns [] = done
Mirrors-unknowns (u ∷ us) = unknown u _ us (Mirrors-unknowns us)

pub Mirrors-grow :
    (added : List ℕ) {v : List (Option ℕ)} {us : List ℕ}
    → Mirrors v us
    → Mirrors (v ++ unknowns (length added)) (us ++ added)
Mirrors-grow added done = Mirrors-unknowns added
Mirrors-grow added (known u v us m) = known u _ _ (Mirrors-grow added m)
Mirrors-grow added (unknown u v us m) = unknown u _ _ (Mirrors-grow added m)

-- The loop of EXPUNGE keeps the client in step.
pub expunge_loop-Mirrors :
    (live : List ℕ) (n : ℕ) (us : List ℕ) (seen : Dict ℕ Flags) {v : List (Option ℕ)}
    → Mirrors v us
    → Mirrors (foldl follow v (expunge_loop live n us seen).0) (expunge_loop live n us seen).1
unfolding expunge_loop follow
expunge_loop-Mirrors live zero us seen m = m
expunge_loop-Mirrors live (suc n) us seen m = elim (Option-cases (get_elem? us n)) [
  | inl e ↦ rw (e, expunge_loop) m
  | inr (uid, e) ↦ elim (Bool-cases (contains live uid)) [
    | inl stays ↦ rw (e, stays, expunge_loop) (expunge_loop-Mirrors live n us seen m)
    | inr goes ↦
        rw (e, goes, expunge_loop)
          (expunge_loop-Mirrors live n (delete_at n us) (erase uid seen) (Mirrors-delete n m))
  ]
]

drop-head :
    (k u : ℕ) (us rest : List ℕ)
    → drop k us ≡ u ∷ rest
    → (get_elem? us k ≡ some u) × (drop (suc k) us ≡ rest)
drop-head zero u [] rest e = absurd (ground arith)
drop-head (suc k) u [] rest e = absurd (ground arith)
drop-head zero u (w ∷ us) rest e = ground arith
drop-head (suc k) u (w ∷ us) rest e = drop-head k u us rest e

-- So does the loop of FETCH, which names the message of each number rightly.
pub announce_flags-Mirrors :
    (items : Dict ℕ Item) (marked : List ℕ) (k : ℕ) (us rest : List ℕ) (seen : Dict ℕ Flags)
    → {v : List (Option ℕ)} → drop k us ≡ rest
    → Mirrors v us
    → Mirrors (foldl follow v (announce_flags items marked (suc k) rest seen).0) us
unfolding announce_flags follow
announce_flags-Mirrors items marked k us [] seen e m = m
announce_flags-Mirrors items marked k us (u ∷ rest) seen e m =
    let next = drop-head k u us rest e in
    elim (Option-cases (lookup u items)) [
      | inl miss ↦
          rw (miss, announce_flags)
            (announce_flags-Mirrors items marked (suc k) us rest seen next.1 m)
      | inr (item, hit) ↦
          let flags = flags_of item marked in
          elim (Option-cases (lookup u seen)) [
            | inl new ↦
                rw (hit, new, announce_flags)
                  (announce_flags-Mirrors items marked (suc k) us rest (insert u flags seen) next.1
                    m)
            | inr (previous, old) ↦ elim (Bool-cases (previous == flags)) [
              | inl same ↦
                  rw (hit, old, same, announce_flags)
                    (announce_flags-Mirrors items marked (suc k) us rest (insert u flags seen)
                      next.1 m)
              | inr changed ↦
                  rw (hit, old, changed, announce_flags)
                    (announce_flags-Mirrors items marked (suc k) us rest (insert u flags seen)
                      next.1 (Mirrors-set k u next.0 m))
            ]
          ]
    ]
