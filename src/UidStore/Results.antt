-- ===== src/UidStore/Results.antt =====
-- imapgw/uidstore.py: what `ensure_uids`, `tombstone_missing` and `set_deleted` return and leave.
use imap_work_trial.Base.{
  ℕ, ◌≤◌, ◌≡◌, ◌∙◌, ◌==◌, nat_eq, list_eq, ==_iff, true, All, Bytes, Dict, lookup, lookup-insert,
  Bool-cases, Option-cases, none, some, List, [], ◌∷◌, arith, inl, inr,
}
use imap_work_trial.UidStore.Tables.{Box, box_eq}
use imap_work_trial.UidStore.Calls.{UidStore, Env, Alloc, live_map, allocate_all, ensure_uids}
use imap_work_trial.UidStore.Valid.{next_of, IsValid, Fits, after, allocate_lem, after-Fits}
use imap_work_trial.UidStore.Allocation.{
  transaction_commits, start, ensured, start_next, start-Fits, ensure_uids_lem,
}

module _ (box : Box) (now : Bytes) where
  -- A key that has a UID keeps it through the loop.
  allocate_all_keeps :
      (keys : List (Bytes × Bytes)) (a a' : Alloc) (k : Bytes) (u : ℕ)
      → Fits box a
      → allocate_all box now keys a ≡ some a'
      → lookup k a.live ≡ some u
      → lookup k a'.live ≡ some u
  unfolding allocate_all
  allocate_all_keeps [] a a' k u f runs h = ground arith
  allocate_all_keeps (key ∷ keys) a a' k u f runs h = elim (Option-cases (lookup key.0 a.live)) [
    | inr (v, known) ↦ allocate_all_keeps keys a a' k u f (ground arith) h
    | inl new ↦
        allocate_all_keeps keys (after box now key a) a' k u (after-Fits box now key a f new)
          (ground (arith, allocate_lem box now key a f new))
          (rw lookup-insert (ground (arith, ==_iff key.0 k)))
  ]

  -- Every key that is asked for has a UID after the loop.
  allocate_all_covers :
      (keys : List (Bytes × Bytes)) (a a' : Alloc)
      → Fits box a
      → allocate_all box now keys a ≡ some a'
      → All (λ key. (u : ℕ) × (lookup key.0 a'.live ≡ some u)) keys
  unfolding allocate_all
  allocate_all_covers [] a a' f runs = tt
  allocate_all_covers (key ∷ keys) a a' f runs = elim (Option-cases (lookup key.0 a.live)) [
    | inr (v, known) ↦
        let rest : allocate_all box now keys a ≡ some a' = ground arith in
        (
          (v, allocate_all_keeps keys a a' key.0 v f rest known),
          allocate_all_covers keys a a' f rest,
        )
    | inl new ↦
        let b = after box now key a in
        let g = after-Fits box now key a f new in
        let rest : allocate_all box now keys b ≡ some a' =
          ground (arith, allocate_lem box now key a f new) in
        let at_key : lookup key.0 b.live ≡ some a.next =
          rw lookup-insert (ground (arith, ==_iff key.0 key.0)) in
        (
          (a.next, allocate_all_keeps keys b a' key.0 a.next g rest at_key),
          allocate_all_covers keys b a' g rest,
        )
  ]

  -- A key that had no UID gets one at or above the first free.
  allocate_all_fresh :
      (keys : List (Bytes × Bytes)) (a a' : Alloc) (k : Bytes) (u : ℕ)
      → Fits box a
      → allocate_all box now keys a ≡ some a'
      → lookup k a.live ≡ none
      → lookup k a'.live ≡ some u
      → a.next ≤ u
  unfolding allocate_all
  allocate_all_fresh [] a a' k u f runs miss h = absurd (ground arith)
  allocate_all_fresh (key ∷ keys) a a' k u f runs miss h =
      elim (Option-cases (lookup key.0 a.live)) [
        | inr (w, known) ↦ allocate_all_fresh keys a a' k u f (ground arith) miss h
        | inl new ↦
            let b = after box now key a in
            let g = after-Fits box now key a f new in
            let rest : allocate_all box now keys b ≡ some a' =
              ground (arith, allocate_lem box now key a f new) in
            elim (Bool-cases (key.0 == k)) [
              | inl same ↦
                  let kept =
                    allocate_all_keeps keys b a' k a.next g rest (rw lookup-insert (rw same)) in
                  ground (arith, kept)
              | inr other ↦
                  let later =
                    allocate_all_fresh keys b a' k u g rest (rw lookup-insert (rw other miss)) h in
                  omega (arith, later)
            ]
      ]

-- What a committed `ensure_uids` answers, and the live map of the store that it leaves.
pub record Answers (box : Box) (keys : List (Bytes × Bytes)) (s s' : UidStore) (m : Dict Bytes ℕ)
    : Type 0 where
  pub covers : All (λ key. (u : ℕ) × (lookup key.0 m ≡ some u)) keys
  pub keeps : (k : Bytes) (u : ℕ) → lookup k (live_map box s) ≡ some u → lookup k m ≡ some u
  pub fresh :
      (k : Bytes) (u : ℕ)
      → lookup k (live_map box s) ≡ none
      → lookup k m ≡ some u
      → next_of box s.mailbox ≤ u
  pub stored : (k : Bytes) → lookup k m ≡ lookup k (live_map box s')

-- On valid tables, a call of `ensure_uids` whose transaction goes through meets no key constraint,
-- and answers a map in which every key of the call has a UID, every key that was live keeps its
-- UID, any other UID is at or above the mailbox's next UID before the call, and which agrees with
-- the live map afterwards.
pub ensure_uids-Answers :
    (env : Env) (box : Box) (keys : List (Bytes × Bytes)) (s : UidStore)
    → IsValid s
    → env.commits ≡ true
    → (m : Dict Bytes ℕ) × ((ensure_uids env box keys s).0 ≡ some m)
      × Answers box keys s (ensure_uids env box keys s).1 m
ensure_uids-Answers env box keys s v c =
    let (a, d, runs, looped) = ensure_uids_lem env box keys s v in
    let e = ensured env box keys s v in
    let f = start-Fits env box keys s v in
    let b = start env box keys s v in
    let same : (k : Bytes) → lookup k b.live ≡ lookup k (live_map box s) =
      (λ k. unfold live_map in rw e.same_rows) in
    (
      a.live,
      rw (runs, transaction_commits env s _ _ c),
      rw (runs, transaction_commits env s _ _ c)
          (record {
            covers = allocate_all_covers box env.now keys b a f looped;
            keeps = λ k u h. allocate_all_keeps box env.now keys b a k u f looped (same k ∙ h);
            fresh = λ k u n h. omega (
              arith,
              start_next env box keys s v,
              allocate_all_fresh box env.now keys b a k u f looped (same k ∙ n) h,
            );
            stored = λ k. unfold live_map in d.fits.agree k;
          }),
    )
