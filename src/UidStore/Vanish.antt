-- ===== src/UidStore/Vanish.antt =====
-- imapgw/uidstore.py: what `tombstone_missing` answers, and the live map and marks that it leaves.
use imap_work_trial.Base.{
  ℕ, ◌≡◌, refl, sym, ap, ◌∙◌, ◌==◌, nat_eq, list_eq, ==_iff, true, false, not, ◌&&◌, any, map,
  Bytes, Dict, lookup, contains, sorted, contains-sorted, IsDistinct, IsAscending,
  sorted-IsAscending, Bool-cases, none, some, List, [], ◌∷◌, arith, inl, inr, if◌then◌else◌,
}
use imap_work_trial.UidStore.Tables.{
  Box, box_eq, same_box_iff, UidRow, Mark, clash, marked, select_live, set_vanished, delete_marks,
}
use imap_work_trial.UidStore.Calls.{UidStore, Env, live_map, missing, tombstone_missing}
use imap_work_trial.UidStore.Valid.{HasKeys, IsValid}
use imap_work_trial.UidStore.Allocation.{transaction_commits}

abbrev pub values : Dict Bytes ℕ → List ℕ
values = map (λ e. e.1)

-- The entries whose UID is not in `gone`, and those whose key is in `present`.
abbrev prune : List ℕ → Dict Bytes ℕ → Dict Bytes ℕ
prune gone [] = []
prune gone ((k, u) ∷ live) =
    let rest = prune gone live in if contains gone u then rest else (k, u) ∷ rest

abbrev restrict : List Bytes → Dict Bytes ℕ → Dict Bytes ℕ
restrict present [] = []
restrict present ((k, u) ∷ live) =
    let rest = restrict present live in if contains present k then (k, u) ∷ rest else rest

select_live-set_vanished :
    (box : Box) (gone : List ℕ) (now : Bytes) (rows : List UidRow)
    → select_live box (set_vanished box gone now rows) ≡ prune gone (select_live box rows)
unfolding select_live set_vanished
select_live-set_vanished box gone now [] = refl
select_live-set_vanished box gone now (r ∷ rows) =
    ground (arith, select_live-set_vanished box gone now rows)

prune-sorted : (gone : List ℕ) (live : Dict Bytes ℕ) → prune (sorted gone) live ≡ prune gone live
prune-sorted gone [] = refl
prune-sorted gone ((k, u) ∷ live) = ground (arith, contains-sorted u gone, prune-sorted gone live)

missing_fresh :
    (present : List Bytes) (u : ℕ) (live : Dict Bytes ℕ)
    → contains (values live) u ≡ false
    → contains (missing present live) u ≡ false
unfolding missing
missing_fresh present u [] h = refl
missing_fresh present u ((k, w) ∷ live) h = ground (arith, missing_fresh present u live)

prune_fresh :
    (u : ℕ) (gone : List ℕ) (live : Dict Bytes ℕ)
    → contains (values live) u ≡ false
    → prune (u ∷ gone) live ≡ prune gone live
prune_fresh u gone [] h = refl
prune_fresh u gone ((k, w) ∷ live) h = ground (arith, prune_fresh u gone live)

prune-missing :
    (present : List Bytes) (live : Dict Bytes ℕ)
    → IsDistinct (values live)
    → prune (missing present live) live ≡ restrict present live
unfolding missing
prune-missing present [] h = refl
prune-missing present ((k, u) ∷ live) h = ground (
  arith,
  ==_iff u u,
  missing_fresh present u live h.0,
  prune_fresh u (missing present live) live h.0,
  prune-missing present live h.1,
)

lookup-restrict :
    (present : List Bytes) (q : Bytes) (live : Dict Bytes ℕ)
    → lookup q (restrict present live) ≡ (if contains present q then lookup q live else none)
unfolding lookup
lookup-restrict present q [] = ground arith
lookup-restrict present q ((k, u) ∷ live) =
    ground (arith, ==_iff k q, lookup-restrict present q live)

select_live_new :
    (box : Box) (r : UidRow) (rows : List UidRow)
    → any (clash r) rows ≡ false
    → (r.box == box) ≡ true
    → contains (values (select_live box rows)) r.uid ≡ false
unfolding clash select_live
select_live_new box r [] h e = refl
select_live_new box r (q ∷ rows) h e = ground (
  arith,
  same_box_iff r.box box,
  same_box_iff q.box box,
  same_box_iff r.box q.box,
  ==_iff r.uid q.uid,
  ==_iff q.uid r.uid,
  select_live_new box r rows,
)

-- The UIDs of a live map are distinct.
pub select_live-IsDistinct :
    (box : Box) (rows : List UidRow) → HasKeys rows → IsDistinct (values (select_live box rows))
unfolding select_live
select_live-IsDistinct box [] h = tt
select_live-IsDistinct box (r ∷ rows) h =
    ground (arith, select_live_new box r rows h.0, select_live-IsDistinct box rows h.1)

missing-IsDistinct :
    (present : List Bytes) (live : Dict Bytes ℕ)
    → IsDistinct (values live)
    → IsDistinct (missing present live)
unfolding missing
missing-IsDistinct present [] h = tt
missing-IsDistinct present ((k, u) ∷ live) h =
    ground (arith, missing_fresh present u live h.0, missing-IsDistinct present live h.1)

pub marked-delete_marks :
    (box b : Box) (gone : List ℕ) (u : ℕ) (marks : List Mark)
    → marked b u (delete_marks box gone marks)
      ≡ (marked b u marks && not (b == box && contains gone u))
unfolding delete_marks
marked-delete_marks box b gone u [] = refl
marked-delete_marks box b gone u (m ∷ marks) = ground (
  arith,
  same_box_iff m.box box,
  same_box_iff m.box b,
  same_box_iff b box,
  ==_iff m.uid u,
  marked-delete_marks box b gone u marks,
)

prune-nil : (live : Dict Bytes ℕ) → prune [] live ≡ live
prune-nil [] = refl
prune-nil ((k, u) ∷ live) = ap (◌∷◌ (k, u)) (prune-nil live)

-- What a committed `tombstone_missing` answers and leaves.
pub record Vanishes (box : Box) (present : List Bytes) (s s' : UidStore) (gone : List ℕ)
    : Type 0 where
  pub ascending : IsAscending gone
  pub exactly : (u : ℕ) → contains gone u ≡ contains (missing present (live_map box s)) u
  pub live :
      (k : Bytes)
      → lookup k (live_map box s')
        ≡ (if contains present k then lookup k (live_map box s) else none)
  pub marks :
      (b : Box) (u : ℕ)
      → marked b u s'.deleted_mark
        ≡ (marked b u s.deleted_mark && not (b == box && contains gone u))

module _ (env : Env) (box : Box) (present : List Bytes) (s : UidStore) (v : IsValid s) where
  abbrev gone_uids : List ℕ
  gone_uids = sorted (missing present (live_map box s))

  distinct : IsDistinct (values (live_map box s))
  unfolding live_map
  distinct = select_live-IsDistinct box s.uid_map v.keyed

  live_after :
      (k : Bytes)
      → lookup k (prune gone_uids (live_map box s))
        ≡ (if contains present k then lookup k (live_map box s) else none)
  live_after k =
      ap (lookup k) (
        prune-sorted (missing present (live_map box s)) (live_map box s)
        ∙ prune-missing present (live_map box s) distinct)
      ∙ lookup-restrict present k (live_map box s)

  abbrev struck : UidStore
  struck = record s {
    uid_map = set_vanished box gone_uids env.now s.uid_map;
    deleted_mark = delete_marks box gone_uids s.deleted_mark;
  }

  live_map-struck : live_map box struck ≡ prune gone_uids (live_map box s)
  unfolding live_map
  live_map-struck = select_live-set_vanished box gone_uids env.now s.uid_map

  struck-Vanishes : Vanishes box present s struck gone_uids
  struck-Vanishes = record {
    ascending = sorted-IsAscending _ (missing-IsDistinct present (live_map box s) distinct);
    exactly = λ u. contains-sorted u _;
    live = λ k. ap (lookup k) live_map-struck ∙ live_after k;
    marks = λ b u. marked-delete_marks box b gone_uids u s.deleted_mark;
  }

  nothing-Vanishes : (gone_uids ≡ []) → Vanishes box present s s []
  nothing-Vanishes e = record {
    ascending = tt;
    exactly = λ u. (ap (λ g. contains g u) (sym e)) ∙ contains-sorted u _;
    live = λ k.
        sym (ap (lookup k) (ap (λ g. prune g (live_map box s)) e ∙ prune-nil _)) ∙ live_after k;
    marks = λ b u. ground arith;
  }

  -- On valid tables, a call of `tombstone_missing` whose transaction goes through answers, in
  -- ascending order, the UIDs of the live keys that are not present; afterwards the live map has
  -- the present keys with their old UIDs and no other key, and exactly the marks of the mailbox's
  -- answered UIDs are gone.
  pub tombstone_missing-Vanishes :
      env.commits ≡ true
      → (gone : List ℕ) × ((tombstone_missing env box present s).0 ≡ some gone)
        × Vanishes box present s (tombstone_missing env box present s).1 gone
  unfolding tombstone_missing
  tombstone_missing-Vanishes c = elim (Bool-cases (gone_uids == [])) [
    | inl nothing ↦ (
      [],
      rw (nothing, tombstone_missing),
      rw (nothing, tombstone_missing) (nothing-Vanishes ((==_iff gone_uids []).0 nothing)),
    )
    | inr some' ↦ (
      gone_uids,
      rw (some', tombstone_missing) (rw (transaction_commits env s struck gone_uids c)),
      rw (some', tombstone_missing)
          (rw (transaction_commits env s struck gone_uids c) struck-Vanishes),
    )
  ]
