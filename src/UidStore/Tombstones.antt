-- ===== src/UidStore/Tombstones.antt =====
-- imapgw/uidstore.py, `tombstone_missing` and `set_deleted`.
use imap_work_trial.Base.{
  ℕ, ◌<◌, ◌≡◌, refl, ◌==◌, nat_eq, list_eq, Bool, false, ◌&&◌, All, any, Bytes, contains, sorted,
  Bool-cases, some, List, [], ◌∷◌, arith, inl, inr, if◌then◌else◌,
}
use imap_work_trial.UidStore.Tables.{Box, box_eq, MailboxRow, UidRow, clash, set_vanished}
use imap_work_trial.UidStore.Calls.{
  UidStore, Env, live_map, missing, tombstone_missing, set_deleted,
}
use imap_work_trial.UidStore.Valid.{next_of, HasKeys, IsValid}
use imap_work_trial.UidStore.Allocation.{transaction-IsValid}

module _ (box : Box) (gone : List ℕ) (now : Bytes) where
  below-set_vanished :
      (ms : List MailboxRow) (rows : List UidRow)
      → All (λ r. r.uid < next_of r.box ms) rows
      → All (λ r. r.uid < next_of r.box ms) (set_vanished box gone now rows)
  unfolding set_vanished
  below-set_vanished ms [] h = tt
  below-set_vanished ms (r ∷ rows) h = ground (arith, below-set_vanished ms rows)

  abbrev struck : UidRow → UidRow
  struck r = if r.box == box && contains gone r.uid then record r { vanished_at = some now } else r

  clash-set_vanished :
      (r : UidRow) (rows : List UidRow)
      → any (clash r) rows ≡ false
      → any (clash (struck r)) (set_vanished box gone now rows) ≡ false
  unfolding set_vanished clash
  clash-set_vanished r [] h = refl
  clash-set_vanished r (q ∷ rows) h = ground (arith, clash-set_vanished r rows)

  HasKeys-set_vanished :
      (rows : List UidRow) → HasKeys rows → HasKeys (set_vanished box gone now rows)
  unfolding set_vanished
  HasKeys-set_vanished [] h = tt
  HasKeys-set_vanished (r ∷ rows) h = (clash-set_vanished r rows h.0, HasKeys-set_vanished rows h.1)

pub tombstone_missing-IsValid :
    (env : Env) (box : Box) (present : List Bytes) (s : UidStore)
    → IsValid s
    → IsValid (tombstone_missing env box present s).1
unfolding tombstone_missing
tombstone_missing-IsValid env box present s v =
    let gone = sorted (missing present (live_map box s)) in
    elim (Bool-cases (gone == [])) [
      | inl nothing ↦ rw (nothing, tombstone_missing) v
      | inr some' ↦
          rw (some', tombstone_missing)
            (transaction-IsValid env s _ (some gone) v (record {
              below = below-set_vanished box gone env.now s.mailbox s.uid_map v.below;
              keyed = HasKeys-set_vanished box gone env.now s.uid_map v.keyed;
              ranges = v.ranges;
            }))
    ]

pub set_deleted-IsValid :
    (env : Env) (box : Box) (uids : List ℕ) (value : Bool) (s : UidStore)
    → IsValid s
    → IsValid (set_deleted env box uids value s).1
unfolding set_deleted
set_deleted-IsValid env box uids value s v = elim (Bool-cases (uids == [])) [
  | inl nothing ↦ rw (nothing, set_deleted) v
  | inr some' ↦
      rw (some', set_deleted)
        (transaction-IsValid env s _ (some tt) v
          (record { below = v.below; keyed = v.keyed; ranges = v.ranges }))
]
