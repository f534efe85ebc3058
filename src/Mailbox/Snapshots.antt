-- ===== src/Mailbox/Snapshots.antt =====
-- imapgw/mailbox.py: what `_do_sync` publishes, and why a view can follow it.
use mathlib.Core.Path.{subst}
use imap_work_trial.Base.{
  ℕ, ◌≤◌, ◌≡◌, ◌↔◌, ◌⊎◌, refl, sym, ap, ◌∙◌, list_eq, nat_eq, Bytes, contains, contains-sorted,
  sorted, sorted-IsAscending, IsAscending, All, true, if◌then◌else◌, Bool-cases, Option-cases, Dict,
  lookup, lookup-insert, Option, none, some, List, [], ◌∷◌, arith, inl, inr,
}
use imap_work_trial.UidStore.Tables.{Box, box_eq, same_box_iff}
use imap_work_trial.UidStore.Calls.{
  UidStore, live_map, ensure_uids, tombstone_missing, mailbox_info,
}
use imap_work_trial.UidStore.Valid.{next_of, IsValid}
use imap_work_trial.UidStore.Allocation.{ensure_uids-IsValid}
use imap_work_trial.UidStore.Tombstones.{tombstone_missing-IsValid}
use imap_work_trial.UidStore.Vanish.{tombstone_missing-Vanishes}
use imap_work_trial.UidStore.Results.{Answers, ensure_uids-Answers}
use imap_work_trial.UidStore.Live.{live_map_injective, mailbox_info-Reports}
use imap_work_trial.Mailbox.Flags.{Item, MailboxSnapshot, item_uids}
use imap_work_trial.Mailbox.Listing.{Entry, Overrides, keys_of}
use imap_work_trial.Mailbox.Sync.{
  Service, Outside, build_items, sort_items, pairs_of, snapshot, publish, reconcile, number_entries,
  sync_entries, do_sync,
}
use imap_work_trial.Mailbox.Entries.{IsListing, sort_entries-IsListing}
use imap_work_trial.Mailbox.Pins.{AllPinsFit, apply_pins-IsListing}
use imap_work_trial.Mailbox.Numbering.{
  uids_of, HasUid, build_items_lem, item_uids-sort_items, IsInjective, contains-uids_of_iff,
  uids_of-IsDistinct,
}

-- The UIDs of a snapshot are those of the live keys.
abbrev pub ShowsLive : Box → UidStore → List ℕ → Type 0
ShowsLive key store us =
    (u : ℕ) → (contains us u ≡ true) ↔ ((k : Bytes) × (lookup k (live_map key store) ≡ some u))

-- What a sync publishes, and the state that it leaves.
pub record Published (key : Box) (s : Service) (snap : MailboxSnapshot) : Type 0 where
  pub valid : IsValid s.store
  pub pins : AllPinsFit s
  pub ascending : IsAscending (item_uids snap.items)
  pub shows : ShowsLive key s.store (item_uids snap.items)
  pub uidnext : snap.uidnext ≡ next_of key s.store.mailbox
  pub latest : lookup key s.latest ≡ some snap

-- The live map behind `tombstone_missing`, where its keys had UIDs by the map `m`.
shows_lem :
    (key : Box) (ks : List Bytes) (m live : Dict Bytes ℕ) (us : List ℕ) (store : UidStore)
    → ((u : ℕ) → contains us u ≡ contains (uids_of m ks) u)
    → ((k : Bytes) → lookup k m ≡ lookup k live)
    → ((k : Bytes)
        → lookup k (live_map key store) ≡ (if contains ks k then lookup k live else none))
    → ShowsLive key store us
shows_lem key ks m live us store same stored struck u =
    let (to_key, from_key) = contains-uids_of_iff m ks u in
    (
      λ h.
          let (k, c, l) = to_key (sym (same u) ∙ h) in
          (k, struck k ∙ ground (arith, c, l, stored k)),
      λ (k, l). elim (Bool-cases (contains ks k)) [
        | inl c ↦ same u ∙ from_key (k, c, stored k ∙ ground (arith, struck k, l, c))
        | inr n ↦ absurd (ground (arith, struck k, l, n))
      ],
    )

reconcile_runs :
    (out : Outside) (key : Box) (entries : List Entry) (m : Dict Bytes ℕ) (s : Service)
    (gone : List ℕ) (info : ℕ × ℕ) (items : List Item)
    → (tombstone_missing out.striking key (keys_of entries) s.store).0 ≡ some gone
    → (mailbox_info out.reading key
        (tombstone_missing out.striking key (keys_of entries) s.store).1).0
      ≡ some info
    → build_items m entries ≡ some items
    → reconcile out key entries m s
      ≡ publish out.now key info items (record s {
        store =
            (mailbox_info out.reading key
              (tombstone_missing out.striking key (keys_of entries) s.store).1).1;
      })
unfolding reconcile
reconcile_runs out key entries m s gone info items a b c = rw (a, reconcile) (rw (b) (rw (c) refl))

module _ (out : Outside) (key : Box) (entries : List Entry) (m : Dict Bytes ℕ) (s : Service)
    (listing : IsListing entries) (v : IsValid s.store) (pins : AllPinsFit s)
    (stored : (k : Bytes) → lookup k m ≡ lookup k (live_map key s.store))
    (covered : All (HasUid m) (keys_of entries)) (strikes : out.striking.commits ≡ true)
    (reads : out.reading.commits ≡ true) where
  injective : IsInjective m
  injective k q u h g =
      live_map_injective key s.store v k q u (sym (stored k) ∙ h) (sym (stored q) ∙ g)

  reconcile-Published :
      (snap : MailboxSnapshot) × ((reconcile out key entries m s).0 ≡ some snap)
      × Published key (reconcile out key entries m s).1 snap
      × (item_uids snap.items ≡ sorted (uids_of m (keys_of entries)))
  unfolding publish snapshot
  reconcile-Published =
      let (gone, struck, vanished) =
        tombstone_missing-Vanishes out.striking key (keys_of entries) s.store v strikes in
      let v' = tombstone_missing-IsValid out.striking key (keys_of entries) s.store v in
      let (info, reported, reports) = mailbox_info-Reports out.reading key _ v' reads in
      let (items, built, uids) = build_items_lem m entries covered listing.builds in
      let numbers : item_uids (sort_items items) ≡ sorted (uids_of m (keys_of entries)) =
        item_uids-sort_items items ∙ ap sorted uids in
      let runs = reconcile_runs out key entries m s gone info items struck reported built in
      (
        snapshot out.now key info items s,
        rw runs refl,
        rw runs (record {
          valid = reports.valid;
          pins = pins;
          ascending = rw numbers (
              sorted-IsAscending _
                (uids_of-IsDistinct m (keys_of entries) injective listing.distinct));
          shows =
              shows_lem key (keys_of entries) m (live_map key s.store) _ _
                (λ u. ap (λ us. contains us u) numbers ∙ contains-sorted u _) stored
                (λ k. ap (lookup k) reports.live ∙ vanished.live k);
          uidnext = reports.next;
          latest = rw lookup-insert (ground (arith, same_box_iff key key));
        }),
        numbers,
      )

-- A UID was live before, or it is not below the next UID of then.
abbrev pub Known : Box → UidStore → ℕ → Type 0
Known key store u =
    ((k : Bytes) × (lookup k (live_map key store) ≡ some u)) ⊎ (next_of key store.mailbox ≤ u)

HasUid-pairs :
    (m : Dict Bytes ℕ) (entries : List Entry)
    → All (λ (key : Bytes × Bytes). (u : ℕ) × (lookup key.0 m ≡ some u)) (pairs_of entries)
    → All (HasUid m) (keys_of entries)
HasUid-pairs m [] h = tt
HasUid-pairs m (e ∷ entries) h = (h.0, HasUid-pairs m entries h.1)

known_lem :
    (key : Box) (store store' : UidStore) (pairs : List (Bytes × Bytes)) (m : Dict Bytes ℕ)
    → Answers key pairs store store' m
    → (k : Bytes) (u : ℕ) → lookup k m ≡ some u
    → Known key store u
known_lem key store store' pairs m a k u l = elim (Option-cases (lookup k (live_map key store))) [
  | inl new ↦ inr (a.fresh k u new l)
  | inr (w, old) ↦ inl (k, ground (arith, old, a.keeps k w old, l))
]

-- What a sync publishes, with where its UIDs come from.
abbrev pub Synced : Box → UidStore → Option MailboxSnapshot × Service → Type 0
Synced key before r =
    (snap : MailboxSnapshot) × (r.0 ≡ some snap)
    × Published key r.1 snap
    × ((u : ℕ) → contains (item_uids snap.items) u ≡ true → Known key before u)

module _ (out : Outside) (key : Box) (allocates : out.allocating.commits ≡ true)
    (strikes : out.striking.commits ≡ true) (reads : out.reading.commits ≡ true) where
  allocated_Synced :
      (entries : List Entry) (s : Service)
      → IsListing entries
      → IsValid s.store
      → AllPinsFit s
      → (m : Dict Bytes ℕ)
      → Answers key
          (pairs_of entries)
          s.store
          (ensure_uids out.allocating key (pairs_of entries) s.store).1
          m
      → Synced key s.store (
          reconcile out key entries m
            (record s { store = (ensure_uids out.allocating key (pairs_of entries) s.store).1 }))
  allocated_Synced entries s l v p m a =
      let v' = ensure_uids-IsValid out.allocating key (pairs_of entries) s.store v in
      let (snap, e, published, numbers) =
        reconcile-Published out key entries m
          (record s { store = (ensure_uids out.allocating key (pairs_of entries) s.store).1 }) l v'
          p a.stored (HasUid-pairs m entries a.covers) strikes reads in
      (
        snap,
        e,
        published,
        λ u c.
            let (k, _, h) = (contains-uids_of_iff m (keys_of entries) u).0 (
              sym (contains-sorted u (uids_of m (keys_of entries)))
              ∙ (ap (λ us. contains us u) (sym numbers) ∙ c)) in
            known_lem key s.store _ (pairs_of entries) m a k u h,
      )

  number_entries-Synced :
      (entries : List Entry) (s : Service)
      → IsListing entries
      → IsValid s.store
      → AllPinsFit s
      → Synced key s.store (number_entries out key entries s)
  unfolding number_entries
  number_entries-Synced entries s l v p =
      let (m, e, a) =
        ensure_uids-Answers out.allocating key (pairs_of entries) s.store v allocates in
      rw (e, number_entries) (allocated_Synced entries s l v p m a)

  sync_entries-Synced :
      (entries : List Entry) (s : Service)
      → IsListing entries
      → IsValid s.store
      → AllPinsFit s
      → Synced key s.store (sync_entries out key entries s)
  unfolding sync_entries
  sync_entries-Synced entries s l v p =
      let (shown, pins, same) = apply_pins-IsListing out.now key entries s l p in
      subst (λ store. Synced key store (sync_entries out key entries s)) same
        (number_entries-Synced _ _ (sort_entries-IsListing _ shown) (subst IsValid (sym same) v)
          pins)

  -- If the collection comes to entries with different keys and the transactions of the store go
  -- through, `_do_sync` on a valid store publishes a snapshot: its UIDs are in ascending order, they
  -- are those of the live keys afterwards, and each was live before or is not below the next UID
  -- of before; the UIDNEXT is that of the store, which is valid again, as are the pins.
  pub do_sync-Synced :
      (collection : Overrides → Option (List Entry) × Overrides) (s : Service)
      (entries : List Entry)
      → (collection s.label_overrides).0 ≡ some entries
      → IsListing entries
      → IsValid s.store
      → AllPinsFit s
      → Synced key s.store (do_sync out key collection s)
  unfolding do_sync
  do_sync-Synced collection s entries e l v p =
      rw (e, do_sync)
        (sync_entries-Synced entries
          (record s { label_overrides = (collection s.label_overrides).1 }) l v p)
