-- ===== src/Mailbox/Entries.antt =====
-- imapgw/mailbox.py: the entries that a sync numbers have different keys.
use mathlib.Core.Path.{subst}
use imap_work_trial.Base.{
  ℕ, ◌≡◌, refl, ap, ◌==◌, list_eq, nat_eq, ==_iff, Bytes, contains, contains-append, IsDistinct,
  any, All, Bool, true, false, ◌||◌, Bool-cases, Option, none, some, List, [], ◌∷◌, ◌++◌, arith,
  inl, inr,
}
use imap_work_trial.Mailbox.Catalog.{MailboxDef}
use imap_work_trial.Mailbox.Listing.{
  Message, Entry, Overrides, effective_labels, put, message_entry, collect, collect_messages,
  keys_of,
}
use imap_work_trial.Mailbox.Sync.{sort_entries, insert_entry}

-- An entry's builder gives the item the UID.
abbrev pub Builds : Entry → Type 0
Builds e = (u : ℕ) → (e.build u).uid ≡ u

-- Entries with different keys, none of them in `seen`.
pub record Fresh (seen : List Bytes) (entries : List Entry) : Type 0 where
  pub distinct : IsDistinct (keys_of entries)
  pub new : All (λ k. contains seen k ≡ false) (keys_of entries)
  pub builds : All Builds entries

pub contains-All_not :
    (q : Bytes) (seen ks : List Bytes)
    → All (λ k. contains (q ∷ seen) k ≡ false) ks
    → (contains ks q ≡ false) × All (λ k. contains seen k ≡ false) ks
contains-All_not q seen [] h = (refl, tt)
contains-All_not q seen (k ∷ ks) h =
    ground (arith, ==_iff q k, ==_iff k q, contains-All_not q seen ks h.1)

Fresh-weaken :
    (q : Bytes) (seen : List Bytes) (entries : List Entry)
    → Fresh (q ∷ seen) entries
    → Fresh seen entries
Fresh-weaken q seen entries f = record {
  distinct = f.distinct;
  new = (contains-All_not q seen (keys_of entries) f.new).1;
  builds = f.builds;
}

Fresh-cons :
    (m : Message) (labels : List Bytes) (seen : List Bytes) (entries : List Entry)
    → contains seen m.message_id ≡ false
    → Fresh (m.message_id ∷ seen) entries
    → Fresh seen (message_entry m labels ∷ entries)
Fresh-cons m labels seen entries n f =
    let (other, more) = contains-All_not m.message_id seen (keys_of entries) f.new in
    record { distinct = (other, f.distinct); new = (n, more); builds = ((λ u. refl), f.builds) }

-- What a collection comes to, if it does not raise.
abbrev pub Collected : List Bytes → Option (List Entry) → Type 0
Collected seen none = Unit
Collected seen (some entries) = Fresh seen entries

Collected-weaken :
    (q : Bytes) (seen : List Bytes) (r : Option (List Entry))
    → Collected (q ∷ seen) r
    → Collected seen r
Collected-weaken q seen none c = tt
Collected-weaken q seen (some entries) c = Fresh-weaken q seen entries c

Collected-put :
    (m : Message) (labels : List Bytes) (seen : List Bytes) (r : Option (List Entry) × Overrides)
    → contains seen m.message_id ≡ false
    → Collected (m.message_id ∷ seen) r.0
    → Collected seen (put (message_entry m labels) r).0
Collected-put m labels seen (none, overrides) n c = tt
Collected-put m labels seen (some entries, overrides) n c = Fresh-cons m labels seen entries n c

module _ (now : ℕ) (inbox_id : Bytes) (mdef : MailboxDef) where
  collect-Collected :
      (seen : List Bytes) (listing : List Message) (failed : Bool) (overrides : Overrides)
      → Collected seen (collect now inbox_id mdef seen listing failed overrides).0
  unfolding collect
  collect-Collected seen [] true overrides = tt
  collect-Collected seen [] false overrides = record { distinct = tt; new = tt; builds = tt }
  collect-Collected seen (m ∷ listing) failed overrides = elim (Bool-cases (m.message_id == [])) [
    | inl empty ↦ rw (empty, collect) tt
    | inr id ↦ elim (Bool-cases (contains seen m.message_id)) [
      | inl old ↦ rw (id, old, collect) (collect-Collected seen listing failed overrides)
      | inr new ↦
          let (labels, overrides') =
            effective_labels now inbox_id m.message_id m.labels overrides in
          let ih = collect-Collected (m.message_id ∷ seen) listing failed overrides' in
          elim (Bool-cases (any (contains mdef.exclude_labels) labels)) [
            | inl hidden ↦ rw (id, new, hidden, collect) (Collected-weaken m.message_id seen _ ih)
            | inr shown ↦ rw (id, new, shown, collect) (Collected-put m labels seen _ new ih)
          ]
    ]
  ]

pub keys-append : (xs ys : List Entry) → keys_of (xs ++ ys) ≡ keys_of xs ++ keys_of ys
keys-append [] ys = refl
keys-append (x ∷ xs) ys = ap (◌∷◌ x.remote_key) (keys-append xs ys)

pub IsDistinct-append :
    (xs ys : List Bytes)
    → IsDistinct xs
    → IsDistinct ys
    → All (λ y. contains xs y ≡ false) ys
    → IsDistinct (xs ++ ys)
IsDistinct-append [] ys hx hy h = hy
IsDistinct-append (x ∷ xs) ys hx hy h =
    let (other, more) = contains-All_not x xs ys h in
    (rw contains-append (ground (arith, hx.0, other)), IsDistinct-append xs ys hx.1 hy more)

contains-insert_entry :
    (e : Entry) (entries : List Entry) (k : Bytes)
    → contains (keys_of (insert_entry e entries)) k
      ≡ ((e.remote_key == k) || contains (keys_of entries) k)
unfolding insert_entry
contains-insert_entry e [] k = refl
contains-insert_entry e (x ∷ entries) k = ground (arith, contains-insert_entry e entries k)

IsDistinct-insert_entry :
    (e : Entry) (entries : List Entry)
    → contains (keys_of entries) e.remote_key ≡ false
    → IsDistinct (keys_of entries)
    → IsDistinct (keys_of (insert_entry e entries))
unfolding insert_entry
IsDistinct-insert_entry e [] n h = (refl, tt)
IsDistinct-insert_entry e (x ∷ entries) n h = ground (
  arith,
  ==_iff x.remote_key e.remote_key,
  ==_iff e.remote_key x.remote_key,
  contains-insert_entry e entries x.remote_key,
  IsDistinct-insert_entry e entries,
)

All-insert_entry :
    (P : Entry → Type 0) (e : Entry) (entries : List Entry)
    → P e
    → All P entries
    → All P (insert_entry e entries)
unfolding insert_entry
All-insert_entry P e [] p h = (p, tt)
All-insert_entry P e (x ∷ entries) p h = ground (arith, All-insert_entry P e entries p)

pub contains-sort_entries :
    (entries : List Entry) (k : Bytes)
    → contains (keys_of (sort_entries entries)) k ≡ contains (keys_of entries) k
unfolding sort_entries
contains-sort_entries [] k = refl
contains-sort_entries (e ∷ entries) k =
    ground
      (arith, contains-insert_entry e (sort_entries entries) k, contains-sort_entries entries k)

IsDistinct-sort_entries :
    (entries : List Entry)
    → IsDistinct (keys_of entries)
    → IsDistinct (keys_of (sort_entries entries))
unfolding sort_entries
IsDistinct-sort_entries [] h = tt
IsDistinct-sort_entries (e ∷ entries) h =
    IsDistinct-insert_entry e (sort_entries entries) (rw contains-sort_entries h.0)
      (IsDistinct-sort_entries entries h.1)

Builds-sort_entries :
    (entries : List Entry) → All Builds entries → All Builds (sort_entries entries)
unfolding sort_entries
Builds-sort_entries [] h = tt
Builds-sort_entries (e ∷ entries) h =
    All-insert_entry Builds e (sort_entries entries) h.0 (Builds-sort_entries entries h.1)

-- Entries with different keys, whose builders give the UID.
pub record IsListing (entries : List Entry) : Type 0 where
  pub distinct : IsDistinct (keys_of entries)
  pub builds : All Builds entries

-- Sorting keeps the entries apart.
pub sort_entries-IsListing :
    (entries : List Entry) → IsListing entries → IsListing (sort_entries entries)
sort_entries-IsListing entries l = record {
  distinct = IsDistinct-sort_entries entries l.distinct;
  builds = Builds-sort_entries entries l.builds;
}

-- What a collection comes to is a listing, if it does not raise.
pub collect_messages-IsListing :
    (now : ℕ) (inbox_id : Bytes) (mdef : MailboxDef) (listing : List Message) (failed : Bool)
    (overrides : Overrides) (entries : List Entry)
    → (collect_messages now inbox_id mdef listing failed overrides).0 ≡ some entries
    → IsListing entries
unfolding collect_messages
collect_messages-IsListing now inbox_id mdef listing failed overrides entries e =
    let c = collect-Collected now inbox_id mdef [] listing failed overrides in
    let f = subst (Collected []) e c in record { distinct = f.distinct; builds = f.builds }
