-- ===== src/Mailbox/Pins.antt =====
-- imapgw/mailbox.py: pins keep the keys of the entries apart.
use mathlib.Core.Path.{subst}
use imap_work_trial.Base.{
  ℕ, ◌≡◌, ◌⊎◌, refl, ◌==◌, list_eq, nat_eq, ==_iff, Bytes, contains, IsDistinct, All, All-append,
  Bool, true, false, ◌||◌, if◌then◌else◌, Bool-cases, Dict, insert, erase, lookup-insert,
  lookup-erase, map, List, [], ◌∷◌, ◌++◌, arith, inl, inr,
}
use imap_work_trial.UidStore.Tables.{Box, box_eq}
use imap_work_trial.Mailbox.Listing.{Entry, Pins, live_pins, pinned_entries, keys_of}
use imap_work_trial.Mailbox.Sync.{Service, pins_of, set_pins, pin, unpin, apply_pins}
use imap_work_trial.Mailbox.Entries.{Builds, IsListing, keys-append, IsDistinct-append}

abbrev pin_keys : Pins → List Bytes
pin_keys pins = map (λ (p : Bytes × (ℕ × Entry)). p.0) pins

List-cases :
    (pins : Pins) → (pins ≡ []) ⊎ ((p : Bytes × (ℕ × Entry)) × (more : Pins) × (pins ≡ p ∷ more))
List-cases [] = inl refl
List-cases (p ∷ more) = inr (p, more, refl)

-- A pin stands under its entry's key.
abbrev Fitting : Bytes × (ℕ × Entry) → Type 0
Fitting p = (p.1.1.remote_key ≡ p.0) × Builds p.1.1

-- Each pin under its own key.
pub record PinsFit (pins : Pins) : Type 0 where
  pub distinct : IsDistinct (pin_keys pins)
  pub fitting : All Fitting pins

pub no_pins : PinsFit []
no_pins = record { distinct = tt; fitting = tt }

module _ (now : ℕ) (listed : List Bytes) where
  contains-live_pins :
      (q : Bytes) (pins : Pins)
      → contains (pin_keys pins) q ≡ false
      → contains (pin_keys (live_pins now listed pins)) q ≡ false
  unfolding live_pins
  contains-live_pins q [] h = refl
  contains-live_pins q (p ∷ pins) h = ground (arith, contains-live_pins q pins)

  IsDistinct-live_pins :
      (pins : Pins) → IsDistinct (pin_keys pins) → IsDistinct (pin_keys (live_pins now listed pins))
  unfolding live_pins
  IsDistinct-live_pins [] h = tt
  IsDistinct-live_pins (p ∷ pins) h =
      ground (arith, contains-live_pins p.0 pins, IsDistinct-live_pins pins)

  All-live_pins :
      (P : Bytes × (ℕ × Entry) → Type 0) (pins : Pins)
      → All P pins
      → All P (live_pins now listed pins)
  unfolding live_pins
  All-live_pins P [] h = tt
  All-live_pins P (p ∷ pins) h = ground (arith, All-live_pins P pins)

  live_pins_new :
      (pins : Pins) → All (λ k. contains listed k ≡ false) (pin_keys (live_pins now listed pins))
  unfolding live_pins
  live_pins_new [] = tt
  live_pins_new (p ∷ pins) = ground (arith, live_pins_new pins)

  live_pins-PinsFit : (pins : Pins) → PinsFit pins → PinsFit (live_pins now listed pins)
  live_pins-PinsFit pins f = record {
    distinct = IsDistinct-live_pins pins f.distinct;
    fitting = All-live_pins Fitting pins f.fitting;
  }

keys-pinned : (pins : Pins) → All Fitting pins → keys_of (pinned_entries pins) ≡ pin_keys pins
keys-pinned [] h = refl
keys-pinned (p ∷ pins) h = ground (arith, h.0.0, keys-pinned pins h.1)

Builds-pinned : (pins : Pins) → All Fitting pins → All Builds (pinned_entries pins)
Builds-pinned [] h = tt
Builds-pinned (p ∷ pins) h = (h.0.1, Builds-pinned pins h.1)

-- A listing with the live pins behind it.
joined-IsListing :
    (now : ℕ) (entries : List Entry) (pins : Pins)
    → IsListing entries
    → PinsFit pins
    → IsListing (entries ++ pinned_entries (live_pins now (keys_of entries) pins))
joined-IsListing now entries pins l f =
    let kept = live_pins-PinsFit now (keys_of entries) pins f in
    record {
      distinct =
          rw (keys-append, keys-pinned _ kept.fitting)
            (IsDistinct-append (keys_of entries) _ l.distinct kept.distinct
              (live_pins_new now (keys_of entries) pins));
      builds = All-append Builds entries _ l.builds (Builds-pinned _ kept.fitting);
    }

-- All pins of the service fit.
abbrev pub AllPinsFit : Service → Type 0
AllPinsFit s = (key : Box) → PinsFit (pins_of key s.pinned)

fit_if : (b : Bool) (p q : Pins) → PinsFit p → PinsFit q → PinsFit (if b then p else q)
fit_if true p q f g = f
fit_if false p q f g = g

pins_of-insert :
    (key q : Box) (pins : Pins) (pinned : Dict Box Pins)
    → pins_of q (insert key pins pinned) ≡ (if key == q then pins else pins_of q pinned)
unfolding pins_of
pins_of-insert key q pins pinned = ground (arith, lookup-insert key q pins pinned)

pins_of-erase :
    (key q : Box) (pinned : Dict Box Pins)
    → pins_of q (erase key pinned) ≡ (if key == q then [] else pins_of q pinned)
unfolding pins_of
pins_of-erase key q pinned = ground (arith, lookup-erase key q pinned)

pins_of-set_pins :
    (key q : Box) (pins : Pins) (pinned : Dict Box Pins)
    → pins_of q (set_pins key pins pinned) ≡ (if key == q then pins else pins_of q pinned)
unfolding set_pins
pins_of-set_pins key q [] pinned = pins_of-erase key q pinned
pins_of-set_pins key q (p ∷ pins) pinned = pins_of-insert key q (p ∷ pins) pinned

distinct-insert :
    (k q : Bytes) (v : ℕ × Entry) (pins : Pins)
    → contains (pin_keys (insert k v pins)) q ≡ (contains (pin_keys pins) q || k == q)
unfolding insert
distinct-insert k q v [] = ground arith
distinct-insert k q v (p ∷ pins) =
    ground (arith, ==_iff p.0 k, ==_iff p.0 q, ==_iff k q, distinct-insert k q v pins)

insert-PinsFit :
    (k : Bytes) (expires : ℕ) (entry : Entry) (pins : Pins)
    → entry.remote_key ≡ k
    → Builds entry
    → PinsFit pins
    → PinsFit (insert k (expires, entry) pins)
unfolding insert
insert-PinsFit k expires entry [] e b f = record { distinct = (refl, tt); fitting = ((e, b), tt) }
insert-PinsFit k expires entry (p ∷ pins) e b f =
    let rest =
      insert-PinsFit k expires entry pins e b
        (record { distinct = f.distinct.1; fitting = f.fitting.1 }) in
    elim (Bool-cases (p.0 == k)) [
      | inl same ↦
          rw (same, insert)
            (record {
              distinct = f.distinct;
              fitting = ((ground (arith, e, ==_iff p.0 k), b), f.fitting.1);
            })
      | inr other ↦
          rw (other, insert)
            (record {
              distinct = (
                ground (
                  arith,
                  distinct-insert k p.0 (expires, entry) pins,
                  f.distinct.0,
                  ==_iff p.0 k,
                  ==_iff k p.0,
                ),
                rest.distinct,
              );
              fitting = (f.fitting.0, rest.fitting);
            })
    ]

contains-erase :
    (k q : Bytes) (pins : Pins)
    → contains (pin_keys pins) q ≡ false
    → contains (pin_keys (erase k pins)) q ≡ false
unfolding erase
contains-erase k q [] h = refl
contains-erase k q (p ∷ pins) h = ground (arith, contains-erase k q pins)

erase-PinsFit : (k : Bytes) (pins : Pins) → PinsFit pins → PinsFit (erase k pins)
unfolding erase
erase-PinsFit k [] f = f
erase-PinsFit k (p ∷ pins) f =
    let rest = erase-PinsFit k pins (record { distinct = f.distinct.1; fitting = f.fitting.1 }) in
    elim (Bool-cases (p.0 == k)) [
      | inl same ↦ rw (same, erase) rest
      | inr other ↦
          rw (other, erase)
            (record {
              distinct = (contains-erase k p.0 pins f.distinct.0, rest.distinct);
              fitting = (f.fitting.0, rest.fitting);
            })
    ]

pub pin-AllPinsFit :
    (now : ℕ) (key : Box) (k : Bytes) (entry : Entry) (s : Service)
    → entry.remote_key ≡ k
    → Builds entry
    → AllPinsFit s
    → AllPinsFit (pin now key k entry s)
unfolding pin
pin-AllPinsFit now key k entry s e b f q =
    rw pins_of-insert
      (fit_if (key == q) _ _ (insert-PinsFit k _ entry (pins_of key s.pinned) e b (f key)) (f q))

set-AllPinsFit :
    (key : Box) (pins : Pins) (s : Service)
    → PinsFit pins
    → AllPinsFit s
    → AllPinsFit (record s { pinned = set_pins key pins s.pinned })
set-AllPinsFit key pins s p f q = rw pins_of-set_pins (fit_if (key == q) _ _ p (f q))

pub unpin-AllPinsFit :
    (key : Box) (k : Bytes) (s : Service) → AllPinsFit s → AllPinsFit (unpin key k s)
unfolding unpin
unpin-AllPinsFit key k s f = go (pins_of key s.pinned) (f key)
  where
    go :
        (pins : Pins)
        → PinsFit pins
        → AllPinsFit (elim pins as (λ _. Service) [
          | [] ↦ s
          | p ∷ more ↦ record s { pinned = set_pins key (erase k (p ∷ more)) s.pinned }
        ])
    go [] g = f
    go (p ∷ more) g = set-AllPinsFit key (erase k (p ∷ more)) s (erase-PinsFit k (p ∷ more) g) f

-- `_apply_pins` shows a listing, and keeps the pins.
pub apply_pins-IsListing :
    (now : ℕ) (key : Box) (entries : List Entry) (s : Service)
    → IsListing entries
    → AllPinsFit s
    → IsListing (apply_pins now key entries s).0
      × AllPinsFit (apply_pins now key entries s).1
      × ((apply_pins now key entries s).1.store ≡ s.store)
unfolding apply_pins
apply_pins-IsListing now key entries s l f = elim (List-cases (pins_of key s.pinned)) [
  | inl none' ↦ rw (none', apply_pins) (l, f, refl)
  | inr (p, more, e) ↦
      let g = subst PinsFit e (f key) in
      rw (e, apply_pins)
        (
          joined-IsListing now entries (p ∷ more) l g,
          set-AllPinsFit key _ s (live_pins-PinsFit now (keys_of entries) (p ∷ more) g) f,
          refl,
        )
]
