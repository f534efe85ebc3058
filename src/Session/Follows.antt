-- ===== src/Session/Follows.antt =====
-- imapgw/session.py and imapgw/mailbox.py together: the view of a session across syncs of its
-- mailbox.
use mathlib.Core.List.{foldl}
use imap_work_trial.Base.{
  ℕ, ◌<◌, ◌≡◌, ◌⊎◌, sym, ◌∙◌, true, nat_eq, list_eq, Bytes, contains, All, All-map, IsAscending,
  Option, some, lookup, Option-cases, List, arith, inl, inr,
}
use imap_work_trial.UidStore.Tables.{Box, box_eq}
use imap_work_trial.UidStore.Calls.{UidStore, Env, live_map, ensure_uids}
use imap_work_trial.UidStore.Valid.{next_of, IsValid}
use imap_work_trial.UidStore.Extends.{ensure_uids-Extends}
use imap_work_trial.UidStore.Results.{ensure_uids-Answers}
use imap_work_trial.UidStore.Live.{live_map-lt}
use imap_work_trial.Mailbox.Flags.{MailboxSnapshot, item_uids}
use imap_work_trial.Mailbox.Listing.{Entry, Overrides}
use imap_work_trial.Mailbox.Sync.{Service, Outside, do_sync}
use imap_work_trial.Mailbox.Entries.{IsListing}
use imap_work_trial.Mailbox.Pins.{AllPinsFit}
use imap_work_trial.Mailbox.Snapshots.{ShowsLive, Known, do_sync-Synced}
use imap_work_trial.Session.Selected.{Selected, flush_view}
use imap_work_trial.Session.Client.{Mirrors, follow}
use imap_work_trial.Session.Filters.{All-of}
use imap_work_trial.Session.Views.{Later, flush_view-content, flush_view-Mirrors}

-- UIDs that a view may have: those of the live keys, and maybe others below the next UID; a live key
-- may lack if its UID is above them all.
pub record Follows (us : List ℕ) (key : Box) (store : UidStore) : Type 0 where
  pub known :
      (k : Bytes) (u : ℕ)
      → lookup k (live_map key store) ≡ some u
      → (contains us u ≡ true) ⊎ All (λ w. w < u) us
  pub below : All (λ w. w < next_of key store.mailbox) us

-- The UIDs of the live keys.
ShowsLive-Follows :
    (us : List ℕ) (key : Box) (store : UidStore)
    → IsValid store
    → ShowsLive key store us
    → Follows us key store
ShowsLive-Follows us key store v shows = record {
  known = λ k u l. inl ((shows u).1 (k, l));
  below = All-of _ us (λ u c. let (k, l) = (shows u).0 c in live_map-lt key store v k u l);
}

-- What a snapshot has is in the view, or above it.
Follows-Later :
    (us live : List ℕ) (key : Box) (store : UidStore)
    → Follows us key store
    → ((u : ℕ) → contains live u ≡ true → Known key store u)
    → Later us live
Follows-Later us live key store f from = All-of _ live (λ u c. elim (from u c) [
  | inl old ↦ f.known old.0 u old.1
  | inr new ↦
      inr
        (All-map (λ w. w < next_of key store.mailbox) (λ w. w < u) (λ w h. omega arith) us f.below)
])

-- A UID that is allocated between two syncs, as APPEND and COPY do, disturbs no view of the mailbox.
pub ensure_uids-Follows :
    (env : Env) (us : List ℕ) (key : Box) (pairs : List (Bytes × Bytes)) (store : UidStore)
    → IsValid store
    → env.commits ≡ true
    → Follows us key store
    → Follows us key (ensure_uids env key pairs store).1
ensure_uids-Follows env us key pairs store v c f =
    let (m, e, a) = ensure_uids-Answers env key pairs store v c in
    let grown = (ensure_uids-Extends env key pairs store v).nexts key in
    record {
      known = λ k u l. elim (Option-cases (lookup k (live_map key store))) [
        | inl new ↦ inr (
            All-map (λ w. w < next_of key store.mailbox) (λ w. w < u)
              (λ w h. omega (arith, h, a.fresh k u new (a.stored k ∙ l))) us f.below)
        | inr (w, old) ↦ f.known k u (ground (arith, old, a.keeps k w old, a.stored k, l))
      ];
      below =
          All-map (λ w. w < next_of key store.mailbox) _ (λ w h. omega (arith, grown)) us f.below;
    }

-- What a session's view and its client are after a sync and a flush.
pub record InStep (key : Box) (store : UidStore) (sel : Selected) : Type 0 where
  pub ascending : IsAscending sel.uids
  pub shows : ShowsLive key store sel.uids
  pub follows : Follows sel.uids key store

module _ (out : Outside) (key : Box) (allocates : out.allocating.commits ≡ true)
    (strikes : out.striking.commits ≡ true) (reads : out.reading.commits ≡ true) where
  -- A session whose view follows the store, in ascending order, with a client in step with it: if a
  -- sync collects entries with different keys and its transactions go through, then after it and
  -- `flush_pending` the view has the UIDs of the live keys and no others, in ascending order, it
  -- follows the store again, and the client, who saw the responses, is in step with it.
  pub sync-InStep :
      (collection : Overrides → Option (List Entry) × Overrides) (s : Service)
      (entries : List Entry) (sel : Selected) (marked : List ℕ) (view : List (Option ℕ))
      → (collection s.label_overrides).0 ≡ some entries
      → IsListing entries
      → IsValid s.store
      → AllPinsFit s
      → IsAscending sel.uids
      → Follows sel.uids key s.store
      → Mirrors view sel.uids
      → (snap : MailboxSnapshot) × ((do_sync out key collection s).0 ≡ some snap)
        × InStep key (do_sync out key collection s).1.store (flush_view snap marked sel).1
        × Mirrors
            (foldl follow view (flush_view snap marked sel).0)
            (flush_view snap marked sel).1.uids
  sync-InStep collection s entries sel marked view e l v p order f m =
      let (snap, runs, published, from) =
        do_sync-Synced out key allocates strikes reads collection s entries e l v p in
      let later = Follows-Later sel.uids (item_uids snap.items) key s.store f from in
      let (ascending, same) = flush_view-content snap marked sel published.ascending order later in
      let shows : ShowsLive key _ (flush_view snap marked sel).1.uids = (λ u.
        (λ c. (published.shows u).0 (sym (same u) ∙ c), λ h. same u ∙ (published.shows u).1 h)) in
      (
        snap,
        runs,
        record {
          ascending = ascending;
          shows = shows;
          follows = ShowsLive-Follows _ key _ published.valid shows;
        },
        flush_view-Mirrors snap marked sel view published.ascending order later m,
      )
