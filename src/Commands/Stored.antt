-- ===== src/Commands/Stored.antt =====
-- imapgw/commands.py: the flags of a message behind STORE.
use imap_work_trial.Base.{
  ℕ, ◌≡◌, refl, sym, ap, ◌∙◌, list_eq, nat_eq, Bytes, codes, contains, All, Bool, true, false, not,
  ◌&&◌, ◌||◌, Bool-cases, Option-cases, some, List, [], ◌∷◌, arith, inl, inr,
}
use imap_work_trial.UidStore.Tables.{Box, box_eq}
use imap_work_trial.UidStore.Calls.{UidStore, set_deleted}
use imap_work_trial.UidStore.Allocation.{transaction_commits}
use imap_work_trial.UidStore.Marks.{marked-set_deleted}
use imap_work_trial.Mailbox.Flags.{
  Flag, seen_flag, answered_flag, flagged_flag, deleted_flag, draft_flag, has_flag, bool_beq,
  bool_beq_iff, Item, message_flags,
}
use imap_work_trial.Mailbox.Catalog.{MailboxDef, messages}
use imap_work_trial.Mailbox.Sync.{Service}
use imap_work_trial.Mailbox.Changes.{labels_after, oriented, flag_labels, change_labels, set_flag}
use imap_work_trial.Commands.Store.{
  Mode, has, same_flag, Progress, Surroundings, mark, store_deleted, store_label, store_flag,
  store_flags, store_one,
}
use imap_work_trial.Commands.Relabelled.{
  Obeys, IsMessage, contains-labels_after, Changes, seen-Changes, flagged-Changes,
}
use imap_work_trial.Commands.Asked.{
  shown, has_flag-shown, Agrees, Sets, contains-mark, deleted_flag-same, deleted_lem,
  marks_after_self, marks_after_other, asked, asked-wants, Sets-same, replace_item_store,
  IsStorable, Apart, same-ap,
}

module _ (out : Surroundings) (mdef : MailboxDef) (key : Box) (kind : mdef.kind ≡ messages)
    (commits : out.env.commits ≡ true) (obeys : Obeys out.update) where
  set_deleted_runs :
      (uid : ℕ) (value : Bool) (s : UidStore)
      → (set_deleted out.env key (uid ∷ []) value s).0 ≡ some tt
  unfolding set_deleted
  set_deleted_runs uid value s = rw (transaction_commits out.env s _ tt commits) refl

  store_deleted-Sets :
      (value : Bool) (p : Progress)
      → IsMessage p.item
      → Sets key (same_flag deleted_flag) (λ g. value) p (store_deleted out mdef key value p)
  unfolding store_deleted
  store_deleted-Sets value p m =
      let after_call = λ (b : Box) (u : ℕ).
        marked-set_deleted out.env key (p.item.uid ∷ []) value p.service.store b u commits in
      rw (set_deleted_runs p.item.uid value p.service.store, store_deleted)
        (record {
          after = record p {
            deleted = mark p.item.uid value p.deleted;
            service = record p.service {
              store = (set_deleted out.env key (p.item.uid ∷ []) value p.service.store).1;
            };
          };
          runs = refl;
          message = m;
          same = refl;
          kept = refl;
          agrees =
              contains-mark p.item.uid value p.deleted
              ∙ sym (after_call key p.item.uid ∙ marks_after_self key p.item.uid value _);
          others = λ b u h. after_call b u ∙ marks_after_other key p.item.uid value b u _ h;
          flags = λ g. deleted_lem p.item value p.deleted g m;
        })

  -- What `set_flag` makes of an item.
  abbrev relabelled : Item → List Bytes → List Bytes × List Bytes → Item
  relabelled item answer (add, remove) =
      let labels = labels_after answer item.labels add remove in
      record item { flags = message_flags labels; labels = labels }

  set_flag_runs :
      (item : Item) (flag : Flag) (value : Bool) (s : Service) (answer add remove : List Bytes)
      (ls : List Bytes × List Bytes)
      → flag_labels flag ≡ some ls
      → oriented value ls ≡ (add, remove)
      → out.update item add remove ≡ some answer
      → (set_flag out.now out.update mdef key item flag value s).0
        ≡ some (relabelled item answer (add, remove))
  unfolding set_flag change_labels
  set_flag_runs item flag value s answer add remove ls f o u =
      rw (kind, set_flag) (rw (f) (rw (o) (rw (u, change_labels) refl)))

  set_flag_store :
      (item : Item) (flag : Flag) (value : Bool) (s : Service)
      → (set_flag out.now out.update mdef key item flag value s).1.store ≡ s.store
  unfolding set_flag change_labels
  set_flag_store item flag value s = elim (Option-cases (flag_labels flag)) [
    | inl plain ↦ rw (kind, set_flag) (rw (plain) refl)
    | inr (ls, labelled) ↦
        let (add, remove) = oriented value ls in
        let (answer, told, _) = obeys item add remove in
        rw (kind, set_flag) (rw (labelled) (rw (told, change_labels) (replace_item_store key _ _)))
  ]

  store_label-Sets :
      (flag : Flag) (value : Bool) (ls : List Bytes × List Bytes) (p : Progress)
      → flag_labels flag ≡ some ls
      → same_flag flag deleted_flag ≡ false
      → ((old new : List Bytes)
          → ((l : Bytes)
              → contains new l ≡ (
                  (contains old l || contains (oriented value ls).0 l)
                  && not (contains (oriented value ls).1 l)))
          → Changes flag value (message_flags old) (message_flags new))
      → IsMessage p.item
      → Agrees key p
      → Sets key (same_flag flag) (λ g. value) p (store_label out mdef key flag value p)
  unfolding store_label
  store_label-Sets flag value ls p f other change m ag =
      let (add, remove) = oriented value ls in
      let (answer, u, o) = obeys p.item add remove in
      let runs = set_flag_runs p.item flag value p.service answer add remove ls f refl u in
      let store = set_flag_store p.item flag value p.service in
      let item = relabelled p.item answer (add, remove) in
      let changes =
        change p.item.labels item.labels
          (contains-labels_after answer p.item.labels add remove o) in
      rw (runs, store_label)
        (record {
          after = record p {
            item = item;
            service = (set_flag out.now out.update mdef key p.item flag value p.service).1;
          };
          runs = refl;
          message = refl;
          same = refl;
          kept = refl;
          agrees = rw store (ag);
          others = λ b u h. rw store refl;
          flags = λ g. ground (
            arith,
            has_flag-shown item p.deleted g,
            has_flag-shown p.item p.deleted g,
            changes g,
            deleted_flag-same g,
            other,
            ap (has_flag g) m,
          );
        })

  store_flag-Sets :
      (flag : Flag) (value : Bool) (p : Progress)
      → IsStorable flag
      → IsMessage p.item
      → Agrees key p
      → Sets key (same_flag flag) (λ g. value) p (store_flag out mdef key flag value p)
  unfolding store_flag flag_labels
  store_flag-Sets deleted_flag value p h m ag = store_deleted-Sets value p m
  store_flag-Sets seen_flag value p h m ag =
      store_label-Sets seen_flag value (codes "read" ∷ [], codes "unread" ∷ []) p refl refl
        (seen-Changes value) m ag
  store_flag-Sets flagged_flag value p h m ag =
      store_label-Sets flagged_flag value (codes "starred" ∷ [], []) p refl refl
        (flagged-Changes value) m ag
  store_flag-Sets answered_flag value p h m ag = absurd h
  store_flag-Sets draft_flag value p h m ag = absurd h

  -- The loop sets the flags of its list, if `before` says what these are.
  store_flags-Sets :
      (before after : Flag → Bool) (flags : List Flag) (p : Progress)
      → All IsStorable flags
      → Apart flags
      → ((g : Flag) → has flags g ≡ true → has_flag g (shown p) ≡ before g)
      → IsMessage p.item
      → Agrees key p
      → Sets key (has flags) after p (store_flags out mdef key before after flags p)
  unfolding store_flags
  store_flags-Sets before after [] p h d b m ag = record {
    after = p;
    runs = refl;
    message = m;
    same = refl;
    kept = refl;
    agrees = ag;
    others = λ b u e. refl;
    flags = λ g. refl;
  }
  store_flags-Sets before after (flag ∷ flags) p h d b m ag =
      elim (Bool-cases (bool_beq (before flag) (after flag))) [
        | inl equal ↦
            let rest =
              store_flags-Sets before after flags p h.1 d.1 (λ g e. b g (ground (arith, e))) m ag in
            rw (equal, store_flags)
              (record {
                after = rest.after;
                runs = rest.runs;
                message = rest.message;
                same = rest.same;
                kept = rest.kept;
                agrees = rest.agrees;
                others = rest.others;
                flags = λ g. ground (
                  arith,
                  rest.flags g,
                  b g,
                  same-ap before flag g h.0,
                  same-ap after flag g h.0,
                  bool_beq_iff (before flag) (after flag),
                );
              })
        | inr differ ↦
            let first = store_flag-Sets flag (after flag) p h.0 m ag in
            let rest =
              store_flags-Sets before after flags first.after h.1 d.1
                (λ g e. ground (arith, e, d.0, first.flags g, b g, same-ap (has flags) flag g h.0))
                first.message first.agrees in
            rw (differ, store_flags)
              (rw (first.runs) (record {
                after = rest.after;
                runs = rest.runs;
                message = rest.message;
                same = rest.same ∙ first.same;
                kept = rest.kept;
                agrees = rest.agrees;
                others = λ c u e. rest.others c u (rw first.same e) ∙ first.others c u e;
                flags = λ g. ground (arith, rest.flags g, first.flags g, same-ap after flag g h.0);
              }))
      ]

  -- STORE on one message, whose flags are those of its labels and whose mark was read from the
  -- store, in a mailbox of messages whose permanent flags are among \Seen, \Flagged and \Deleted:
  -- if the store's transaction goes through and upstream makes the changes that it is asked for,
  -- every permanent flag then is listed or not, for FLAGS, listed or set before, for +FLAGS, and set
  -- before and not listed, for -FLAGS; every other flag is as it was; the mark in the store is the
  -- flag \Deleted, and no other mark of the store changes.
  pub store_one-Sets :
      (mode : Mode) (flags : List Flag) (p : Progress)
      → All IsStorable mdef.permanent_flags
      → Apart mdef.permanent_flags
      → IsMessage p.item
      → Agrees key p
      → Sets key
          (has mdef.permanent_flags)
          (λ g. asked mode (has flags g) (has_flag g (shown p)))
          p
          (store_one out mdef key mode flags p)
  unfolding store_one
  store_one-Sets mode flags p h d m ag =
      Sets-same key _ _ _ p _ (asked-wants mode mdef.permanent_flags flags (shown p))
        (store_flags-Sets _ _ mdef.permanent_flags p h d (λ g e. refl) m ag)
