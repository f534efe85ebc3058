-- ===== src/UidStore/Marks.antt =====
-- imapgw/uidstore.py, `set_deleted`: the marks that it leaves.
use imap_work_trial.Base.{
  ℕ, ◌≡◌, ◌==◌, nat_eq, list_eq, ==_iff, Bool, true, false, not, ◌&&◌, ◌||◌, contains, List, [],
  ◌∷◌, arith,
}
use imap_work_trial.UidStore.Tables.{Box, box_eq, same_box_iff, Mark, marked, insert_marks}
use imap_work_trial.UidStore.Calls.{UidStore, Env, set_deleted}
use imap_work_trial.UidStore.Allocation.{transaction_commits}
use imap_work_trial.UidStore.Vanish.{marked-delete_marks}

marked-insert_marks :
    (box b : Box) (uids : List ℕ) (u : ℕ) (marks : List Mark)
    → marked b u (insert_marks box uids marks) ≡ (marked b u marks || (b == box && contains uids u))
unfolding insert_marks
marked-insert_marks box b [] u marks = ground arith
marked-insert_marks box b (w ∷ uids) u marks = ground (
  arith,
  same_box_iff b box,
  same_box_iff box b,
  ==_iff w u,
  marked-insert_marks box b uids u marks,
  marked-insert_marks box b uids u (record { box = box; uid = w } ∷ marks),
)

-- The marks after `set_deleted`.
abbrev pub marks_after : Box → List ℕ → Bool → Box → ℕ → Bool → Bool
marks_after box uids true b u before = before || (b == box && contains uids u)
marks_after box uids false b u before = before && not (b == box && contains uids u)

-- A call of `set_deleted` whose transaction goes through sets or clears exactly the marks of the
-- given UIDs of its mailbox, and leaves every other mark.
pub marked-set_deleted :
    (env : Env) (box : Box) (uids : List ℕ) (value : Bool) (s : UidStore) (b : Box) (u : ℕ)
    → env.commits ≡ true
    → marked b u (set_deleted env box uids value s).1.deleted_mark
      ≡ marks_after box uids value b u (marked b u s.deleted_mark)
unfolding set_deleted
marked-set_deleted env box [] true s b u c = ground arith
marked-set_deleted env box [] false s b u c = ground arith
marked-set_deleted env box (w ∷ uids) true s b u c =
    rw (transaction_commits env s _ tt c) (marked-insert_marks box b (w ∷ uids) u s.deleted_mark)
marked-set_deleted env box (w ∷ uids) false s b u c =
    rw (transaction_commits env s _ tt c) (marked-delete_marks box b (w ∷ uids) u s.deleted_mark)
