-- ===== src/Commands/List.antt =====
-- imapgw/commands.py: LIST and LSUB, in a state that allows them. `decode` is UTF-8 decoding.
use imap_work_trial.Base.{
  ℕ, ◌==◌, list_eq, nat_eq, ltb, Bytes, codes, length, true, false, map, if◌then◌else◌, Option,
  none, some, List, [], ◌∷◌, ◌++◌,
}
use imap_work_trial.Parser.Tokens.{Token, Tokens, nil, cons, astring_bytes, ok, err}
use imap_work_trial.Responses.Encode.{list_response}
use imap_work_trial.Session.Dispatch.{bad}
use imap_work_trial.Commands.StoreCommand.{Attempt, done, refused, ◌>>=◌}
use imap_work_trial.Commands.Wildcards.{wildcard_match}

abbrev pub max_list_pattern : ℕ
max_list_pattern = 512

module _ (decode : Bytes → Option Bytes) where
  -- `_arg_text`, on a token
  unfoldable pub arg_text : Token → Attempt Bytes
  unfolding astring_bytes
  arg_text tok = elim (astring_bytes tok) [
    | err e ↦ refused bad none
    | ok value ↦ elim (decode value) [ none ↦ refused bad none | some text ↦ done text ]
  ]

  -- The two arguments: a reference and a pattern.
  unfoldable pub read_pattern : Tokens → Attempt (Bytes × Bytes)
  unfolding arg_text
  read_pattern (cons reference (cons pattern nil)) =
      arg_text reference >>= λ r. arg_text pattern >>= λ p. done (r, p)
  read_pattern _ = refused bad none

  -- The mailboxes of the given names that the pattern matches; INBOX in any case.
  unfoldable pub matching : Bytes → List Bytes → List Bytes
  unfolding wildcard_match
  matching full [] = []
  matching full (name ∷ names) =
      let rest = matching full names in
      elim (wildcard_match (name == codes "INBOX") full name) [
        | some true ↦ name ∷ rest
        | some false ↦ rest
        | none ↦ rest
      ]

  -- The responses of LIST before its tagged OK.
  unfoldable pub list_ : List Bytes → Tokens → Attempt (List Bytes)
  unfolding read_pattern matching list_response
  list_ names args = read_pattern args >>= λ (reference, pattern).
      if pattern == []
      then done (list_response (codes "\\Noselect" ∷ []) none [] ∷ [])
      else if ltb max_list_pattern (length (reference ++ pattern))
      then refused bad none
      else done (
          map (list_response (codes "\\HasNoChildren" ∷ []) none)
            (matching (reference ++ pattern) names))

  -- The mailboxes that LSUB names: every one counts as subscribed, but an empty pattern names none.
  unfoldable pub lsub : List Bytes → Tokens → Attempt (List Bytes)
  unfolding read_pattern matching
  lsub names args = read_pattern args >>= λ (reference, pattern).
      if ltb max_list_pattern (length (reference ++ pattern))
      then refused bad none
      else if pattern == []
      then done []
      else done (matching (reference ++ pattern) names)
