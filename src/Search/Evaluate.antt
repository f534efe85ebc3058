-- ===== src/Search/Evaluate.antt =====
-- imapgw/search.py: `evaluate`, and the helpers that read a message.
use imap_work_trial.Base.{
  ℕ, ◌/◌, ◌==◌, nat_eq, list_eq, leb, ltb, Bytes, codes, map, contains, Bool, true, false, not,
  ◌&&◌, ◌||◌, if◌then◌else◌, Option, none, some, List, [], ◌∷◌, ◌++◌,
}
use imap_work_trial.Mailbox.Flags.{Item, has_flag, bool_beq, flags_of}
use imap_work_trial.Fetch.Sequences.{select_numbers}
use imap_work_trial.Fetch.Sections.{split_message}
use imap_work_trial.Search.Criteria.{
  Comparison, before, on, since, TextKey, from_key, to_key, subject_key, cc_key, bcc_key, body_key,
  text_key, Crit, Crits, no_crits, also, all_items, none_items, conj, disj, neg, flag, keyword,
  uids, seqs, larger, smaller, arrived, sent, text, header,
}

-- The `email` package and `str`: the fields of a parsed header, in order, with their decoded values,
-- the texts of the text parts of a message, the date of a Date field, if it is one, and the foldings
-- of a text.
pub record Email : Type 0 where
  pub fields : Bytes → List (Bytes × Bytes)
  pub texts : Bytes → List Bytes
  pub date : Bytes → Option ℕ
  pub casefold : Bytes → Bytes
  pub lower : Bytes → Bytes

-- What awaiting a fetch comes to: a value, NotFoundError or another error.
pub data Fetched (A : Type 0) : Type 0 where
  got : A → Fetched A
  not_found broken : Fetched A

infixl 1 ◌>>=◌
abbrev pub ◌>>=◌ : {A B : Type 0} → Fetched A → (A → Fetched B) → Fetched B
got a >>= f = f a
not_found >>= f = not_found
broken >>= f = broken

pub record SearchContext : Type 0 where
  pub seqs : List ℕ
  pub uids : List ℕ
  pub deleted : List ℕ
  pub raw : Item → Fetched Bytes
  pub size : Item → Fetched ℕ

-- `sep.join(texts)`
unfoldable pub join : Bytes → List Bytes → Bytes
join sep [] = []
join sep (s ∷ []) = s
join sep (s ∷ next ∷ texts) = s ++ sep ++ join sep (next ∷ texts)

unfoldable pub starts_with : Bytes → Bytes → Bool
starts_with [] s = true
starts_with (c ∷ part) [] = false
starts_with (c ∷ part) (d ∷ s) = c == d && starts_with part s

-- `part in s`
unfoldable pub occurs : Bytes → Bytes → Bool
unfolding starts_with
occurs part [] = part == []
occurs part (c ∷ s) = starts_with part (c ∷ s) || occurs part s

abbrev pub compare_dates : Comparison → ℕ → ℕ → Bool
compare_dates before when d = ltb when d
compare_dates on when d = when == d
compare_dates since when d = leb d when

-- `_sent_date` may find no date.
abbrev pub sent_meets : Comparison → ℕ → Option ℕ → Bool
sent_meets cmp d none = false
sent_meets cmp d (some when) = compare_dates cmp when d

-- `and` and `or` on what was evaluated first; `others` is not evaluated unless it is needed.
unfoldable pub and_then : Fetched Bool → Fetched Bool → Fetched Bool
and_then first others = first >>= λ b. if b then others else got false

unfoldable pub or_else : Fetched Bool → Fetched Bool → Fetched Bool
or_else first others = first >>= λ b. if b then got true else others

module _ (email : Email) where
  unfoldable pub header_fields : Bytes → List (Bytes × Bytes)
  unfolding split_message
  header_fields raw = email.fields (split_message raw).0

  -- `_decoded_headers`
  unfoldable pub decoded_headers : Bytes → Bytes
  unfolding header_fields join
  decoded_headers raw =
      join (codes "\n") (map (λ (f : Bytes × Bytes). f.0 ++ codes ": " ++ f.1) (header_fields raw))

  -- `_decoded_body`
  unfoldable pub decoded_body : Bytes → Bytes
  unfolding join
  decoded_body raw = join (codes "\n") (email.texts raw)

  -- `msg.get_all(field, [])`
  unfoldable pub get_all : Bytes → List (Bytes × Bytes) → List Bytes
  get_all field [] = []
  get_all field (f ∷ fields) =
      let rest = get_all field fields in
      if email.lower f.0 == email.lower field then f.1 ∷ rest else rest

  -- `_header_value`
  unfoldable pub header_value : Bytes → Bytes → Bytes
  unfolding header_fields get_all join
  header_value raw field = join (codes ", ") (get_all field (header_fields raw))

  -- `_header_names`
  unfoldable pub header_names : Bytes → List Bytes
  unfolding header_fields
  header_names raw = map (λ (f : Bytes × Bytes). email.lower f.0) (header_fields raw)

  -- `_sent_date`
  unfoldable pub sent_date : Bytes → Option ℕ
  unfolding header_value
  sent_date raw =
      let value = header_value raw (codes "Date") in if value == [] then none else email.date value

  -- The text keys.
  unfoldable pub text_meets : SearchContext → Item → TextKey → Bytes → Fetched Bool
  unfolding join occurs decoded_headers decoded_body header_value
  text_meets ctx item from_key part = got (occurs part (email.casefold item.from_))
  text_meets ctx item to_key part = got (occurs part (email.casefold (join (codes ", ") item.to)))
  text_meets ctx item subject_key part = got (occurs part (email.casefold item.subject))
  text_meets ctx item text_key part = ctx.raw item >>= λ raw.
      got (occurs part (email.casefold (decoded_headers raw ++ codes "\n" ++ decoded_body raw)))
  text_meets ctx item body_key part =
      ctx.raw item >>= λ raw. got (occurs part (email.casefold (decoded_body raw)))
  text_meets ctx item cc_key part =
      ctx.raw item >>= λ raw. got (occurs part (email.casefold (header_value raw (codes "CC"))))
  text_meets ctx item bcc_key part =
      ctx.raw item >>= λ raw. got (occurs part (email.casefold (header_value raw (codes "BCC"))))

  -- The key HEADER: an empty text asks for the field.
  unfoldable pub header_meets : Bytes → Bytes → Bytes → Bool
  unfolding header_value header_names occurs
  header_meets field part raw =
      if part == []
      then contains (header_names raw) (email.lower field)
      else occurs part (email.casefold (header_value raw field))

  module _ (ctx : SearchContext) (seq : ℕ) (item : Item) where
    unfoldable mutual
      unfolding has_flag flags_of select_numbers sent_date text_meets header_meets or_else and_then

      pub evaluate : Crit → Fetched Bool
      evaluate all_items = got true
      evaluate none_items = got false
      evaluate (conj crits) = evaluate_all crits
      evaluate (disj a b) = or_else (evaluate a) (evaluate b)
      evaluate (neg a) = evaluate a >>= λ b. got (not b)
      evaluate (flag f wanted) = got (bool_beq (has_flag f (flags_of item ctx.deleted)) wanted)
      evaluate (keyword label wanted) = got (bool_beq (contains item.labels label) wanted)
      evaluate (uids s) = got (contains (select_numbers s ctx.uids) item.uid)
      evaluate (seqs s) = got (contains (select_numbers s ctx.seqs) seq)
      evaluate (larger n) = ctx.size item >>= λ size. got (ltb n size)
      evaluate (smaller n) = ctx.size item >>= λ size. got (ltb size n)
      evaluate (arrived cmp d) = got (compare_dates cmp (item.internaldate / 86400) d)
      evaluate (sent cmp d) = ctx.raw item >>= λ raw. got (sent_meets cmp d (sent_date raw))
      evaluate (text name part) = text_meets ctx item name part
      evaluate (header field part) = ctx.raw item >>= λ raw. got (header_meets field part raw)

      -- The loop of AND.
      pub evaluate_all : Crits → Fetched Bool
      evaluate_all no_crits = got true
      evaluate_all (also crit crits) = and_then (evaluate crit) (evaluate_all crits)
