-- ===== src/Search/Meaning.antt =====
-- imapgw/search.py: what `evaluate` decides.
use imap_work_trial.Base.{
  ℕ, ◌/◌, ◌≡◌, ◌↔◌, ◌⊎◌, refl, ap, nat_eq, list_eq, ==_iff, ◌≤◌, ◌<◌, Bytes, codes, contains, Bool,
  true, false, not, ◌==◌, &&-true, Bool-cases, Option, none, some, [], ◌∷◌, ◌++◌, arith, inl, inr,
}
use imap_work_trial.Mailbox.Flags.{Item, has_flag, bool_beq_iff, flags_of}
use imap_work_trial.Fetch.Sequences.{select_numbers}
use imap_work_trial.Search.Criteria.{
  Comparison, before, on, since, TextKey, from_key, to_key, subject_key, cc_key, bcc_key, body_key,
  text_key, Crit, Crits, no_crits, also, all_items, none_items, conj, disj, neg, flag, keyword,
  uids, seqs, larger, smaller, arrived, sent, text, header,
}
use imap_work_trial.Search.Evaluate.{
  Email, Fetched, got, ◌>>=◌, SearchContext, join, starts_with, occurs, compare_dates,
  decoded_headers, decoded_body, header_value, header_names, sent_date, sent_meets, text_meets,
  header_meets, and_then, or_else, evaluate, evaluate_all,
}

-- `part` is a part of `s`.
abbrev pub Occurs : Bytes → Bytes → Type 0
Occurs part s = (front : Bytes) × (back : Bytes) × (s ≡ front ++ part ++ back)

starts_with-append : (part back : Bytes) → starts_with part (part ++ back) ≡ true
unfolding starts_with
starts_with-append [] back = refl
starts_with-append (c ∷ part) back = ground (arith, ==_iff c c, starts_with-append part back)

starts_with-back :
    (part s : Bytes) → starts_with part s ≡ true → (back : Bytes) × (s ≡ part ++ back)
unfolding starts_with
starts_with-back [] s h = (s, refl)
starts_with-back (c ∷ part) [] h = absurd (ground arith)
starts_with-back (c ∷ part) (d ∷ s) h =
    let (same, more) = &&-true (c == d) _ h in
    let (back, e) = starts_with-back part s more in (back, ground (arith, e, (==_iff c d).0 same))

occurs-Occurs : (part s : Bytes) → occurs part s ≡ true → Occurs part s
unfolding occurs
occurs-Occurs part [] h = ([], [], ground (arith, ==_iff part []))
occurs-Occurs part (c ∷ s) h = elim (Bool-cases (starts_with part (c ∷ s))) [
  | inl first ↦ let (back, e) = starts_with-back part (c ∷ s) first in ([], back, e)
  | inr later ↦
      let (front, back, e) = occurs-Occurs part s (rw later at h) in (c ∷ front, back, ap (◌∷◌ c) e)
]

occurs_at : (front part back : Bytes) → occurs part (front ++ part ++ back) ≡ true
unfolding occurs starts_with
occurs_at [] [] [] = refl
occurs_at [] [] (d ∷ back) = refl
occurs_at [] (c ∷ part) back = rw (starts_with-append (c ∷ part) back) refl
occurs_at (c ∷ front) part back = ground (arith, occurs_at front part back)

occurs_iff : (part s : Bytes) → (occurs part s ≡ true) ↔ Occurs part s
occurs_iff part s = (occurs-Occurs part s, λ o. rw o.2 (occurs_at o.0 part o.1))

abbrev pub DateMeets : Comparison → ℕ → ℕ → Type 0
DateMeets before when d = when < d
DateMeets on when d = when ≡ d
DateMeets since when d = d ≤ when

compare_dates_iff :
    (cmp : Comparison) (when d : ℕ) → (compare_dates cmp when d ≡ true) ↔ DateMeets cmp when d
compare_dates_iff before when d = ground arith
compare_dates_iff on when d = ==_iff when d
compare_dates_iff since when d = ground arith

abbrev pub SentMeets : Comparison → ℕ → Option ℕ → Type 0
SentMeets cmp d none = ⊥
SentMeets cmp d (some when) = DateMeets cmp when d

sent_meets_iff :
    (cmp : Comparison) (d : ℕ) (o : Option ℕ) → (sent_meets cmp d o ≡ true) ↔ SentMeets cmp d o
sent_meets_iff cmp d none = ground arith
sent_meets_iff cmp d (some when) = compare_dates_iff cmp when d

-- An evaluation that comes to a value, which decides `P`.
abbrev pub Decides : Fetched Bool → Type 0 → Type 0
Decides r P = (b : Bool) × (r ≡ got b) × ((b ≡ true) ↔ P)

Decides-not : (r : Fetched Bool) (P : Type 0) → Decides r P → Decides (r >>= λ b. got (not b)) (¬ P)
Decides-not r P (true, e, d) =
    (false, rw e refl, (λ h. absurd (ground arith), λ n. absurd (n (d.0 refl))))
Decides-not r P (false, e, d) =
    (true, rw e refl, (λ h p. absurd (ground (arith, d.1 p)), λ n. refl))

Decides-and :
    (r q : Fetched Bool) (P Q : Type 0) → Decides r P → Decides q Q → Decides (and_then r q) (P × Q)
unfolding and_then
Decides-and r q P Q (true, e, d) (b, e', d') =
    (b, rw (e, e') refl, (λ h. (d.0 refl, d'.0 h), λ p. d'.1 p.1))
Decides-and r q P Q (false, e, d) (b, e', d') =
    (false, rw e refl, (λ h. absurd (ground arith), λ p. absurd (ground (arith, d.1 p.0))))

Decides-or :
    (r q : Fetched Bool) (P Q : Type 0) → Decides r P → Decides q Q → Decides (or_else r q) (P ⊎ Q)
unfolding or_else
Decides-or r q P Q (true, e, d) (b, e', d') = (true, rw e refl, (λ _. inl (d.0 refl), λ _. refl))
Decides-or r q P Q (false, e, d) (b, e', d') = (
  b,
  rw (e, e') refl,
  (λ h. inr (d'.0 h), λ o. elim o [ inl p ↦ absurd (ground (arith, d.1 p)) | inr p ↦ d'.1 p ]),
)

module _ (email : Email) where
  -- The text that a text key searches, in a message of bytes `raw`.
  abbrev pub searched : TextKey → Item → Bytes → Bytes
  searched from_key item raw = item.from_
  searched to_key item raw = join (codes ", ") item.to
  searched subject_key item raw = item.subject
  searched cc_key item raw = header_value email raw (codes "CC")
  searched bcc_key item raw = header_value email raw (codes "BCC")
  searched body_key item raw = decoded_body email raw
  searched text_key item raw = decoded_headers email raw ++ codes "\n" ++ decoded_body email raw

  -- A part of the field's values, or with no text the field's name among those of the header.
  abbrev pub HeaderMeets : Bytes → Bytes → Bytes → Type 0
  HeaderMeets field [] raw = contains (header_names email raw) (email.lower field) ≡ true
  HeaderMeets field (c ∷ part) raw =
      Occurs (c ∷ part) (email.casefold (header_value email raw field))

  header_meets_iff :
      (field part raw : Bytes)
      → (header_meets email field part raw ≡ true) ↔ HeaderMeets field part raw
  unfolding header_meets
  header_meets_iff field [] raw = (λ h. h, λ h. h)
  header_meets_iff field (c ∷ part) raw = occurs_iff (c ∷ part) _

  module _ (ctx : SearchContext) (seq : ℕ) (item : Item) (raw : Bytes) (size : ℕ) where
    abbrev mutual
      -- An item of these bytes and this size meets a criterion, read as RFC 3501 does.
      pub Meets : Crit → Type 0
      Meets all_items = Unit
      Meets none_items = ⊥
      Meets (conj crits) = MeetsAll crits
      Meets (disj a b) = Meets a ⊎ Meets b
      Meets (neg a) = ¬ (Meets a)
      Meets (flag f wanted) = has_flag f (flags_of item ctx.deleted) ≡ wanted
      Meets (keyword label wanted) = contains item.labels label ≡ wanted
      Meets (uids s) = contains (select_numbers s ctx.uids) item.uid ≡ true
      Meets (seqs s) = contains (select_numbers s ctx.seqs) seq ≡ true
      Meets (larger n) = n < size
      Meets (smaller n) = size < n
      Meets (arrived cmp d) = DateMeets cmp (item.internaldate / 86400) d
      Meets (sent cmp d) = SentMeets cmp d (sent_date email raw)
      Meets (text name part) = Occurs part (email.casefold (searched name item raw))
      Meets (header field part) = HeaderMeets field part raw

      MeetsAll : Crits → Type 0
      MeetsAll no_crits = Unit
      MeetsAll (also crit crits) = Meets crit × MeetsAll crits

Decides-got :
    {A : Type 0} (r : Fetched A) (a : A) (f : A → Bool) (P : Type 0)
    → r ≡ got a
    → (f a ≡ true) ↔ P
    → Decides (r >>= λ x. got (f x)) P
Decides-got r a f P e d = (f a, rw e refl, d)

module _ (email : Email) (ctx : SearchContext) (seq : ℕ) (item : Item) (raw : Bytes) (size : ℕ)
    (fetched : ctx.raw item ≡ got raw) (sized : ctx.size item ≡ got size) where
  text_Decides :
      (name : TextKey) (part : Bytes)
      → Decides
          (text_meets email ctx item name part)
          (Occurs part (email.casefold (searched email name item raw)))
  unfolding text_meets
  text_Decides from_key part = (_, refl, occurs_iff part _)
  text_Decides to_key part = (_, refl, occurs_iff part _)
  text_Decides subject_key part = (_, refl, occurs_iff part _)
  text_Decides cc_key part = Decides-got (ctx.raw item) raw _ _ fetched (occurs_iff part _)
  text_Decides bcc_key part = Decides-got (ctx.raw item) raw _ _ fetched (occurs_iff part _)
  text_Decides body_key part = Decides-got (ctx.raw item) raw _ _ fetched (occurs_iff part _)
  text_Decides text_key part = Decides-got (ctx.raw item) raw _ _ fetched (occurs_iff part _)

  mutual
    unfolding evaluate

    evaluate_Decides :
        (crit : Crit)
        → Decides (evaluate email ctx seq item crit) (Meets email ctx seq item raw size crit)
    evaluate_Decides all_items = (true, refl, ground arith)
    evaluate_Decides none_items = (false, refl, ground arith)
    evaluate_Decides (conj crits) = all_Decides crits
    evaluate_Decides (disj a b) = Decides-or _ _ _ _ (evaluate_Decides a) (evaluate_Decides b)
    evaluate_Decides (neg a) = Decides-not _ _ (evaluate_Decides a)
    evaluate_Decides (flag f wanted) = (_, refl, bool_beq_iff _ wanted)
    evaluate_Decides (keyword label wanted) = (_, refl, bool_beq_iff _ wanted)
    evaluate_Decides (uids s) = (_, refl, (λ h. h, λ h. h))
    evaluate_Decides (seqs s) = (_, refl, (λ h. h, λ h. h))
    evaluate_Decides (larger n) = Decides-got (ctx.size item) size _ _ sized (ground arith)
    evaluate_Decides (smaller n) = Decides-got (ctx.size item) size _ _ sized (ground arith)
    evaluate_Decides (arrived cmp d) = (_, refl, compare_dates_iff cmp _ d)
    evaluate_Decides (sent cmp d) =
        Decides-got (ctx.raw item) raw _ _ fetched (sent_meets_iff cmp d _)
    evaluate_Decides (text name part) = text_Decides name part
    evaluate_Decides (header field part) =
        Decides-got (ctx.raw item) raw _ _ fetched (header_meets_iff email field part raw)

    all_Decides :
        (crits : Crits)
        → Decides
            (evaluate_all email ctx seq item crits)
            (MeetsAll email ctx seq item raw size crits)
    all_Decides no_crits = (true, refl, ground arith)
    all_Decides (also crit crits) = Decides-and _ _ _ _ (evaluate_Decides crit) (all_Decides crits)

  -- If the fetches of an item's bytes and size succeed, `evaluate` comes to a Boolean, and it says
  -- whether the item meets the criterion, as RFC 3501 reads it: a text key asks for a part of the
  -- folded text, AND and OR for all and for one of their parts, NOT for the contrary.
  pub evaluate-Meets :
      (crit : Crit)
      → (b : Bool) × (evaluate email ctx seq item crit ≡ got b)
        × ((b ≡ true) ↔ Meets email ctx seq item raw size crit)
  evaluate-Meets crit = evaluate_Decides crit
