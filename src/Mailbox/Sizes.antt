-- ===== src/Mailbox/Sizes.antt =====
-- imapgw/mailbox.py: the content that is served has the size that was reported.
use imap_work_trial.Base.{
  ℕ, ◌≤◌, ◌≡◌, ◌∙◌, ◌⊎◌, sym, ap, refl, ◌==◌, ==_iff, list_eq, nat_eq, pair_eq, Bytes, length,
  decimal, read_digits, int-decimal, lookup, false, Bool-cases, Option-cases, none, some, arith,
  inl, inr,
}
use imap_work_trial.ByteCache.Defs.{get}
use imap_work_trial.ByteCache.Size.{IsValid, IsExact, get-IsValid}
use imap_work_trial.ByteCache.Reads.{lookup-put}
use imap_work_trial.ByteCache.Lookups.{
  lookup-get, get-IsExact, get_value, max_bytes-get, put_absent,
}
use imap_work_trial.Mailbox.Flags.{Item}
use imap_work_trial.Mailbox.Catalog.{messages}
use imap_work_trial.Mailbox.Content.{
  Cache, Outcome, answered, raised, Failure, Api, body_key, size_key, accept, contradicts,
  fetch_message, raw_bytes, size_of_message, size_of,
}

accept-length :
    (api : Api) (inbox_id : Bytes) (item : Item) (announced : ℕ) (reply : Outcome Bytes) (c : Cache)
    (content : Bytes)
    → (accept api inbox_id item announced reply c).0 ≡ answered content
    → length content ≡ announced
unfolding accept
accept-length api inbox_id item announced (raised e) c content h = absurd (ground arith)
accept-length api inbox_id item announced (answered reply) c content h =
    ground (arith, ==_iff (length reply) announced)

Outcome-cases :
    {A : Type 0} (r : Outcome A) → ((a : A) × (r ≡ answered a)) ⊎ ((e : Failure) × (r ≡ raised e))
Outcome-cases (answered a) = inl (a, refl)
Outcome-cases (raised e) = inr (e, refl)

agrees :
    (announced : ℕ) (text : Bytes)
    → contradicts announced (some text) ≡ false
    → read_digits 0 text ≡ announced
unfolding contradicts
agrees announced text h = ground (arith, ==_iff (read_digits 0 text) announced)

-- What is fetched has the size that is remembered.
fetch_message-length :
    (api : Api) (inbox_id : Bytes) (item : Item) (c : Cache) (text content : Bytes)
    → lookup (size_key api inbox_id item) c.items ≡ some text
    → (fetch_message api inbox_id item c).0 ≡ answered content
    → length content ≡ read_digits 0 text
unfolding fetch_message
fetch_message-length api inbox_id item c text content known h =
    elim (Outcome-cases (api.get_raw_meta item.remote_id)) [
      | inr (e, failed) ↦ absurd (ground (arith, rw (failed, fetch_message) at h))
      | inl (meta, told) ↦
          let remembered : (get c (size_key api inbox_id item)).1 ≡ some text =
            get_value c (size_key api inbox_id item) ∙ known in
          let h' = rw (told, fetch_message) at h in
          elim (Bool-cases (contradicts meta.size (get c (size_key api inbox_id item)).1)) [
            | inl against ↦ absurd (ground (arith, rw (against) at h'))
            | inr same ↦
                accept-length api inbox_id item meta.size _ _ content (rw (same) at h')
                ∙ sym (agrees meta.size text (ap (contradicts meta.size) (sym remembered) ∙ same))
          ]
    ]

raw_bytes-length :
    (api : Api) (inbox_id : Bytes) (item : Item) (c : Cache) (text content : Bytes)
    → lookup (body_key api inbox_id item) c.items ≡ none
    → lookup (size_key api inbox_id item) c.items ≡ some text
    → (raw_bytes api inbox_id item messages c).0 ≡ answered content
    → length content ≡ read_digits 0 text
unfolding raw_bytes
raw_bytes-length api inbox_id item c text content absent known h =
    let miss = get_value c (body_key api inbox_id item) ∙ absent in
    fetch_message-length api inbox_id item (get c (body_key api inbox_id item)).0 text content
      (lookup-get c (body_key api inbox_id item) (size_key api inbox_id item) ∙ known)
      (rw (miss, raw_bytes) at h)

-- What `size_of` of a message leaves: its bytes are cached and have the size, or they are not and the
-- size is remembered.
abbrev Settled : Api → Bytes → Item → ℕ → Cache → Type 0
Settled api inbox_id item n c =
    ((content : Bytes) × (lookup (body_key api inbox_id item) c.items ≡ some content)
      × (length content ≡ n))
    ⊎ ((lookup (body_key api inbox_id item) c.items ≡ none)
        × (text : Bytes) × (lookup (size_key api inbox_id item) c.items ≡ some text)
        × (read_digits 0 text ≡ n))

keys_differ :
    (api : Api) (inbox_id : Bytes) (item : Item)
    → (size_key api inbox_id item == body_key api inbox_id item) ≡ false
keys_differ api inbox_id item = ground arith

size_of_message-Settled :
    (api : Api) (inbox_id : Bytes) (item : Item) (c : Cache) (n : ℕ)
    → IsValid c
    → IsExact c
    → length (decimal n) ≤ c.max_bytes
    → lookup (body_key api inbox_id item) c.items ≡ none
    → (size_of_message api inbox_id item c).0 ≡ answered n
    → Settled api inbox_id item n (size_of_message api inbox_id item c).1
unfolding size_of_message
size_of_message-Settled api inbox_id item c n v x fits absent h =
    let k = size_key api inbox_id item in
    let q = body_key api inbox_id item in
    let absent' : lookup q (get c k).0.items ≡ none = lookup-get c k q ∙ absent in
    elim (Option-cases (get c k).1) [
      | inr (text, known) ↦
          rw (known, size_of_message)
            (inr (
              absent',
              text,
              lookup-get c k k ∙ (sym (get_value c k) ∙ known),
              ground (arith, rw (known, size_of_message) at h),
            ))
      | inl unknown ↦
          let h' = rw (unknown, size_of_message) at h in
          elim (Outcome-cases (api.get_raw_meta item.remote_id)) [
            | inr (e, failed) ↦ absurd (ground (arith, rw (failed) at h'))
            | inl (meta, told) ↦
                let same : meta.size ≡ n = ground (arith, rw (told) at h') in
                let room : length (decimal meta.size) ≤ (get c k).0.max_bytes =
                  rw (same, max_bytes-get) fits in
                rw (unknown, size_of_message)
                  (rw (told) (
                    inr (
                      put_absent (get c k).0 k q (decimal meta.size) (get-IsValid c k v)
                          (keys_differ api inbox_id item) absent',
                      decimal meta.size,
                      lookup-put (get c k).0 k (decimal meta.size) (get-IsValid c k v)
                          (get-IsExact c k v x) room,
                      int-decimal meta.size ∙ same,
                    )))
          ]
    ]

size_of-Settled :
    (api : Api) (inbox_id : Bytes) (item : Item) (c : Cache) (n : ℕ)
    → IsValid c
    → IsExact c
    → length (decimal n) ≤ c.max_bytes
    → (size_of api inbox_id item messages c).0 ≡ answered n
    → Settled api inbox_id item n (size_of api inbox_id item messages c).1
unfolding size_of
size_of-Settled api inbox_id item c n v x fits h =
    let q = body_key api inbox_id item in
    elim (Option-cases (get c q).1) [
      | inr (content, hit) ↦
          rw (hit, size_of)
            (inl (
              content,
              lookup-get c q q ∙ (sym (get_value c q) ∙ hit),
              ground (arith, rw (hit, size_of) at h),
            ))
      | inl miss ↦
          rw (miss, size_of)
            (size_of_message-Settled api inbox_id item (get c q).0 n (get-IsValid c q v)
              (get-IsExact c q v x) (rw max_bytes-get fits)
              (lookup-get c q q ∙ (sym (get_value c q) ∙ miss)) (rw (miss, size_of) at h))
    ]

Settled-length :
    (api later : Api) (inbox_id : Bytes) (item : Item) (c : Cache) (n : ℕ) (content : Bytes)
    → Settled api inbox_id item n c
    → (raw_bytes later inbox_id item messages c).0 ≡ answered content
    → length content ≡ n
Settled-length api later inbox_id item c n content (inr (absent, text, known, size)) h =
    raw_bytes-length later inbox_id item c text content absent known h ∙ size
Settled-length api later inbox_id item c n content (inl (kept, known, size)) h =
    unfold raw_bytes in
    let hit = get_value c (body_key later inbox_id item) ∙ known in
    let same : content ≡ kept = ground (arith, rw (hit, raw_bytes) at h) in ap length same ∙ size

-- If `size_of` has reported a size of a message, on a cache whose size is exact and whose budget
-- holds the size's digits, and `raw_bytes` then serves content, the content has that size, whatever
-- the upstream service announces and serves by then.
pub raw_bytes-size_of :
    (api later : Api) (inbox_id : Bytes) (item : Item) (c : Cache) (n : ℕ) (content : Bytes)
    → IsValid c
    → IsExact c
    → length (decimal n) ≤ c.max_bytes
    → (size_of api inbox_id item messages c).0 ≡ answered n
    → (raw_bytes later inbox_id item messages (size_of api inbox_id item messages c).1).0
      ≡ answered content
    → length content ≡ n
raw_bytes-size_of api later inbox_id item c n content v x fits reported served =
    Settled-length api later inbox_id item _ n content
      (size_of-Settled api inbox_id item c n v x fits reported) served
