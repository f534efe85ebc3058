-- ===== src/Mailbox/Content.antt =====
-- imapgw/mailbox.py: `raw_bytes` and `size_of` of a message, with the cache of bytes. For a draft
-- `render` is what `get_draft` and `render_draft` come to, and `content_key` that of imapgw/drafts.py.
use imap_work_trial.Base.{
  ℕ, ◌==◌, list_eq, nat_eq, pair_eq, Bytes, length, decimal, read_digits, Bool, true, false, not,
  if◌then◌else◌, Option, none, some,
}
use imap_work_trial.ByteCache.Defs.{ByteCache, get, put}
use imap_work_trial.Mailbox.Flags.{Item}
use imap_work_trial.Mailbox.Catalog.{Kind, messages, drafts}

-- The kinds of cached objects, by the middle part of `_ckey`.
pub data Cached : Type 0 where
  body size : Cached

abbrev pub code_of : Cached → ℕ
code_of body = 0
code_of size = 1

-- `_ckey`: an inbox, a kind of object and an identifier
abbrev pub CacheKey : Type 0
CacheKey = Bytes × (ℕ × Bytes)

abbrev pub ckey : Bytes → Cached → Bytes → CacheKey
ckey inbox_id kind ident = (inbox_id, (code_of kind, ident))

abbrev pub Cache : Type 0
Cache = ByteCache CacheKey

-- `RawMeta`, the fields that are read, with a size that is not negative
pub record RawMeta : Type 0 where
  pub size : ℕ
  pub download_url : Bytes

-- What a call raises: NotFoundError, an UnavailableError of this module with its `retryable`, or an
-- error of the client.
pub data Failure : Type 0 where
  not_found upstream : Failure
  unavailable : Bool → Failure

pub data Outcome (A : Type 0) : Type 0 where
  answered : A → Outcome A
  raised : Failure → Outcome A

-- What the client and the drafts module come to during a call.
pub record Api : Type 0 where
  pub get_raw_meta : Bytes → Outcome RawMeta
  pub download : Bytes → Outcome Bytes
  pub render : Bytes → Outcome Bytes
  pub content_key : Bytes → Bytes → Bytes

-- The size that was reported to a client before, if it is remembered, binds.
unfoldable pub contradicts : ℕ → Option Bytes → Bool
unfolding read_digits
contradicts announced none = false
contradicts announced (some remembered) = not (read_digits 0 remembered == announced)

module _ (api : Api) (inbox_id : Bytes) (item : Item) where
  abbrev pub body_key : CacheKey
  body_key = ckey inbox_id body item.remote_key

  abbrev pub size_key : CacheKey
  size_key = ckey inbox_id size item.remote_key

  -- A download: only content of the announced length is kept and served.
  unfoldable pub accept : ℕ → Outcome Bytes → Cache → Outcome Bytes × Cache
  unfolding put decimal
  accept announced (raised e) c = (raised e, c)
  accept announced (answered content) c =
      if length content == announced
      then (answered content, put (put c body_key content) size_key (decimal (length content)))
      else (raised (unavailable true), c)

  -- `raw_bytes` of a message that is not cached
  unfoldable pub fetch_message : Cache → Outcome Bytes × Cache
  unfolding get contradicts accept
  fetch_message c = elim (api.get_raw_meta item.remote_id) [
    | raised e ↦ (raised e, c)
    | answered meta ↦
        let (c', remembered) = get c size_key in
        if contradicts meta.size remembered
        then (raised (unavailable false), c')
        else accept meta.size (api.download meta.download_url) c'
  ]

  -- `raw_bytes` of a draft that is not cached
  unfoldable pub fetch_draft : Cache → Outcome Bytes × Cache
  unfolding put
  fetch_draft c = elim (api.render item.remote_id) [
    | raised e ↦ (raised e, c)
    | answered rendered ↦
        if api.content_key item.remote_id rendered == item.remote_key
        then (answered rendered, put c body_key rendered)
        else (raised not_found, c)
  ]

  abbrev pub fetch : Kind → Cache → Outcome Bytes × Cache
  fetch drafts c = fetch_draft c
  fetch messages c = fetch_message c

  unfoldable pub raw_bytes : Kind → Cache → Outcome Bytes × Cache
  unfolding get fetch_draft fetch_message
  raw_bytes kind c =
      let (c', cached) = get c body_key in
      elim cached [ some content ↦ (answered content, c') | none ↦ fetch kind c' ]

  -- `size_of` of a message whose bytes are not cached
  unfoldable pub size_of_message : Cache → Outcome ℕ × Cache
  unfolding get put decimal read_digits
  size_of_message c =
      let (c', remembered) = get c size_key in
      elim remembered [
        | some text ↦ (answered (read_digits 0 text), c')
        | none ↦ elim (api.get_raw_meta item.remote_id) [
          | raised e ↦ (raised e, c')
          | answered meta ↦ (answered meta.size, put c' size_key (decimal meta.size))
        ]
      ]

  -- `len` of what `raw_bytes` comes to
  abbrev pub length_of : Outcome Bytes × Cache → Outcome ℕ × Cache
  length_of (answered content, c) = (answered (length content), c)
  length_of (raised e, c) = (raised e, c)

  unfoldable pub size_of : Kind → Cache → Outcome ℕ × Cache
  unfolding get raw_bytes size_of_message
  size_of kind c =
      let (c', cached) = get c body_key in
      elim cached [
        | some content ↦ (answered (length content), c')
        | none ↦ elim kind [
          | drafts ↦ length_of (raw_bytes drafts c')
          | messages ↦ size_of_message c'
        ]
      ]
