-- ===== src/Examples/Content.antt =====
-- Runs of the model of `raw_bytes` and `size_of` of imapgw/mailbox.py at concrete inputs.
use imap_work_trial.Base.{
  ℕ, ◌≡◌, ◌≤◌, refl, list_eq, nat_eq, pair_eq, false, codes, length, decimal, put_digits,
  read_digits, lookup, erase, none, [], arith,
}
use imap_work_trial.ByteCache.Defs.{init, get, put, discard, evict, move_to_end}
use imap_work_trial.ByteCache.Size.{IsValid, init-IsValid, IsExact, total}
use imap_work_trial.Mailbox.Flags.{Item, no_flags}
use imap_work_trial.Mailbox.Catalog.{messages}
use imap_work_trial.Mailbox.Content.{
  Cache, answered, raised, not_found, unavailable, Api, accept, contradicts, fetch_message,
  raw_bytes, size_of_message, size_of,
}
use imap_work_trial.Mailbox.Sizes.{raw_bytes-size_of}

abbrev item : Item
item = record {
  uid = 7;
  remote_key = codes "m1";
  remote_id = codes "m1";
  flags = no_flags;
  internaldate = 0;
  size_hint = none;
  labels = [];
  from_ = [];
  to = [];
  subject = [];
}

-- A service that announces a size, and serves five bytes.
abbrev announcing : ℕ → Api
announcing n = record {
  get_raw_meta = λ id. answered (record { size = n; download_url = [] });
  download = λ url. answered (codes "Hello");
  render = λ id. raised not_found;
  content_key = λ id rendered. [];
}

abbrev cache : Cache
cache = init 100

cache-IsValid : IsValid cache
cache-IsValid = init-IsValid 100

cache-IsExact : IsExact cache
unfolding init total
cache-IsExact = refl

digits : length (decimal 5) ≤ cache.max_bytes
unfolding decimal put_digits init
digits = ground arith

reported : (size_of (announcing 5) (codes "a@x") item messages cache).0 ≡ answered 5
unfolding size_of size_of_message get init lookup
reported = refl

served :
    (raw_bytes
      (announcing 5)
      (codes "a@x")
      item
      messages
      (size_of (announcing 5) (codes "a@x") item messages cache).1).0
    ≡ answered (codes "Hello")
unfolding size_of size_of_message raw_bytes fetch_message accept contradicts get put discard evict
    move_to_end erase init lookup decimal put_digits read_digits
served = refl

-- A size that has changed is refused, and is not retried.
refused :
    (raw_bytes
      (announcing 6)
      (codes "a@x")
      item
      messages
      (size_of (announcing 5) (codes "a@x") item messages cache).1).0
    ≡ raised (unavailable false)
unfolding size_of size_of_message raw_bytes fetch_message accept contradicts get put discard evict
    move_to_end erase init lookup decimal put_digits read_digits
refused = refl

raw_bytes-size_of_example : length (codes "Hello") ≡ 5
raw_bytes-size_of_example =
    raw_bytes-size_of (announcing 5) (announcing 5) (codes "a@x") item cache 5 (codes "Hello")
      cache-IsValid cache-IsExact digits reported served
