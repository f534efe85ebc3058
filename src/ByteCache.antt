-- ===== src/ByteCache.antt =====
-- imapgw/bytecache.py: the least recently used cache with a byte budget. The `OrderedDict` is an
-- association list, oldest entry first. Keys are any type with an equality; the program's are
-- texts. `_size` is a natural number: `discard` and the eviction of `put` subtract lengths of
-- entries that the size counts.
pub mod Defs
pub mod Size
pub mod Reads
pub mod Lookups
