-- ===== src/Commands.antt =====
-- imapgw/commands.py: the UID sets of its response codes.
pub mod UidSets
pub mod Reread
pub mod Store
pub mod Relabelled
pub mod Asked
pub mod Stored
pub mod StoreCommand
pub mod Wildcards
pub mod Globs
pub mod Collapse
pub mod Matching
pub mod List
