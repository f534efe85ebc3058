-- ===== src/Mailbox.antt =====
-- imapgw/mailbox.py
pub mod Flags
pub mod Catalog
pub mod Listing
pub mod Sync
pub mod Entries
pub mod Numbering
pub mod Pins
pub mod Snapshots
pub mod Changes
pub mod Content
pub mod Sizes
pub mod Trash
