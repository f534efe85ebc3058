-- ===== src/UidStore.antt =====
-- imapgw/uidstore.py: UIDs allocated in a database of four tables, with marks for deletion.
pub mod Tables
pub mod Calls
pub mod Valid
pub mod Mailboxes
pub mod Allocation
pub mod Tombstones
pub mod Extends
pub mod History
pub mod Results
pub mod Vanish
pub mod Marks
pub mod Live
