-- ===== src/Fetch.antt =====
-- imapgw/fetch.py: sequence sets.
pub mod Sequences
pub mod Select
pub mod Sections
pub mod Slices
