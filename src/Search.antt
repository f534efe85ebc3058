-- ===== src/Search.antt =====
-- imapgw/search.py
pub mod Criteria
pub mod Keys
pub mod Parse
pub mod Evaluate
pub mod Fuel
pub mod Meaning
pub mod Handler
pub mod Hits
