-- ===== src/Session.antt =====
-- imapgw/session.py: the selected view and what the client is told of its changes.
pub mod Selected
pub mod Client
pub mod Filters
pub mod Views
pub mod Quiet
pub mod Follows
pub mod Copies
pub mod Dispatch
pub mod Answers
