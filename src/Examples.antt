-- ===== src/Examples.antt =====
-- Runs of the models at concrete inputs.
mod Store
mod Input
mod Views
mod Bytes
mod Replies
mod Uids
mod Requests
mod Searches
mod Syncs
mod Stores
mod Wildcards
mod Content
mod Copies
