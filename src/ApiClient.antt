-- ===== src/ApiClient.antt =====
-- imapgw/apiclient.py: errors by status, retries within a budget, and paging. The transport is a
-- parameter.
pub mod Requests
pub mod Budget
pub mod Paging
