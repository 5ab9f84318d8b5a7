-- ===== src/Scim/Filters.antt =====
-- The filter language of src/webbpulse/identity/scim/filters.py, from tokens to trees.
pub mod Paths
pub mod PathText
pub mod Parser
pub mod Total
pub mod Grammar
pub mod Print
pub mod RoundTrip
pub mod Reads
