-- ===== src/Policy.antt =====
-- The policy side: versioned snapshots of the rules, the proposals they come from, and the workers
-- that refresh, publish, dispatch and consume them.
pub mod Documents
pub mod Repository
pub mod Validation
pub mod Publish
pub mod Consumer
pub mod Dispatch
pub mod Refresh
