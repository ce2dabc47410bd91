-- ===== src/Store.antt =====
-- internal/store: the journal of what was last synced, in a bucket of bbolt.
pub mod Bucket
pub mod Rename
pub mod Journal
pub mod Resolver
mod Tests
