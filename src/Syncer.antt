-- ===== src/Syncer.antt =====
-- internal/syncer with the data types it shares with internal/store and internal/rcloneclient.
-- Each operation is a program of calls to the outside (Syncer/Go.antt): the local file system, the
-- journal, the remote, the clock, the audit log and the publisher answer as they like.
pub mod Tests
pub mod Types
pub mod Go
pub mod Safe
pub mod Ends
pub mod Prune
pub mod Conflict
pub mod Pull
pub mod Poll
pub mod Retry
pub mod Push
pub mod Bisync
