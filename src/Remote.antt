-- ===== src/Remote.antt =====
-- internal/rcloneclient: the remote side as the puller sees it.
pub mod Changes
pub mod Walk
pub mod Fs
pub mod MemFs
pub mod Doubles
pub mod RootId
pub mod Rclone
mod Tests
