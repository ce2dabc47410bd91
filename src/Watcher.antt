-- ===== src/Watcher.antt =====
-- internal/watcher: the events of the local file system on their way to the push side.
pub mod Debouncer
pub mod Pairer
pub mod Loop
pub mod Run
mod Tests
