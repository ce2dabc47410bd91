-- ===== src/Syncer/Bisync.antt =====
-- internal/syncer/bisync.go, bisync_ops.go and repair.go: the periodic pass over both sides.
pub mod Defs
pub mod Diff
pub mod Resolve
pub mod Repair
pub mod Order
pub mod Pass
