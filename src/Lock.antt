-- ===== src/Lock.antt =====
-- distributed_lock.go: a lock that is a key of Redis with a time to live.
mod Defs
pub mod Manager
pub mod Exclusion
pub mod History
pub mod Ownership
mod Tests
unfoldable pub use Defs.*
