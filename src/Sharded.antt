-- ===== src/Sharded.antt =====
-- sharded.go: `ShardedHandler`, which sends each key to one of several handlers by its FNV-1a hash.
mod Defs
pub mod Batch
pub mod Routing
mod Tests
unfoldable pub use Defs.*
