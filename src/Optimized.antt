-- ===== src/Optimized.antt =====
-- lru_optimized.go: `LRUOptimizedHandler`, shards of a CLOCK cache behind read-write locks.
--
-- A shard's method is one function for each of its critical sections. An int64 is its bit pattern,
-- a number below 2 ^ 64; `fastNow()` is an argument.
mod Defs
mod Handler
pub mod Evict
pub mod Shards
pub mod Layout
mod Tests
unfoldable pub use Defs.*
unfoldable pub use Handler.*
