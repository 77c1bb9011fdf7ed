-- ===== src/Lru.antt =====
-- lru.go: `LRUHandler`, a bounded cache with per-entry expiry under one mutex.
--
-- Each method holds the mutex from its first access to the state to its end, so a method is one
-- function from the state to the new state and the result. The clock is an argument: the reading
-- that the method takes. `GetOrComputeWithCtx` takes the mutex twice, and what other goroutines do
-- in between is an argument of it.
mod Defs
pub mod Spec
pub mod Refines
pub mod History
pub mod Behaviour
mod Tests
unfoldable pub use Defs.*
