-- ===== src/Flight.antt =====
-- ctxcache.go: `flightGroup.Do`, by which concurrent loads of one key share one call.
--
-- Each goroutine is at a program point; a step is one critical section of `g.mu`, or a wait that
-- ends. Any goroutine may step at any time.
mod Defs
pub mod Invariant
pub mod Panics
mod Tests
unfoldable pub use Defs.*
