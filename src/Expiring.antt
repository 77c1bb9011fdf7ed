-- ===== src/Expiring.antt =====
-- expiring.go: `ExpiringHandler`, a map with expiry, lazy deletion and an incremental sweep.
--
-- Between two critical sections of one method other goroutines may run: what they do is an argument
-- of the method. The order in which Go's `range` visits a map is an argument of the sweep.
mod Defs
pub mod Sweep
pub mod Reads
mod Tests
unfoldable pub use Defs.*
