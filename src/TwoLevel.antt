-- ===== src/TwoLevel.antt =====
-- twolevel.go: `TwoLevelHandler` over any two handlers. A goroutine that a method starts becomes a
-- pending job of the state, which may run at any later time and in any order.
mod Defs
pub mod Reads
mod Tests
unfoldable pub use Defs.*
