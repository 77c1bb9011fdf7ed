-- ===== src/Delay.antt =====
-- delay_queue.go: tasks that wait for their time in sorted sets of Redis, with acknowledgement.
pub mod Server
pub mod Scripts
pub mod Defs
pub mod Tasks
pub mod Consumer
pub mod Polls
pub mod Moves
pub mod Calls
pub mod Others
pub mod Safety
pub mod Leases
pub mod Exclusive
pub mod Held
pub mod Losses
pub mod Starts
pub mod Memory
mod Tests
unfoldable pub use Server.*
unfoldable pub use Scripts.*
unfoldable pub use Defs.*
unfoldable pub use Tasks.*
unfoldable pub use Consumer.*
