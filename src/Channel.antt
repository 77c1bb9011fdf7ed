-- ===== src/Channel.antt =====
-- durable_channel.go: a channel whose messages also wait in a list of Redis.
pub mod Server
pub mod Defs
pub mod Flow
pub mod Order
pub mod Rounds
pub mod Steps
pub mod Lasting
pub mod Balance
pub mod Restart
pub mod Losses
mod Tests
unfoldable pub use Server.*
unfoldable pub use Defs.*
unfoldable pub use Flow.*
