-- ===== src/Redis.antt =====
-- Redis, which the repository calls through the client go-redis: the commands that the code uses, and
-- what their documentation says of them. `Memory` is an instance, for witnesses and tests.
mod Defs
pub mod Memory
unfoldable pub use Defs.*
