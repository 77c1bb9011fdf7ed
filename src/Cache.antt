-- ===== src/Cache.antt =====
-- cache.go and validate.go: the errors, byte slices, instants and durations that every handler
-- shares, and the validation of arguments.
--
-- A Go `[]byte` is a list of bytes or nil; a Go string is a list of bytes. A `time.Time` is the
-- number of nanoseconds since the zero time, so that `IsZero` is a test for 0; a duration is a
-- signed number of nanoseconds. A pair `(value, error)` is a `Result`.
mod Defs
mod Laws
unfoldable pub use Defs.*
pub use Laws.*
