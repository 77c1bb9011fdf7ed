-- ===== src/Ctx.antt =====
-- ctxcache.go: the methods of `CtxCache`.
pub mod Defs
mod Stores
mod Tests
