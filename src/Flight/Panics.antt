-- ===== src/Flight/Panics.antt =====
-- ctxcache.go: a call of `Do` whose loader panics.
use go_cachex.Base.{ℕ, ◌≡◌, ◌≢◌, none, some}
use go_cachex.Cache.{Str}
use go_cachex.Table.{lookup}
use go_cachex.Flight.Defs.{running, Group}

-- The map has the call for its key, nobody runs it, and it has no outcome.
pub record IsStuck (k : Str) (c : ℕ) (g : Group) : Type 0 where
  pub kept : lookup k g.m ≡ some c
  pub nobody : (i : ℕ) (l : Str) → g.pc i ≢ running l c
  pub silent : g.outcome c ≡ none
