-- ===== src/Handler/Defs.antt =====
-- The interface `Handler` of cache.go: a state, and the methods as functions from the state to the
-- new state and the result. Each method takes the reading of the clock at its call.
use go_cachex.Base.{ℕ, ◌≡◌, Option, some, List, ℤ}
use go_cachex.Cache.{Error, Result, ok, Str, Slice}

pub record Handler : Type 1 where
  pub State : Type 0
  pub get : ℕ → Slice → State → State × Result Slice
  pub get_ttl : ℕ → Slice → State → State × Result ℤ
  pub set_forever : ℕ → Slice → Slice → State → State × Result (Unit {0})
  pub set_with_ttl : ℕ → Slice → Slice → ℤ → State → State × Result (Unit {0})
  pub del : Slice → State → State × Result (Unit {0})
  pub batch_get : ℕ → List Slice → State → State × List (Result Slice)
  pub get_or_compute :
      ℕ → ℕ → Slice → ℤ → Option Error → Result Slice → State → State × Result Slice
  pub close : State → State × Option Error

-- What a client relies on: in the states that the handler reaches while it is open, `Set` of a value
-- that fits succeeds, and the key then reads back.
pub record IsReliable (h : Handler) : Type 1 where
  pub Ready : h.State → Type 0
  pub Fits : Str → Type 0
  pub set_ready :
      (now : ℕ) (k b : Str) (s : h.State)
      → Ready s
      → Fits b
      → Ready (h.set_forever now (some k) (some b) s).0
  pub set_ok :
      (now : ℕ) (k b : Str) (s : h.State)
      → Ready s
      → Fits b
      → (h.set_forever now (some k) (some b) s).1 ≡ ok tt
  pub get-set :
      (now t : ℕ) (k b : Str) (s : h.State)
      → Ready s
      → Fits b
      → (h.get t (some k) (h.set_forever now (some k) (some b) s).0).1 ≡ ok (some b)
