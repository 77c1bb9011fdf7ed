-- ===== src/Ids/Server.antt =====
-- id_generator.go: the commands of Redis on counters that the generator uses, and what their
-- documentation says. A time and a duration are in nanoseconds.
use go_cachex.Base.{ℕ, ◌+◌, ◌≡◌, Option, none, some}
use go_cachex.Cache.{Str}

pub record Counters : Type 1 where
  pub State : Type 0
  -- What `GET` reads as a number at a time; `none` if there is no key.
  pub count : ℕ → Str → State → Option ℕ
  -- `SET` with an expiry
  pub set : ℕ → Str → ℕ → ℕ → State → State
  pub incr_by : ℕ → Str → ℕ → State → State × ℕ
  pub expire : ℕ → Str → ℕ → State → State
  pub del : ℕ → Str → State → State

abbrev pub or_zero : Option ℕ → ℕ
or_zero none = 0
or_zero (some n) = n

-- At the time of a command, before its key can expire.
pub record IsCounters (r : Counters) : Type 0 where
  pub count-set :
      (now : ℕ) (k : Str) (n d : ℕ) (s : r.State) → r.count now k (r.set now k n d s) ≡ some n
  pub count-incr_by :
      (now : ℕ) (k : Str) (n : ℕ) (s : r.State)
      → r.count now k (r.incr_by now k n s).0 ≡ some (or_zero (r.count now k s) + n)
  pub incr_by_lem :
      (now : ℕ) (k : Str) (n : ℕ) (s : r.State)
      → (r.incr_by now k n s).1 ≡ or_zero (r.count now k s) + n
  pub count-expire :
      (now : ℕ) (k : Str) (d : ℕ) (s : r.State)
      → r.count now k (r.expire now k d s) ≡ r.count now k s
