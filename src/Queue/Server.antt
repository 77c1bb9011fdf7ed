-- ===== src/Queue/Server.antt =====
-- queue.go: the commands of Redis that the queues use, with what their documentation says of lists.
-- The score of a sorted set is a float, which the model leaves open.
use go_cachex.Base.{ℕ, ◌≡◌, Option, none, some, List, [], ◌∷◌, ◌++◌, length, take}
use go_cachex.Cache.{Str}

pub record Server : Type 1 where
  pub State : Type 0
  pub Score : Type 0
  pub of_seconds : ℕ → Score
  -- The list under a key, from its left end.
  pub items : Str → State → List Str
  pub rpush : Str → Str → State → State
  pub lpush : Str → Str → State → State
  pub lpop : Str → State → State × Option Str
  pub llen : Str → State → ℕ
  -- `LRANGE k 0 (n - 1)`, for a positive n
  pub lrange : Str → ℕ → State → List Str
  pub zadd : Str → Score → Str → State → State
  pub zpop_max : Str → State → State × Option Str
  -- `ZRANGEBYSCORE k 0 now LIMIT 0 1`
  pub first_due : Str → ℕ → State → Option Str
  pub zrem : Str → Str → State → State
  pub zcard : Str → State → ℕ
  -- the first members, by falling and by rising score
  pub zrev_range : Str → ℕ → State → List Str
  pub zrange : Str → ℕ → State → List Str
  pub del : Str → State → State

pub record IsServer (r : Server) : Type 0 where
  pub items-rpush : (k v : Str) (s : r.State) → r.items k (r.rpush k v s) ≡ r.items k s ++ v ∷ []
  pub items-lpush : (k v : Str) (s : r.State) → r.items k (r.lpush k v s) ≡ v ∷ r.items k s
  pub lpop_empty : (k : Str) (s : r.State) → r.items k s ≡ [] → r.lpop k s ≡ (s, none)
  pub lpop_first :
      (k v : Str) (vs : List Str) (s : r.State)
      → r.items k s ≡ v ∷ vs
      → (r.items k (r.lpop k s).0 ≡ vs) × ((r.lpop k s).1 ≡ some v)
  pub llen_lem : (k : Str) (s : r.State) → r.llen k s ≡ length (r.items k s)
  pub lrange_lem : (k : Str) (n : ℕ) (s : r.State) → r.lrange k n s ≡ take n (r.items k s)
  pub items-zadd :
      (j k : Str) (score : r.Score) (v : Str) (s : r.State)
      → r.items j (r.zadd k score v s) ≡ r.items j s
