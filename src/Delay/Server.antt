-- ===== src/Delay/Server.antt =====
-- delay_queue.go: the commands of Redis that it uses, on sorted sets, hashes and lists, with what their
-- documentation says. A key names a sorted set, a hash and a list apart from one another; the
-- scores are whole, since the code only takes milliseconds.
use go_cachex.Base.{
  ℕ, ◌≤◌, ◌≡◌, Bool, true, false, ◌&&◌, Option, none, some, List, [], ◌∷◌, ite, if◌then◌else◌,
}
use go_cachex.Cache.{Str, dec_str}

abbrev pub same : Str → Str → Bool
same j k = ite (dec_str j k) true false

pub record Server : Type 1 where
  pub State : Type 0
  -- `ZSCORE k v`
  pub score : Str → Str → State → Option ℕ
  pub zadd : Str → ℕ → Str → State → State
  pub zrem : Str → Str → State → State × ℕ
  -- `ZRANGEBYSCORE k -inf now LIMIT 0 count`
  pub due : Str → ℕ → ℕ → State → List Str
  pub zcard : Str → State → ℕ
  -- `HGET k v`
  pub field : Str → Str → State → Option Str
  pub hset : Str → Str → Str → State → State
  pub hdel : Str → Str → State → State
  -- The list under a key, from its left end.
  pub items : Str → State → List Str
  pub lpush : Str → Str → State → State
  -- `LRANGE k first (first + count - 1)`
  pub lrange : Str → ℕ → ℕ → State → List Str

abbrev pub count_of : Option ℕ → ℕ
count_of none = 0
count_of (some n) = 1

module _ (r : Server) where
  -- The members are in the sorted set, with scores up to `now`.
  abbrev pub AllDue : Str → ℕ → List Str → r.State → Type 0
  AllDue k now [] s = Unit
  AllDue k now (v ∷ vs) s = ((t : ℕ) × (r.score k v s ≡ some t) × (t ≤ now)) × AllDue k now vs s

  pub record IsServer : Type 0 where
    pub score-zadd :
        (j k : Str) (n : ℕ) (m v : Str) (s : r.State)
        → r.score j m (r.zadd k n v s) ≡ (if same j k && same m v then some n else r.score j m s)
    pub score-zrem :
        (j k m v : Str) (s : r.State)
        → r.score j m (r.zrem k v s).0 ≡ (if same j k && same m v then none else r.score j m s)
    pub zrem_count : (k v : Str) (s : r.State) → (r.zrem k v s).1 ≡ count_of (r.score k v s)
    pub score-hset : (j k m v d : Str) (s : r.State) → r.score j m (r.hset k v d s) ≡ r.score j m s
    pub score-hdel : (j k m v : Str) (s : r.State) → r.score j m (r.hdel k v s) ≡ r.score j m s
    pub score-lpush : (j k m d : Str) (s : r.State) → r.score j m (r.lpush k d s) ≡ r.score j m s
    pub field-zadd :
        (j k : Str) (n : ℕ) (m v : Str) (s : r.State) → r.field j m (r.zadd k n v s) ≡ r.field j m s
    pub field-zrem : (j k m v : Str) (s : r.State) → r.field j m (r.zrem k v s).0 ≡ r.field j m s
    pub field-hset :
        (j k m v d : Str) (s : r.State)
        → r.field j m (r.hset k v d s) ≡ (if same j k && same m v then some d else r.field j m s)
    pub field-hdel :
        (j k m v : Str) (s : r.State)
        → r.field j m (r.hdel k v s) ≡ (if same j k && same m v then none else r.field j m s)
    pub field-lpush : (j k m d : Str) (s : r.State) → r.field j m (r.lpush k d s) ≡ r.field j m s
    pub items-zrem : (j k v : Str) (s : r.State) → r.items j (r.zrem k v s).0 ≡ r.items j s
    pub items-hdel : (j k v : Str) (s : r.State) → r.items j (r.hdel k v s) ≡ r.items j s
    pub items-lpush : (k d : Str) (s : r.State) → r.items k (r.lpush k d s) ≡ d ∷ r.items k s
    pub due_lem : (k : Str) (now count : ℕ) (s : r.State) → AllDue k now (r.due k now count s) s
