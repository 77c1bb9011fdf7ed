-- ===== src/Levels/Server.antt =====
-- advanced_cache.go: the commands of Redis that it uses, with what their documentation says.
use go_cachex.Base.{ℕ, ◌+◌, ◌*◌, ◌/◌, ◌≤◌, ◌<◌, ◌≡◌, ◌≢◌, ◌⊎◌, Option, some, List, [], ◌∷◌, ◌++◌}
use go_cachex.Cache.{Str, second}

pub record Server : Type 1 where
  pub State : Type 0
  pub value : ℕ → Str → State → Option Str
  -- With a duration in nanoseconds.
  pub set_ex : ℕ → Str → Str → ℕ → State → State
  pub del : ℕ → List Str → State → State
  pub exists : ℕ → List Str → State → ℕ
  -- The keys that match a pattern.
  pub keys : ℕ → Str → State → List Str

abbrev pub IsListed : Str → List Str → Type 0
IsListed k [] = ⊥
IsListed k (j ∷ l) = (k ≡ j) ⊎ IsListed k l

-- No character of the text stands for others in a pattern.
abbrev pub IsPlain : Str → Type 0
IsPlain [] = Unit
IsPlain (c ∷ p) = (c ≢ b'*') × (c ≢ b'?') × (c ≢ b'[') × (c ≢ b'\\') × IsPlain p

pub record IsServer (r : Server) : Type 0 where
  pub value-set_ex :
      (now t : ℕ) (k v : Str) (ttl : ℕ) (s : r.State)
      → now ≤ t
      → t < now + ttl / second * 1000
      → r.value t k (r.set_ex now k v ttl s) ≡ some v
  pub del_other :
      (now t : ℕ) (k : Str) (ks : List Str) (s : r.State)
      → (IsListed k ks → ⊥)
      → r.value t k (r.del now ks s) ≡ r.value t k s
  pub keys_begin :
      (now : ℕ) (p k : Str) (s : r.State)
      → IsPlain p
      → IsListed k (r.keys now (p ++ b'*' ∷ []) s)
      → (rest : Str) × (k ≡ p ++ rest)
