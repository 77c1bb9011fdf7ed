-- ===== src/Optimized/Handler.antt =====
-- lru_optimized.go: the hash, the choice of a shard, the constructor, and the methods over the shards.
use Prim.Native.Nat.{bit_and, bit_xor}
use go_cachex.Base.{
  ℕ, zero, suc, ◌+◌, ◌-◌, ◌*◌, ◌/◌, ◌%◌, ◌^◌, Bool, true, false, ◌&&◌, Option, none, some, List, [],
  ◌∷◌, ltb, if◌then◌else◌, ℤ, map,
}
use mathlib.Core.List.{foldl}
use go_cachex.Cache.{
  Result, ok, err, closed, invalid_key, invalid_value, invalid_ttl, Str, Slice, is_nil, to_string,
  panic,
}
use go_cachex.Lru.{if_le_zero, ttl_too_low}
use go_cachex.Optimized.Defs.{
  Shard, new_shard, get_shard_value, get_shard_ttl, expiry_at, set_shard_value, del_shard_value,
  clear_shard, batch_shard_one,
}

-- FNV-1a over 32 bits, as `hash/fnv` has it.
unfoldable pub fast_hash : Str → ℕ
fast_hash s = foldl (λ h b. bit_xor h b * 16777619 % 2 ^ 32) 2166136261 s

pub record Optimized : Type 0 where
  pub shards : List Shard
  pub shard_count : ℕ
  pub shard_mask : ℕ
  pub max_entries : ℕ
  pub is_closed : Bool

abbrev pub default_shard_count : ℕ
default_shard_count = 16

abbrev pub default_shard_capacity : ℕ
default_shard_capacity = 64

-- `for c < a && c < b { c <<= 1 }`, on fuel.
unfoldable pub double_below : ℕ → ℕ → ℕ → ℕ → ℕ
double_below zero a b c = c
double_below (suc fuel) a b c =
    let rest = double_below fuel a b (c * 2) in if ltb c a && ltb c b then rest else c

abbrev pub doublings : ℕ
doublings = 9

-- The numbers of shards and of entries in each, for `maxEntries` entries on `procs` processors.
unfoldable pub shard_limit : ℕ → ℕ
unfolding double_below
shard_limit procs = double_below doublings (4 * procs) 256 default_shard_count

unfoldable pub count_shards : ℕ → ℕ → ℕ
unfolding shard_limit
count_shards procs n =
    double_below doublings (n / default_shard_capacity) (shard_limit procs)
      (if ltb n default_shard_count then 1 else default_shard_count)

unfoldable pub capacity_of : ℕ → ℕ → ℕ
capacity_of n count = let c = (n + count - 1) / count in if ltb c 1 then 1 else c

abbrev pub replicate : ℕ → Shard → List Shard
replicate zero s = []
replicate (suc n) s = s ∷ replicate n s

unfoldable pub new_optimized : ℕ → ℤ → Optimized
unfolding count_shards capacity_of new_shard if_le_zero
new_optimized procs max_entries =
    let n = if_le_zero max_entries (default_shard_capacity * default_shard_count) in
    let count = count_shards procs n in
    record {
      shards = replicate count (new_shard (capacity_of n count));
      shard_count = count;
      shard_mask = count - 1;
      max_entries = n;
      is_closed = false;
    }

unfoldable pub shard_index : Optimized → Str → ℕ
unfolding fast_hash
shard_index h k = bit_and (fast_hash k) h.shard_mask

abbrev pub get_elem? : List Shard → ℕ → Option Shard
get_elem? [] i = none
get_elem? (s ∷ ss) zero = some s
get_elem? (s ∷ ss) (suc i) = get_elem? ss i

abbrev pub set : List Shard → ℕ → Shard → List Shard
set [] i t = []
set (s ∷ ss) zero t = t ∷ ss
set (s ∷ ss) (suc i) t = s ∷ set ss i t

-- Runs a method of the key's shard; an index out of range would panic.
unfoldable pub on_shard {ℓ} :
    {A : Type ℓ} → Str → (Shard → Shard × Result A) → Optimized → Optimized × Result A
on_shard k f h = elim (get_elem? h.shards (shard_index h k)) [
  | none ↦ (h, err panic)
  | some s ↦ let (s', r) = f s in (record h { shards = set h.shards (shard_index h k) s' }, r)
]

unfoldable pub get : ℕ → ℕ → (Shard → Shard) → Slice → Optimized → Optimized × Result Slice
unfolding on_shard
get now later others key h =
    if is_nil key
    then (h, err invalid_key)
    else if h.is_closed
    then (h, err closed)
    else on_shard (to_string key) (get_shard_value now later others (to_string key)) h

unfoldable pub get_ttl : ℕ → ℕ → Slice → Optimized → Optimized × Result ℕ
unfolding on_shard
get_ttl now later key h =
    if is_nil key
    then (h, err invalid_key)
    else if h.is_closed
    then (h, err closed)
    else on_shard (to_string key) (λ s. (s, get_shard_ttl now later (to_string key) s)) h

unfoldable pub set_with_ttl : ℕ → Slice → Slice → ℤ → Optimized → Optimized × Result (Unit {0})
unfolding on_shard
set_with_ttl now key value ttl h =
    if is_nil key
    then (h, err invalid_key)
    else if is_nil value
    then (h, err invalid_value)
    else if ttl_too_low ttl
    then (h, err invalid_ttl)
    else if h.is_closed
    then (h, err closed)
    else on_shard (to_string key)
        (λ s. (set_shard_value (to_string key) (to_string value) (expiry_at now ttl) s, ok tt)) h

unfoldable pub del : Slice → Optimized → Optimized × Result (Unit {0})
unfolding on_shard
del key h =
    if is_nil key
    then (h, err invalid_key)
    else if h.is_closed
    then (h, err closed)
    else on_shard (to_string key) (λ s. (del_shard_value (to_string key) s, ok tt)) h

unfoldable pub close : Optimized → Optimized
close h =
    if h.is_closed then h else record h { is_closed = true; shards = map clear_shard h.shards }

unfoldable pub clear : Optimized → Optimized
clear h = if h.is_closed then h else record h { shards = map clear_shard h.shards }

-- `BatchGet` writes each result at the key's own index, so the order in which the goroutines of the
-- shards run does not show; a read changes nothing.
unfoldable pub batch_one : ℕ → Optimized → Slice → Result Slice
batch_one now h none = err invalid_key
batch_one now h (some k) = elim (get_elem? h.shards (shard_index h k)) [
  | none ↦ err panic
  | some s ↦ batch_shard_one now s k
]

unfoldable pub batch_get : ℕ → List Slice → Optimized → List (Result Slice)
unfolding batch_one
batch_get now keys h =
    if h.is_closed then map (λ _. err closed) keys else map (batch_one now h) keys
