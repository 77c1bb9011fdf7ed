-- ===== src/Pool/Defs.antt =====
-- object_pool.go: `ObjectPoolManager` and the registry. The buffered channel is a list; the periodic task
-- is a call of `refill_task`, and the prefill in the background a call of `fill`.
use go_cachex.Base.{
  ℕ, zero, suc, ◌+◌, ◌-◌, ◌*◌, ◌/◌, Bool, true, false, Option, none, some, List, [], ◌∷◌, ◌++◌,
  length, ltb, leb, if◌then◌else◌, ℤ, pos, negsuc,
}
use go_cachex.Cache.{Str, second}
use go_cachex.Table.{lookup, assign}
use go_cachex.Lru.{if_le_zero}

pub record ObjectPoolConfig : Type 0 where
  pub capacity : ℕ
  pub min_threshold : ℕ
  pub batch_size : ℕ
  pub cold_start_count : ℕ
  pub refresh_interval : ℤ

-- What the options of a caller can set.
pub data ObjectPoolOption : Type 0 where
  with_capacity with_min_threshold with_batch_size with_cold_start_count : ℤ → ObjectPoolOption
  with_refresh_interval : ℤ → ObjectPoolOption

pub record Settings : Type 0 where
  pub capacity : ℤ
  pub min_threshold : ℤ
  pub batch_size : ℤ
  pub cold_start_count : ℤ
  pub refresh_interval : ℤ

abbrev pub default_settings : Settings
default_settings = record {
  capacity = pos 64;
  min_threshold = pos 0;
  batch_size = pos 0;
  cold_start_count = pos 0;
  refresh_interval = pos (5 * second);
}

unfoldable pub apply_options : List ObjectPoolOption → Settings → Settings
apply_options [] c = c
apply_options (with_capacity n ∷ l) c = apply_options l (record c { capacity = n })
apply_options (with_min_threshold n ∷ l) c = apply_options l (record c { min_threshold = n })
apply_options (with_batch_size n ∷ l) c = apply_options l (record c { batch_size = n })
apply_options (with_cold_start_count n ∷ l) c = apply_options l (record c { cold_start_count = n })
apply_options (with_refresh_interval n ∷ l) c = apply_options l (record c { refresh_interval = n })

abbrev pub non_negative : ℤ → ℕ
non_negative (pos n) = n
non_negative (negsuc n) = 0

abbrev pub smaller : ℕ → ℕ → ℕ
smaller a b = if ltb b a then b else a

-- The thresholds that were not set follow from the capacity; a capacity that is not positive panics.
unfoldable pub derive_config : Settings → Option ObjectPoolConfig
unfolding if_le_zero
derive_config c = elim c.capacity [
  | negsuc n ↦ none
  | pos zero ↦ none
  | pos (suc n) ↦ some (record {
    capacity = suc n;
    min_threshold = smaller (if_le_zero c.min_threshold (suc n / 3)) (suc n);
    batch_size = if_le_zero c.batch_size (suc n / 2);
    cold_start_count = non_negative c.cold_start_count;
    refresh_interval = c.refresh_interval;
  })
]

module _ (T : Type 0) where
  pub record ObjectPoolManager : Type 0 where
    pub config : ObjectPoolConfig
    pub pool : List T
    pub generated : ℕ
    pub served : ℕ
    pub started : Bool
    pub stopped : Bool

  abbrev pub new_pool : ObjectPoolConfig → ObjectPoolManager
  new_pool config = record {
    config = config;
    pool = [];
    generated = 0;
    served = 0;
    started = false;
    stopped = false;
  }

  unfoldable pub try_get : ObjectPoolManager → ObjectPoolManager × Option T
  try_get m = elim m.pool [
    | [] ↦ (m, none)
    | v ∷ rest ↦ (record m { pool = rest; served = m.served + 1 }, some v)
  ]

  -- The send to the channel, which holds at most `capacity` objects; the flag says whether it succeeds.
  unfoldable pub send : T → ObjectPoolManager → ObjectPoolManager × Bool
  send v m =
      if ltb (length m.pool) m.config.capacity
      then (record m { pool = m.pool ++ v ∷ [] }, true)
      else (m, false)

  -- The end of one round: the object is counted and sent.
  unfoldable pub keep_made :
      (ObjectPoolManager → ObjectPoolManager) → T → ObjectPoolManager → ObjectPoolManager × Bool
  unfolding send
  keep_made others v m = let g = others m in send v (record g { generated = g.generated + 1 })

  -- One object for each round that is left. `factory` gives the outcome of the call in the round, and
  -- `others` what other goroutines do to the pool while it runs.
  unfoldable pub fill :
      (ℕ → Option T)
      → (ℕ → ObjectPoolManager → ObjectPoolManager)
      → ℕ
      → ObjectPoolManager
      → ObjectPoolManager
  unfolding keep_made
  fill factory others zero m = m
  fill factory others (suc n) m =
      if m.stopped
      then m
      else if leb m.config.capacity (length m.pool)
      then m
      else elim (factory n) [
        | none ↦ fill factory others n (others n m)
        | some v ↦
            let (m', sent) = keep_made (others n) v m in
            elim sent [ true ↦ fill factory others n m' | false ↦ m' ]
      ]

  unfoldable pub refill_task :
      (ℕ → Option T)
      → (ℕ → ObjectPoolManager → ObjectPoolManager)
      → ObjectPoolManager
      → ObjectPoolManager
  unfolding fill
  refill_task factory others m =
      if m.stopped
      then m
      else if leb m.config.min_threshold (length m.pool)
      then m
      else fill factory others (smaller (m.config.capacity - length m.pool) m.config.batch_size) m

  -- The synchronous part of `Start`, and the number of objects that the goroutine is to make.
  unfoldable pub start :
      (ℕ → Option T)
      → (ℕ → ObjectPoolManager → ObjectPoolManager)
      → ObjectPoolManager
      → ObjectPoolManager × ℕ
  unfolding fill
  start factory others m = if m.started then (m, 0) else (
    fill factory others m.config.cold_start_count (record m { started = true }),
    m.config.capacity - m.config.cold_start_count,
  )

  unfoldable pub stop : ObjectPoolManager → ObjectPoolManager
  stop m = record m { stopped = true }

  -- The registry holds the pools of one type of objects; `none` is a panic.
  unfoldable pub register_object_pool :
      Str
      → Bool
      → List ObjectPoolOption
      → (ℕ → Option T)
      → (ℕ → ObjectPoolManager → ObjectPoolManager)
      → List (Str × ObjectPoolManager)
      → Option (List (Str × ObjectPoolManager) × ℕ)
  unfolding apply_options derive_config start lookup assign
  register_object_pool name has_factory options factory others registry =
      if has_factory
      then elim (lookup name registry) [
        | some _ ↦ none
        | none ↦ elim (derive_config (apply_options options default_settings)) [
          | none ↦ none
          | some config ↦
              let (m, rest) = start factory others (new_pool config) in
              some (assign name m registry, rest)
        ]
      ]
      else none

  unfoldable pub get_object_pool : Str → List (Str × ObjectPoolManager) → Option ObjectPoolManager
  unfolding lookup
  get_object_pool name registry = lookup name registry
