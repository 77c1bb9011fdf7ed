-- ===== src/Pool/Tests.antt =====
-- object_pool.go with numbers as objects.
use go_cachex.Base.{ℕ, ◌≤◌, ◌≡◌, ◌⊎◌, ◌==◌, if◌then◌else◌, refl, some, Option, length, pos, arith}
use go_cachex.Lru.{if_le_zero}
use go_cachex.Pool.Defs.{
  ObjectPoolConfig, Settings, default_settings, derive_config, new_pool, fill, start,
}
use go_cachex.Pool.Fills.{IsExact, takes, fill-IsExact, alone, start-fills}

abbrev config : ObjectPoolConfig
config = record {
  capacity = 4;
  min_threshold = 2;
  batch_size = 2;
  cold_start_count = 1;
  refresh_interval = pos 5;
}

abbrev make : ℕ → Option ℕ
make n = some n

-- Four rounds; the consumers take two objects in the second of them, when only one is there.
abbrev taken : ℕ → ℕ
taken i = if i == 2 then 2 else 0

fill-IsExact_example :
    let m' = fill ℕ make (λ i. takes ℕ (taken i)) 4 (new_pool ℕ config) in
    IsExact ℕ m' × ((m'.generated ≡ 4) ⊎ ((length m'.pool ≡ 4) × (m'.generated ≤ 4)))
fill-IsExact_example =
    fill-IsExact ℕ make taken 4 (new_pool ℕ config) (λ i. (i, refl)) refl
      (record { bounded = omega arith; counted = refl })

start-fills_example :
    let (m, rest) = start ℕ make (alone ℕ) (new_pool ℕ config) in
    length (fill ℕ make (alone ℕ) rest m).pool ≡ config.capacity
start-fills_example = start-fills ℕ make make config (λ i. (i, refl)) (λ i. (i, refl))

abbrev small : Settings
small = record default_settings { capacity = pos 2 }

abbrev small_config : ObjectPoolConfig
small_config = record {
  capacity = 2;
  min_threshold = 0;
  batch_size = 1;
  cold_start_count = 0;
  refresh_interval = small.refresh_interval;
}

small_derived : derive_config small ≡ some small_config
unfolding derive_config if_le_zero
small_derived = refl
