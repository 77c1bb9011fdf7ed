-- ===== src/Hot/Defs.antt =====
-- hotkey.go: `HotKeyCache` and its configuration, and what its methods do to the local copy.
use go_cachex.Base.{
  ℕ, zero, suc, ◌+◌, ◌*◌, ◌/◌, Bool, true, false, none, some, List, [], ◌∷◌, ◌++◌, length, ltb, leb,
  if◌then◌else◌, ℤ, pos, negsuc, codes,
}
use go_cachex.Cache.{Str}
use go_cachex.Lru.{if_le_zero}
use go_cachex.Lock.{if_not_zero, if_not_empty, minute}
use go_cachex.Table.{lookup, delete, assign}

-- A default time to live is not negative.
pub record HotKeyConfig : Type 0 where
  pub default_ttl : ℕ
  pub refresh_interval : ℤ
  pub enable_auto_refresh : Bool
  pub namespace : Str
  pub max_local_cache_size : ℤ

abbrev pub interval_or : ℤ → ℕ → ℤ
interval_or (pos zero) d = pos d
interval_or (pos (suc n)) d = pos (suc n)
interval_or (negsuc n) d = negsuc n

-- Whether less than the interval has passed since `last`; the clock may have been put back.
unfoldable pub is_fresh : ℕ → ℕ → ℤ → Bool
is_fresh now last (pos n) = ltb now (last + n)
is_fresh now last (negsuc n) = ltb (now + suc n) last

-- `mathx.IfClamp(size / 5, 1, size)`, of a size that is not 0
abbrev pub share_to_evict : ℕ → ℕ
share_to_evict size = if ltb (size / 5) 1 then 1 else size / 5

module _ (V : Type 0) where
  abbrev pub Data : Type 0
  Data = List (Str × V)

  -- `local_cache` is a map; the times are in nanoseconds, 0 for the zero time.
  pub record HotKeyCache : Type 0 where
    pub default_ttl : ℕ
    pub refresh_interval : ℤ
    pub enable_auto_refresh : Bool
    pub max_local_cache_size : ℕ
    pub key_name : Str
    pub redis_key : Str
    pub local_cache : Data
    pub access_order : List Str
    pub last_refresh_time : ℕ
    pub stopped : Bool

  unfoldable pub new_hot_key_cache : Str → HotKeyConfig → HotKeyCache
  unfolding if_le_zero
  new_hot_key_cache key_name c = record {
    default_ttl = if_not_zero c.default_ttl (60 * minute);
    refresh_interval = interval_or c.refresh_interval (10 * minute);
    enable_auto_refresh = c.enable_auto_refresh;
    max_local_cache_size = if_le_zero c.max_local_cache_size 10000;
    key_name = key_name;
    redis_key = if_not_empty c.namespace (codes "hotkey") ++ (b':' ∷ key_name);
    local_cache = [];
    access_order = [];
    last_refresh_time = 0;
    stopped = false;
  }

  -- The loop that fills a new map.
  unfoldable pub copy_map : Data → Data
  unfolding assign
  copy_map [] = []
  copy_map ((k, v) ∷ m) = assign k v (copy_map m)

  -- `walk` is the order in which the loop goes over the map.
  unfoldable pub replace_local : (Data → List Str) → Data → ℕ → HotKeyCache → HotKeyCache
  unfolding copy_map
  replace_local walk m now h = record h {
    local_cache = copy_map m;
    access_order = walk m;
    last_refresh_time = now;
  }

  unfoldable pub put_local : Str → V → HotKeyCache → HotKeyCache
  unfolding lookup assign
  put_local k v h = record h {
    access_order = elim (lookup k h.local_cache) [
      | none ↦ h.access_order ++ k ∷ []
      | some _ ↦ h.access_order
    ];
    local_cache = assign k v h.local_cache;
  }

  unfoldable pub delete_local : Str → HotKeyCache → HotKeyCache
  unfolding delete
  delete_local k h = record h { local_cache = delete k h.local_cache }

  unfoldable pub clear_local : ℕ → HotKeyCache → HotKeyCache
  clear_local now h = record h { local_cache = []; access_order = []; last_refresh_time = now }

  -- The loop of the eviction, with the number of entries that are still to go: the map and `newOrder`.
  unfoldable pub evict_oldest : ℕ → List Str → Data → Data × List Str
  unfolding lookup delete
  evict_oldest zero order m = (m, order)
  evict_oldest (suc n) [] m = (m, [])
  evict_oldest (suc n) (k ∷ order) m = elim (lookup k m) [
    | none ↦ evict_oldest (suc n) order m
    | some _ ↦ evict_oldest n order (delete k m)
  ]

  -- A tick of `cleanupExpired`.
  unfoldable pub cleanup_tick : HotKeyCache → HotKeyCache
  unfolding evict_oldest
  cleanup_tick h =
      let size = length h.local_cache in
      if leb size h.max_local_cache_size
      then h
      else (let (m, order) = evict_oldest (share_to_evict size) h.access_order h.local_cache in
          record h { local_cache = m; access_order = order })

  abbrev pub stop : HotKeyCache → HotKeyCache
  stop h = record h { stopped = true }
