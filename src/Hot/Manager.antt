-- ===== src/Hot/Manager.antt =====
-- hotkey.go: the options and `HotKeyManager`. The caches are pointers, of a type `C`, to a state `W`
-- that they share.
use go_cachex.Base.{ℕ, ◌*◌, Bool, true, Option, none, some, List, [], ◌∷◌, ℤ, pos, codes}
use go_cachex.Cache.{Str}
use go_cachex.Lock.{minute}
use go_cachex.Redis.{Outcome, good, bad}
use go_cachex.Table.{lookup, assign}
use go_cachex.Hot.Defs.{HotKeyConfig}
use go_cachex.Hot.Calls.{HotKeyStats}

pub data HotKeyOption : Type 0 where
  with_hot_key_ttl : ℕ → HotKeyOption
  with_hot_key_refresh_interval : ℤ → HotKeyOption
  with_hot_key_auto_refresh : Bool → HotKeyOption
  with_hot_key_namespace : Str → HotKeyOption
  with_hot_key_max_local_cache_size : ℤ → HotKeyOption

unfoldable pub apply_option : HotKeyOption → HotKeyConfig → HotKeyConfig
apply_option (with_hot_key_ttl d) c = record c { default_ttl = d }
apply_option (with_hot_key_refresh_interval d) c = record c { refresh_interval = d }
apply_option (with_hot_key_auto_refresh b) c = record c { enable_auto_refresh = b }
apply_option (with_hot_key_namespace n) c = record c { namespace = n }
apply_option (with_hot_key_max_local_cache_size n) c = record c { max_local_cache_size = n }

unfoldable pub apply_options : List HotKeyOption → HotKeyConfig → HotKeyConfig
unfolding apply_option
apply_options [] c = c
apply_options (o ∷ os) c = apply_options os (apply_option o c)

abbrev pub manager_config : HotKeyConfig
manager_config = record {
  default_ttl = 60 * minute;
  refresh_interval = pos (5 * minute);
  enable_auto_refresh = true;
  namespace = codes "hotkey";
  max_local_cache_size = pos 10000;
}

-- What a registered value offers; a method that it lacks is `none`.
pub record Registered (W C E : Type 0) : Type 0 where
  pub refresh_of : C → Option (W → W × Outcome E (Unit {0}))
  pub stop_of : C → Option (W → W)
  pub stats_of : C → Option (W → Outcome E HotKeyStats)

pub record HotKeyManager (C : Type 0) : Type 0 where
  pub config : HotKeyConfig
  pub caches : List (Str × C)

unfoldable pub new_hot_key_manager : {C : Type 0} → List HotKeyOption → HotKeyManager C
unfolding apply_options
new_hot_key_manager os = record { config = apply_options os manager_config; caches = [] }

module _ {C : Type 0} where
  unfoldable pub register : Str → C → HotKeyManager C → HotKeyManager C
  unfolding assign
  register name c m = record m { caches = assign name c m.caches }

  unfoldable pub get_cache : Str → HotKeyManager C → Option C
  unfolding lookup
  get_cache name m = lookup name m.caches

module _ {W C E : Type 0} (p : Registered W C E) where
  abbrev pub refresh_one : Option (W → W × Outcome E (Unit {0})) → W → W × Outcome E (Unit {0})
  refresh_one none w = (w, good tt)
  refresh_one (some f) w = f w

  -- The caches in the order of the loop, each with its name, which the error reports.
  unfoldable pub refresh_each : List (Str × C) → W → W × Outcome (Str × E) (Unit {0})
  refresh_each [] w = (w, good tt)
  refresh_each ((name, c) ∷ cs) w =
      let y = refresh_one (p.refresh_of c) w in
      let rest = refresh_each cs y.0 in elim y.1 [ bad e ↦ (y.0, bad (name, e)) | good _ ↦ rest ]

  abbrev pub stop_one : Option (W → W) → W → W
  stop_one none w = w
  stop_one (some f) w = f w

  unfoldable pub stop_each : List (Str × C) → W → W
  stop_each [] w = w
  stop_each ((name, c) ∷ cs) w = stop_each cs (stop_one (p.stop_of c) w)

  abbrev pub stats_one : Str → Option (W → Outcome E HotKeyStats) → W → List (Str × HotKeyStats)
  stats_one name none w = []
  stats_one name (some f) w = elim (f w) [ bad e ↦ [] | good x ↦ (name, x) ∷ [] ]

  -- A failing cache is left out.
  unfoldable pub stats_each : List (Str × C) → W → List (Str × HotKeyStats)
  unfolding assign
  stats_each [] w = []
  stats_each ((name, c) ∷ cs) w = elim (stats_one name (p.stats_of c) w) [
    | [] ↦ stats_each cs w
    | x ∷ _ ↦ assign x.0 x.1 (stats_each cs w)
  ]

  module _ (walk : List (Str × C) → List (Str × C)) where
    unfoldable pub refresh_all : HotKeyManager C → W → W × Outcome (Str × E) (Unit {0})
    unfolding refresh_each
    refresh_all m w = refresh_each (walk m.caches) w

    unfoldable pub stop_all : HotKeyManager C → W → W
    unfolding stop_each
    stop_all m w = stop_each (walk m.caches) w

    unfoldable pub get_all_stats : HotKeyManager C → W → List (Str × HotKeyStats)
    unfolding stats_each
    get_all_stats m w = stats_each (walk m.caches) w
