-- ===== src/Hot/Calls.antt =====
-- hotkey.go: the methods of `HotKeyCache`, over any server, any JSON and any source of the data.
use go_cachex.Base.{ℕ, Bool, true, false, Option, none, some, List, [], ◌∷◌, length, if◌then◌else◌}
use go_cachex.Cache.{Str}
use go_cachex.Redis.{Turn, Fault, Outcome, good, bad, outcome_of}
use go_cachex.Table.{lookup}
use go_cachex.Hot.Server.{Texts}
use go_cachex.Hot.Defs.{
  Data, HotKeyCache, is_fresh, replace_local, put_local, delete_local, clear_local,
}

-- `E` are the errors of the loader.
pub data HotError (E : Type 0) : Type 0 where
  load_failed refresh_failed : E → HotError E
  marshal_failed : HotError E
  server_failed : Fault → HotError E

pub record Json (V : Type 0) : Type 0 where
  pub marshal : Data V → Option Str
  pub unmarshal : Str → Option (Data V)

abbrev pub of_server : {E A : Type 0} → Outcome Fault A → Outcome (HotError E) A
of_server (good a) = good a
of_server (bad e) = bad (server_failed e)

abbrev pub is_some {ℓ} : {A : Type ℓ} → Option A → Bool
is_some none = false
is_some (some _) = true

pub record HotKeyStats : Type 0 where
  pub key_name : Str
  pub local_cache_size : ℕ
  pub last_refresh_time : ℕ
  pub ttl : ℕ

module _ (r : Texts) (V E : Type 0) (json : Json V) where
  -- What `Get` found, if it is text that can be read.
  unfoldable pub parse : Outcome Fault (Option Str) → Option (Data V)
  parse (bad e) = none
  parse (good none) = none
  parse (good (some [])) = none
  parse (good (some (c ∷ v))) = json.unmarshal (c ∷ v)

  unfoldable pub cached : Turn → HotKeyCache V → r.State → Option (Data V)
  unfolding parse
  cached turn h s = parse (outcome_of turn.net s (s, r.value turn.at h.redis_key s)).1

  -- `SetEx` with what was marshalled; an error of it is dropped here.
  unfoldable pub write_data : Turn → HotKeyCache V → Option Str → r.State → r.State
  write_data turn h none s = s
  write_data turn h (some v) s =
      (outcome_of turn.net s (r.set_ex turn.at h.redis_key v h.default_ttl s, tt)).0

  unfoldable pub keep_loaded :
      Turn
      → ℕ
      → (Data V → List Str)
      → Data V
      → HotKeyCache V
      → r.State
      → HotKeyCache V × r.State × Outcome (HotError E) (Data V)
  unfolding write_data replace_local
  keep_loaded turn now walk [] h s = (h, s, good [])
  keep_loaded turn now walk (x ∷ m) h s =
      (replace_local V walk (x ∷ m) now h, write_data turn h (json.marshal (x ∷ m)) s, good (x ∷ m))

  -- `loaded` is what the loader returns, and `others` what happens to the server until then.
  unfoldable pub load_all :
      Turn
      → Turn
      → (r.State → r.State)
      → Outcome E (Data V)
      → ℕ
      → (Data V → List Str)
      → HotKeyCache V
      → r.State
      → HotKeyCache V × r.State × Outcome (HotError E) (Data V)
  unfolding cached replace_local keep_loaded
  load_all reads writes others loaded now walk h s = elim (cached reads h s) [
    | some m ↦ (replace_local V walk m now h, s, good m)
    | none ↦ elim loaded [
      | bad e ↦ (h, others s, bad (load_failed e))
      | good m ↦ keep_loaded writes now walk m h (others s)
    ]
  ]

  abbrev pub answer : {A B : Type 0} → (A → B) → Outcome (HotError E) A → Outcome (HotError E) B
  answer f (good a) = good (f a)
  answer f (bad e) = bad e

  -- `none` is a key that does not exist.
  unfoldable pub get :
      Turn
      → Turn
      → (r.State → r.State)
      → Outcome E (Data V)
      → ℕ
      → (Data V → List Str)
      → Str
      → HotKeyCache V
      → r.State
      → HotKeyCache V × r.State × Outcome (HotError E) (Option V)
  unfolding lookup load_all
  get reads writes others loaded now walk k h s = elim (lookup k h.local_cache) [
    | some v ↦ (h, s, good (some v))
    | none ↦
        let (h', s', o) = load_all reads writes others loaded now walk h s in
        (h', s', answer (lookup k) o)
  ]

  unfoldable pub get_all :
      Turn
      → Turn
      → (r.State → r.State)
      → Outcome E (Data V)
      → ℕ
      → (Data V → List Str)
      → HotKeyCache V
      → r.State
      → HotKeyCache V × r.State × Outcome (HotError E) (Data V)
  unfolding is_fresh load_all
  get_all reads writes others loaded now walk h s =
      if is_fresh now h.last_refresh_time h.refresh_interval
      then (h, s, good h.local_cache)
      else load_all reads writes others loaded now walk h s

  -- `others` is what happens to the server after the local copy has been read.
  unfoldable pub save_to_redis :
      Turn
      → (r.State → r.State)
      → HotKeyCache V
      → r.State
      → r.State × Outcome (HotError E) (Unit {0})
  save_to_redis turn others h s = elim (json.marshal h.local_cache) [
    | none ↦ (others s, bad marshal_failed)
    | some v ↦
        let s' = others s in
        let (s'', o) =
          outcome_of turn.net s' (r.set_ex turn.at h.redis_key v h.default_ttl s', tt) in
        (s'', of_server o)
  ]

  -- `beside` is what happens to the cache before it is saved.
  unfoldable pub set :
      Turn
      → (HotKeyCache V → HotKeyCache V)
      → (r.State → r.State)
      → Str
      → V
      → HotKeyCache V
      → r.State
      → HotKeyCache V × r.State × Outcome (HotError E) (Unit {0})
  unfolding put_local save_to_redis
  set turn beside others k v h s =
      let g = beside (put_local V k v h) in
      let (s', o) = save_to_redis turn others g s in (g, s', o)

  unfoldable pub set_all :
      Turn
      → (HotKeyCache V → HotKeyCache V)
      → (r.State → r.State)
      → ℕ
      → (Data V → List Str)
      → Data V
      → HotKeyCache V
      → r.State
      → HotKeyCache V × r.State × Outcome (HotError E) (Unit {0})
  unfolding replace_local save_to_redis
  set_all turn beside others now walk m h s =
      let g = beside (replace_local V walk m now h) in
      let (s', o) = save_to_redis turn others g s in (g, s', o)

  unfoldable pub delete_key :
      Turn
      → (HotKeyCache V → HotKeyCache V)
      → (r.State → r.State)
      → Str
      → HotKeyCache V
      → r.State
      → HotKeyCache V × r.State × Outcome (HotError E) (Unit {0})
  unfolding delete_local save_to_redis
  delete_key turn beside others k h s =
      let g = beside (delete_local V k h) in
      let (s', o) = save_to_redis turn others g s in (g, s', o)

  unfoldable pub refresh :
      Turn
      → (HotKeyCache V → HotKeyCache V)
      → (r.State → r.State)
      → Outcome E (Data V)
      → ℕ
      → (Data V → List Str)
      → HotKeyCache V
      → r.State
      → HotKeyCache V × r.State × Outcome (HotError E) (Unit {0})
  unfolding set_all
  refresh turn beside others (bad e) now walk h s = (h, s, bad (refresh_failed e))
  refresh turn beside others (good m) now walk h s = set_all turn beside others now walk m h s

  unfoldable pub clear :
      Turn → ℕ → HotKeyCache V → r.State → HotKeyCache V × r.State × Outcome (HotError E) (Unit {0})
  unfolding clear_local
  clear turn now h s =
      let (s', o) = outcome_of turn.net s (r.del turn.at h.redis_key s, tt) in
      (clear_local V now h, s', of_server o)

  -- `beside` is what happens to the cache between the load and the look.
  unfoldable pub after_load :
      {A : Type 0}
      → (HotKeyCache V → HotKeyCache V)
      → (HotKeyCache V → A)
      → HotKeyCache V × r.State × Outcome (HotError E) (Data V)
      → HotKeyCache V × r.State × Outcome (HotError E) A
  after_load beside look (h, s, bad e) = (h, s, bad e)
  after_load beside look (h, s, good _) = let g = beside h in (g, s, good (look g))

  unfoldable pub exists :
      Turn
      → Turn
      → (r.State → r.State)
      → (HotKeyCache V → HotKeyCache V)
      → Outcome E (Data V)
      → ℕ
      → (Data V → List Str)
      → Str
      → HotKeyCache V
      → r.State
      → HotKeyCache V × r.State × Outcome (HotError E) Bool
  unfolding get_all after_load lookup
  exists reads writes others beside loaded now walk k h s =
      after_load beside (λ g. is_some (lookup k g.local_cache))
        (get_all reads writes others loaded now walk h s)

  unfoldable pub keys :
      Turn
      → Turn
      → (r.State → r.State)
      → Outcome E (Data V)
      → ℕ
      → (Data V → List Str)
      → HotKeyCache V
      → r.State
      → HotKeyCache V × r.State × Outcome (HotError E) (List Str)
  unfolding get_all
  keys reads writes others loaded now walk h s =
      let (h', s', o) = get_all reads writes others loaded now walk h s in (h', s', answer walk o)

  unfoldable pub size :
      Turn
      → Turn
      → (r.State → r.State)
      → (HotKeyCache V → HotKeyCache V)
      → Outcome E (Data V)
      → ℕ
      → (Data V → List Str)
      → HotKeyCache V
      → r.State
      → HotKeyCache V × r.State × Outcome (HotError E) ℕ
  unfolding get_all after_load
  size reads writes others beside loaded now walk h s =
      after_load beside (λ g. length g.local_cache)
        (get_all reads writes others loaded now walk h s)

  abbrev pub or_zero : Outcome Fault ℕ → ℕ
  or_zero (good n) = n
  or_zero (bad e) = 0

  unfoldable pub get_stats : Turn → HotKeyCache V → r.State → HotKeyStats
  get_stats turn h s = record {
    key_name = h.key_name;
    local_cache_size = length h.local_cache;
    last_refresh_time = h.last_refresh_time;
    ttl = or_zero (outcome_of turn.net s (s, r.ttl turn.at h.redis_key s)).1;
  }
