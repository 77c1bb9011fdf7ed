-- ===== src/Levels/Advanced.antt =====
-- advanced_cache.go: the methods of `AdvancedCache`, over any JSON and any gzip.
use go_cachex.Base.{
  ℕ, zero, suc, ◌+◌, ◌*◌, ◌==◌, Bool, false, ◌||◌, Option, none, some, List, [], ◌∷◌, ◌++◌, map,
  length, ltb, if◌then◌else◌, ℤ, pos, negsuc, codes,
}
use go_cachex.Cache.{Str}
use go_cachex.Redis.{Turn, Fault, Outcome, good, bad, outcome_of}
use go_cachex.Lock.{if_not_zero, if_not_empty, minute}
use go_cachex.Levels.Server.{Server}

-- `no_compression` says that the compression is `CompressionNone`.
pub record AdvancedCacheConfig : Type 0 where
  pub no_compression : Bool
  pub min_size_for_compress : ℤ
  pub default_ttl : ℕ
  pub namespace : Str
  pub enable_metrics : Bool

pub record CacheMetrics : Type 0 where
  pub hits : ℕ
  pub misses : ℕ
  pub sets : ℕ
  pub deletes : ℕ
  pub compressions : ℕ
  pub decompressions : ℕ
  pub total_size : ℕ

pub record AdvancedCache : Type 0 where
  pub config : AdvancedCacheConfig
  pub metrics : CacheMetrics

pub data AdvancedError : Type 0 where
  marshal_failed compress_failed unmarshal_failed : AdvancedError
  client_failed : Fault → AdvancedError

abbrev pub size_or : ℤ → ℕ → ℤ
size_or (pos zero) d = pos d
size_or (pos (suc n)) d = pos (suc n)
size_or (negsuc n) d = negsuc n

-- Without the queue, the manager of hot keys and that of locks.
unfoldable pub new_advanced_cache : AdvancedCacheConfig → AdvancedCache
new_advanced_cache c = record {
  config = record c {
    min_size_for_compress = size_or c.min_size_for_compress 1024;
    default_ttl = if_not_zero c.default_ttl (60 * minute);
    namespace = if_not_empty c.namespace (codes "cache");
  };
  metrics = record {
    hits = 0;
    misses = 0;
    sets = 0;
    deletes = 0;
    compressions = 0;
    decompressions = 0;
    total_size = 0;
  };
}

unfoldable pub get_key : AdvancedCache → Str → Str
get_key c key = c.config.namespace ++ (b':' ∷ key)

abbrev pub is_short : ℕ → ℤ → Bool
is_short n (pos m) = ltb n m
is_short n (negsuc m) = false

abbrev pub counted : Bool → ℕ → ℕ
counted b n = if b then n + 1 else n

abbrev pub or_default : Option ℕ → ℕ → ℕ
or_default none d = d
or_default (some n) d = n

pub record Formats (T : Type 0) : Type 0 where
  pub marshal : T → Option Str
  pub unmarshal : Str → Option T
  pub gzip : Str → Option Str
  -- What is read of the whole text, unless an error stops it.
  pub gunzip : Str → Option Str

module _ (r : Server) (T : Type 0) (f : Formats T) where
  abbrev pub noted : AdvancedCache → (CacheMetrics → CacheMetrics) → AdvancedCache
  noted c g = record c { metrics = if c.config.enable_metrics then g c.metrics else c.metrics }

  unfoldable pub compress : AdvancedCache → Str → AdvancedCache × Option Str
  compress c d =
      if c.config.no_compression || is_short (length d) c.config.min_size_for_compress
      then (c, some d)
      else elim (f.gzip d) [
        | none ↦ (c, none)
        | some z ↦ (noted c (λ m. record m { compressions = m.compressions + 1 }), some z)
      ]

  unfoldable pub decompress : AdvancedCache → Str → AdvancedCache × Str
  decompress c d = if c.config.no_compression then (c, d) else elim (f.gunzip d) [
    | none ↦ (c, d)
    | some x ↦ (noted c (λ m. record m { decompressions = m.decompressions + 1 }), x)
  ]

  -- A call of the client whose error is reported.
  unfoldable pub store_text :
      Turn
      → Str
      → ℕ
      → Str
      → AdvancedCache
      → r.State
      → AdvancedCache × r.State × Outcome AdvancedError (Unit {0})
  unfolding get_key
  store_text turn key ttl d c s =
      let (s', o) = outcome_of turn.net s (r.set_ex turn.at (get_key c key) d ttl s, tt) in
      elim o [
        | bad e ↦ (c, s', bad (client_failed e))
        | good _ ↦ (
          noted c (λ m. record m { sets = m.sets + 1; total_size = m.total_size + length d }),
          s',
          good tt,
        )
      ]

  unfoldable pub set :
      Turn
      → Str
      → T
      → Option ℕ
      → AdvancedCache
      → r.State
      → AdvancedCache × r.State × Outcome AdvancedError (Unit {0})
  unfolding compress store_text
  set turn key v ttl c s = elim (f.marshal v) [
    | none ↦ (c, s, bad marshal_failed)
    | some d ↦
        let (c', z) = compress c d in
        elim z [
          | none ↦ (c', s, bad compress_failed)
          | some x ↦ store_text turn key (or_default ttl c.config.default_ttl) x c' s
        ]
  ]

  unfoldable pub read_text : AdvancedCache → Str → AdvancedCache × Outcome AdvancedError (Option T)
  unfolding decompress
  read_text c d =
      let (c', x) = decompress c d in
      elim (f.unmarshal x) [
        | none ↦ (c', bad unmarshal_failed)
        | some v ↦ (noted c' (λ m. record m { hits = m.hits + 1 }), good (some v))
      ]

  -- `none` is a key that does not exist.
  unfoldable pub get :
      Turn → Str → AdvancedCache → r.State → AdvancedCache × Outcome AdvancedError (Option T)
  unfolding get_key read_text
  get turn key c s = elim (outcome_of turn.net s (s, r.value turn.at (get_key c key) s)).1 [
    | bad e ↦ (c, bad (client_failed e))
    | good none ↦ (noted c (λ m. record m { misses = m.misses + 1 }), good none)
    | good (some d) ↦ read_text c d
  ]

  unfoldable pub delete :
      Turn
      → List Str
      → AdvancedCache
      → r.State
      → AdvancedCache × r.State × Outcome AdvancedError (Unit {0})
  unfolding get_key
  delete turn [] c s = (c, s, good tt)
  delete turn (k ∷ ks) c s =
      let (s', o) = outcome_of turn.net s (r.del turn.at (map (get_key c) (k ∷ ks)) s, tt) in
      elim o [
        | bad e ↦ (c, s', bad (client_failed e))
        | good _ ↦ (noted c (λ m. record m { deletes = m.deletes + length (k ∷ ks) }), s', good tt)
      ]

  unfoldable pub exists : Turn → List Str → AdvancedCache → r.State → Outcome Fault ℕ
  unfolding get_key
  exists turn [] c s = good 0
  exists turn (k ∷ ks) c s =
      (outcome_of turn.net s (s, r.exists turn.at (map (get_key c) (k ∷ ks)) s)).1

  -- `strings.TrimPrefix`
  unfoldable pub trim_prefix : Str → Str → Str → Str
  trim_prefix whole [] s = s
  trim_prefix whole (c ∷ p) [] = whole
  trim_prefix whole (c ∷ p) (d ∷ s) =
      let rest = trim_prefix whole p s in if c == d then rest else whole

  unfoldable pub keys : Turn → Str → AdvancedCache → r.State → Outcome AdvancedError (List Str)
  unfolding get_key trim_prefix
  keys turn pattern_ c s =
      elim (outcome_of turn.net s (s, r.keys turn.at (get_key c pattern_) s)).1 [
        | bad e ↦ bad (client_failed e)
        | good ks ↦ good (map (λ k. trim_prefix k (c.config.namespace ++ b':' ∷ []) k) ks)
      ]

  -- `others` is what happens to the server between the two calls.
  unfoldable pub clear :
      Turn
      → Turn
      → (r.State → r.State)
      → Str
      → AdvancedCache
      → r.State
      → AdvancedCache × r.State × Outcome AdvancedError (Unit {0})
  unfolding keys delete
  clear lists deletes others pattern_ c s = elim (keys lists pattern_ c s) [
    | bad e ↦ (c, s, bad e)
    | good ks ↦ delete deletes ks c (others s)
  ]

  unfoldable pub hit_of : Outcome AdvancedError (Option T) → Option T
  hit_of (bad e) = none
  hit_of (good o) = o

  -- `locked` says whether `Lock` succeeds, and `others` is what happens to the server while it waits.
  unfoldable pub get_or_set :
      {E : Type 0}
      → Turn
      → Turn
      → Turn
      → Bool
      → (r.State → r.State)
      → Outcome E T
      → Str
      → Option ℕ
      → AdvancedCache
      → r.State
      → AdvancedCache × r.State × Outcome E T
  unfolding get hit_of set
  get_or_set first again writes locked others loaded key ttl c s =
      let (c1, o1) = get first key c s in
      elim (hit_of o1) [
        | some v ↦ (c1, s, good v)
        | none ↦
            if locked
            then (let (c2, o2) = get again key c1 (others s) in
                elim (hit_of o2) [
                  | some v ↦ (c2, others s, good v)
                  | none ↦ elim loaded [
                    | bad e ↦ (c2, others s, bad e)
                    | good v ↦
                        let (c3, s', _) = set writes key v ttl c2 (others s) in (c3, s', good v)
                  ]
                ])
            else (c1, others s, loaded)
      ]
