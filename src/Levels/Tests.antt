-- ===== src/Levels/Tests.antt =====
-- advanced_cache.go and multi_level_cache.go over a server in memory, with numbers as values.
use go_cachex.Base.{
  ℕ, zero, suc, ◌<◌, ◌+◌, ◌*◌, ◌/◌, ◌≡◌, ◌≢◌, refl, sym, ap, ◌∙◌, inl, inr, Bool, true, false,
  Option, none, some, List, [], ◌∷◌, ◌++◌, ◌==◌, if◌then◌else◌, pos, codes, arith, some_eq,
  Bool-cases, if_yes, if_no,
}
use mathlib.Core.Path.{subst}
use go_cachex.Cache.{Str, second}
use go_cachex.Lru.{new_lru}
use go_cachex.Redis.{Turn, delivered, good}
use go_cachex.Handler.LruHandler.{lru_handler}
use go_cachex.Table.{delete, lookup-delete}
use go_cachex.Hot.Server.{Store, read, write, memory_texts}
use go_cachex.Levels.Server.{Server, IsServer, IsListed, IsPlain}
use go_cachex.Levels.Advanced
use go_cachex.Levels.Advanced.{
  AdvancedCache, AdvancedCacheConfig, Formats, get_key, compress, new_advanced_cache, store_text,
}
use go_cachex.Levels.Multi
use go_cachex.Levels.Multi.{MultiLevelCache, hit_rate_of}
use go_cachex.Levels.Laws.{IsFormats, get-set}
use go_cachex.Levels.Clears.{clear-leaves_l2}

-- A pattern in which only a `*` at the end is special.
unfoldable glob : Str → Str → Bool
glob [] [] = true
glob [] (_ ∷ _) = false
glob (c ∷ []) [] = if c == b'*' then true else false
glob (c ∷ d ∷ p) [] = false
glob (c ∷ []) (e ∷ k) = if c == b'*' then true else if c == e then glob [] k else false
glob (c ∷ d ∷ p) (e ∷ k) = let rest = glob (d ∷ p) k in if c == e then rest else false

unfoldable matching : Str → Store → List Str
unfolding glob
matching p [] = []
matching p ((k, c) ∷ m) = let rest = matching p m in if glob p k then k ∷ rest else rest

unfoldable delete_each : List Str → Store → Store
delete_each [] m = m
delete_each (k ∷ ks) m = delete_each ks (delete k m)

abbrev server : Server
server = record {
  State = Store;
  value = read;
  set_ex = write;
  del = λ now ks m. delete_each ks m;
  exists = λ now ks m. 0;
  keys = λ now p m. matching p m;
}

read-delete_other : (t : ℕ) (k j : Str) (m : Store) → k ≢ j → read t k (delete j m) ≡ read t k m
unfolding read
read-delete_other t k j m ne = ground (arith, lookup-delete k j m)

delete_each_other :
    (t : ℕ) (k : Str) (ks : List Str) (m : Store)
    → (IsListed k ks → ⊥)
    → read t k (delete_each ks m) ≡ read t k m
unfolding delete_each
delete_each_other t k [] m h = refl
delete_each_other t k (j ∷ ks) m h =
    delete_each_other t k ks (delete j m) (λ l. h (inr l))
    ∙ read-delete_other t k j m (λ e. h (inl e))

glob_begins :
    (p k : Str) → IsPlain p → glob (p ++ b'*' ∷ []) k ≡ true → (rest : Str) × (k ≡ p ++ rest)
unfolding glob
glob_begins [] k pure h = (k, refl)
glob_begins (c ∷ []) [] pure h = absurd (ground arith)
glob_begins (c ∷ d ∷ p) [] pure h = absurd (ground arith)
glob_begins (c ∷ []) (e ∷ k) pure h = (k, ground arith)
glob_begins (c ∷ d ∷ p) (e ∷ k) (_, _, _, _, pure) h =
    let (rest, begins) = glob_begins (d ∷ p) k pure (ground arith) in (rest, ground arith)

matching_begins :
    (p k : Str) (m : Store)
    → IsPlain p
    → IsListed k (matching (p ++ b'*' ∷ []) m)
    → (rest : Str) × (k ≡ p ++ rest)
unfolding matching
matching_begins p k [] pure h = absurd h
matching_begins p k ((j, c) ∷ m) pure h = elim (Bool-cases (glob (p ++ b'*' ∷ []) j)) [
  | inl yes_ ↦
      elim (subst (IsListed k)
        (if_yes _ (j ∷ matching (p ++ b'*' ∷ []) m) (matching (p ++ b'*' ∷ []) m) yes_) h) [
          | inl e ↦ let (rest, begins) = glob_begins p j pure yes_ in (rest, e ∙ begins)
          | inr later ↦ matching_begins p k m pure later
        ]
  | inr no_ ↦ matching_begins p k m pure (
      subst (IsListed k)
        (if_no _ (j ∷ matching (p ++ b'*' ∷ []) m) (matching (p ++ b'*' ∷ []) m) no_) h)
]

server-IsServer : IsServer server
server-IsServer = record {
  value-set_ex = memory_texts.value-set_ex;
  del_other = λ now t k ks m h. delete_each_other t k ks m h;
  keys_begin = λ now p k m pure h. matching_begins p k m pure h;
}

abbrev marshal : ℕ → Option Str
marshal n = some (0 ∷ n ∷ [])

abbrev unmarshal : Str → Option ℕ
unmarshal (zero ∷ n ∷ []) = some n
unmarshal _ = none

abbrev gunzip : Str → Option Str
gunzip (suc _ ∷ d) = some d
gunzip _ = none

abbrev formats : Formats ℕ
formats = record {
  marshal = marshal;
  unmarshal = unmarshal;
  gzip = λ d. some (1 ∷ d);
  gunzip = gunzip;
}

formats-IsFormats : IsFormats ℕ formats
formats-IsFormats = record {
  encode = λ n. 0 ∷ n ∷ [];
  marshal_lem = λ n. refl;
  unmarshal_lem = λ n. refl;
  gunzip_lem = λ d z e. ap gunzip (sym (some_eq e));
  gunzip_plain = λ n. refl;
}

abbrev config : AdvancedCacheConfig
config = record {
  no_compression = false;
  min_size_for_compress = pos 1;
  default_ttl = 60_000_000_000;
  namespace = codes "n";
  enable_metrics = true;
}

abbrev served : Turn
served = record { net = delivered; at = 7 }

abbrev cache : AdvancedCache
cache = new_advanced_cache config

abbrev empty : Store
empty = []

set_works : (Advanced.set server ℕ formats served (codes "k") 5 none cache empty).2 ≡ good tt
unfolding Advanced.set compress store_text new_advanced_cache
set_works = refl

rate : hit_rate_of 1 1 2 ≡ 50
unfolding hit_rate_of
rate = refl

ttl_lasts : 7 < 7 + cache.config.default_ttl / second * 1000
unfolding new_advanced_cache
ttl_lasts = omega arith

get-set_example :
    (Advanced.get server ℕ formats served
      (codes "k")
      cache
      (Advanced.set server ℕ formats served (codes "k") 5 none cache empty).1).1
    ≡ good (some 5)
get-set_example =
    get-set server server-IsServer ℕ formats formats-IsFormats served served (codes "k") 5 none
      cache cache empty refl refl refl (omega arith) ttl_lasts set_works

abbrev levels : MultiLevelCache lru_handler server ℕ Str formats
levels = record {
  namespace = codes "n";
  l1_ttl = 5;
  l2_ttl = 5;
  near = new_lru (pos 3);
  far = record cache { config = config };
  stats = record { l1_hits = 0; l2_hits = 0; misses = 0; l1_sets = 0; l2_sets = 0 };
}

abbrev stored : Store
stored = (codes "n:k", record { content = 0 ∷ 5 ∷ []; until = 9 }) ∷ []

IsPlain-key : IsPlain (get_key levels.far levels.namespace)
unfolding get_key
IsPlain-key = ground arith

clear-leaves_l2_example :
    let y =
      Multi.clear lru_handler server ℕ Str formats
        (λ s. new_lru (pos 3))
        served
        served
        (λ s. s)
        levels
        stored in
    server.value 8 (get_key levels.far (codes "k")) y.1
    ≡ server.value 8 (get_key levels.far (codes "k")) stored
clear-leaves_l2_example =
    clear-leaves_l2 server server-IsServer ℕ formats lru_handler Str 8 (λ s. new_lru (pos 3)) served
      served levels (codes "k") stored IsPlain-key (λ rest e. ground arith)
