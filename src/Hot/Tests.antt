-- ===== src/Hot/Tests.antt =====
-- hotkey.go over a server in memory, with bytes as values, and a text that holds keys of one byte.
use go_cachex.Base.{
  ℕ, zero, suc, ap, ◌∙◌, ◌+◌, ◌≡◌, ◌≢◌, refl, true, false, none, some, List, [], ◌∷◌, length, ite,
  pos, arith, if◌then◌else◌, leb,
}
use go_cachex.Cache.{Str, dec_str}
use go_cachex.Redis.{Turn, delivered, good}
use go_cachex.Table.{lookup}
use go_cachex.Hot.Server.{Store, memory, memory_texts, read}
use go_cachex.Hot.Defs.{
  Data, HotKeyCache, HotKeyConfig, new_hot_key_cache, is_fresh, share_to_evict, cleanup_tick,
}
use go_cachex.Hot.Calls.{Json, load_all, get_all, set, exists}
use go_cachex.Hot.Manager.{manager_config, apply_options, with_hot_key_namespace}
use go_cachex.Hot.Sweeps.{Change, puts, deletes, ticks, change_all, cleanup_tick-evicts}
use go_cachex.Hot.Sharing.{IsJson, load_all-set, exists-gone}

abbrev with_key : Str → ℕ → Str → Str
with_key [] v rest = 0 ∷ v ∷ rest
with_key (c ∷ k) v rest = suc c ∷ with_key k v rest

abbrev encode : Data ℕ → Str
encode [] = 0 ∷ []
encode ((k, v) ∷ m) = with_key k v (encode m)

abbrev longer : ℕ → Data ℕ → Data ℕ
longer c [] = []
longer c ((k, v) ∷ m) = (c ∷ k, v) ∷ m

unfoldable decode : Str → Data ℕ
decode [] = []
decode (zero ∷ []) = []
decode (zero ∷ v ∷ rest) = ([], v) ∷ decode rest
decode (suc c ∷ rest) = longer c (decode rest)

decode-with_key : (k : Str) (v : ℕ) (rest : Str) → decode (with_key k v rest) ≡ (k, v) ∷ decode rest
unfolding decode
decode-with_key [] v rest = refl
decode-with_key (c ∷ k) v rest = ap (longer c) (decode-with_key k v rest)

decode-encode : (m : Data ℕ) → decode (encode m) ≡ m
unfolding decode
decode-encode [] = refl
decode-encode ((k, v) ∷ m) = decode-with_key k v (encode m) ∙ ap (λ l. (k, v) ∷ l) (decode-encode m)

with_key_some : (k : Str) (v : ℕ) (rest : Str) → with_key k v rest ≢ []
with_key_some [] v rest e = ground arith
with_key_some (c ∷ k) v rest e = ground arith

encode_some : (m : Data ℕ) → encode m ≢ []
encode_some [] e = ground arith
encode_some ((k, v) ∷ m) e = with_key_some k v (encode m) e

abbrev json : Json ℕ
json = record { marshal = λ m. some (encode m); unmarshal = λ t. some (decode t) }

abbrev json-IsJson : IsJson ℕ json
json-IsJson = record {
  encode = encode;
  encode_some = encode_some;
  marshal_lem = λ m. refl;
  reread = λ m. m;
  unmarshal_lem = λ m. ap some (decode-encode m);
  lookup-reread = λ k m. refl;
}

abbrev key_1 : Str
key_1 = 1 ∷ []

abbrev key_2 : Str
key_2 = 2 ∷ []

abbrev key_3 : Str
key_3 = 3 ∷ []

abbrev small : HotKeyConfig
small = record manager_config { max_local_cache_size = pos 2 }

renamed : (apply_options (with_hot_key_namespace key_1 ∷ []) manager_config).namespace ≡ key_1
unfolding apply_options
renamed = refl

abbrev changes : List (Change ℕ)
changes = puts key_1 10 ∷ puts key_2 20 ∷ deletes key_1 ∷ puts key_1 30 ∷ puts key_3 40 ∷ ticks ∷ []

cleanup_tick-evicts_example :
    let h = change_all ℕ changes (new_hot_key_cache ℕ key_1 small) in
    let n = length h.local_cache in
    length (cleanup_tick ℕ h).local_cache
      + (if leb n h.max_local_cache_size then 0 else share_to_evict n)
    ≡ n
cleanup_tick-evicts_example =
    cleanup_tick-evicts ℕ key_1 small changes (tt, (tt, (tt, (tt, (tt, (tt, tt))))))

abbrev full : HotKeyCache ℕ
full = record {
  default_ttl = 60_000_000_000;
  refresh_interval = pos 5;
  enable_auto_refresh = false;
  max_local_cache_size = 2;
  key_name = key_1;
  redis_key = key_2;
  local_cache = (key_1, 10) ∷ (key_2, 20) ∷ (key_3, 30) ∷ [];
  access_order = key_1 ∷ key_2 ∷ key_3 ∷ [];
  last_refresh_time = 0;
  stopped = false;
}

abbrev served : Turn
served = record { net = delivered; at = 7 }

abbrev empty : Store
empty = []

abbrev fresh : HotKeyCache ℕ
fresh = record full { local_cache = []; access_order = [] }

load_all-set_example :
    let x = set memory ℕ Str json served (λ h. h) (λ s. s) key_1 50 fresh empty in
    let y = load_all memory ℕ Str json served served (λ s. s) (good []) 9 (λ m. []) full x.1 in
    (x.2 ≡ good tt)
    × (lookup key_2 y.0.local_cache
        ≡ ite (dec_str key_2 key_1) (some 50) (lookup key_2 fresh.local_cache))
load_all-set_example =
    load_all-set memory memory_texts ℕ Str json json-IsJson served served served (λ s. s) (good [])
      9 (λ m. []) key_1 key_2 50 fresh full empty refl refl (omega arith) (omega arith) refl

nothing_there : read 7 key_2 empty ≡ none
unfolding read
nothing_there = refl

due : is_fresh 9 0 (pos 5) ≡ false
unfolding is_fresh
due = refl

here : lookup key_1 full.local_cache ≡ some 10
unfolding lookup dec_str
here = refl

exists-gone_example :
    ((get_all memory ℕ Str json served served (λ s. s) (good []) 9 (λ m. []) full empty).2
      ≡ good [])
    × ((exists memory ℕ Str json served served
          (λ s. s)
          (λ h. h)
          (good [])
          9
          (λ m. [])
          key_1
          full
          empty).2
        ≡ good true)
exists-gone_example =
    exists-gone memory memory_texts ℕ Str json json-IsJson served served (λ s. s) 9 (λ m. []) key_1
      10 full empty refl nothing_there due here
