-- ===== src/Hot/Sharing.antt =====
-- hotkey.go: what one instance writes and another one loads.
use go_cachex.Base.{
  ℕ, ◌+◌, ◌*◌, ◌/◌, ◌≤◌, ◌<◌, ◌≡◌, ◌≢◌, refl, ap, ◌∙◌, true, false, none, some, List, [], arith,
  ite,
}
use go_cachex.Cache.{Str, second, dec_str}
use go_cachex.Redis.{Turn, delivered, Outcome, good}
use go_cachex.Table.{lookup, assign, lookup-assign}
use go_cachex.Hot.Server.{Texts, IsTexts}
use go_cachex.Hot.Defs.{Data, HotKeyCache, is_fresh, replace_local, put_local}
use go_cachex.Hot.Calls.{
  HotError, Json, cached, load_all, get_all, set, exists, after_load, is_some,
}
use go_cachex.Hot.Order.{lookup-copy_map}

-- What is relied on of JSON: a map is written as some text, and read back as the same map, perhaps in
-- another order.
pub record IsJson (V : Type 0) (json : Json V) : Type 0 where
  pub encode : Data V → Str
  pub encode_some : (m : Data V) → encode m ≢ []
  pub marshal_lem : (m : Data V) → json.marshal m ≡ some (encode m)
  pub reread : Data V → Data V
  pub unmarshal_lem : (m : Data V) → json.unmarshal (encode m) ≡ some (reread m)
  pub lookup-reread : (k : Str) (m : Data V) → lookup k (reread m) ≡ lookup k m

module _ (r : Texts) (laws : IsTexts r) (V E : Type 0) (json : Json V) (codec : IsJson V json) where
  set_served :
      (turn : Turn) (k : Str) (v : V) (h : HotKeyCache V) (s : r.State)
      → turn.net ≡ delivered
      → set r V E json turn (λ g. g) (λ s. s) k v h s ≡ (
        put_local V k v h,
        r.set_ex turn.at h.redis_key (codec.encode (assign k v h.local_cache)) h.default_ttl s,
        good tt,
      )
  unfolding set put_local
  set_served turn k v h s served = ground (arith, codec.marshal_lem (assign k v h.local_cache))

  cached_text :
      (turn : Turn) (m : Data V) (g : HotKeyCache V) (s : r.State)
      → turn.net ≡ delivered
      → r.value turn.at g.redis_key s ≡ some (codec.encode m)
      → cached r V E json turn g s ≡ some (codec.reread m)
  unfolding cached
  cached_text turn m g s served stored = ground (arith, codec.unmarshal_lem m, codec.encode_some m)

  load_cached :
      (reads writes : Turn) (others : r.State → r.State) (loaded : Outcome E (Data V)) (now : ℕ)
      (walk : Data V → List Str) (m : Data V) (g : HotKeyCache V) (s : r.State)
      → cached r V E json reads g s ≡ some m
      → load_all r V E json reads writes others loaded now walk g s
        ≡ (replace_local V walk m now g, s, good m)
  unfolding load_all
  load_cached reads writes others loaded now walk m g s found = ground arith

  -- A Set that is served replaces the whole map of Redis by the local copy of its instance with the new
  -- entry: whatever was there before, every instance that loads it during its time to live reads the
  -- new value for this key, and for any other key what the local copy of the writer had, or nothing.
  pub load_all-set :
      (turn reads writes : Turn) (others : r.State → r.State) (loaded : Outcome E (Data V))
      (now : ℕ) (walk : Data V → List Str) (k j : Str) (v : V) (h g : HotKeyCache V) (s : r.State)
      → turn.net ≡ delivered
      → reads.net ≡ delivered
      → turn.at ≤ reads.at
      → reads.at < turn.at + h.default_ttl / second * 1000
      → g.redis_key ≡ h.redis_key
      → let x = set r V E json turn (λ h. h) (λ s. s) k v h s in
        let y = load_all r V E json reads writes others loaded now walk g x.1 in
        (x.2 ≡ good tt)
        × (lookup j y.0.local_cache ≡ ite (dec_str j k) (some v) (lookup j h.local_cache))
  load_all-set turn reads writes others loaded now walk k j v h g s served answered later live key =
      let m = assign k v h.local_cache in
      let s' = r.set_ex turn.at h.redis_key (codec.encode m) h.default_ttl s in
      let shown = set_served turn k v h s served in
      let stored : r.value reads.at g.redis_key s' ≡ some (codec.encode m) =
        ap (λ i. r.value reads.at i s') key
        ∙ laws.value-set_ex turn.at reads.at h.redis_key (codec.encode m) h.default_ttl s later
            live in
      let loads =
        load_cached reads writes others loaded now walk (codec.reread m) g s'
          (cached_text reads m g s' answered stored) in
      let copied : lookup j (replace_local V walk (codec.reread m) now g).local_cache
          ≡ lookup j (codec.reread m) =
        unfold replace_local in lookup-copy_map V j (codec.reread m) in
      (
        ap (λ x. x.2) shown,
        ap
              (λ x.
                lookup j
                  (load_all r V E json reads writes others loaded now walk g x.1).0.local_cache)
              shown
            ∙ ap (λ y. lookup j y.0.local_cache) loads
            ∙ copied
            ∙ codec.lookup-reread j m
            ∙ lookup-assign j k v h.local_cache,
      )

  empty_load :
      (reads writes : Turn) (others : r.State → r.State) (now : ℕ) (walk : Data V → List Str)
      (h : HotKeyCache V) (s : r.State)
      → reads.net ≡ delivered
      → r.value reads.at h.redis_key s ≡ none
      → is_fresh now h.last_refresh_time h.refresh_interval ≡ false
      → get_all r V E json reads writes others (good []) now walk h s ≡ (h, others s, good [])
  unfolding get_all
  empty_load reads writes others now walk h s answered gone due = ground arith

  known :
      (y : HotKeyCache V × r.State × Outcome (HotError E) (Data V)) (s : r.State) (k : Str) (v : V)
      (h : HotKeyCache V)
      → y ≡ (h, s, good [])
      → lookup k h.local_cache ≡ some v
      → (after_load r V E json (λ g. g) (λ g. is_some (lookup k g.local_cache)) y).2 ≡ good true
  unfolding after_load
  known y s k v h shown here = rw (shown, here) refl

  -- When the source of the data is empty and Redis has nothing, an instance whose refresh is due keeps its
  -- old copy: GetAll returns an empty map, and Exists says of an old key that it exists.
  pub exists-gone :
      (reads writes : Turn) (others : r.State → r.State) (now : ℕ) (walk : Data V → List Str)
      (k : Str) (v : V) (h : HotKeyCache V) (s : r.State)
      → reads.net ≡ delivered
      → r.value reads.at h.redis_key s ≡ none
      → is_fresh now h.last_refresh_time h.refresh_interval ≡ false
      → lookup k h.local_cache ≡ some v
      → ((get_all r V E json reads writes others (good []) now walk h s).2 ≡ good [])
        × ((exists r V E json reads writes others (λ h. h) (good []) now walk k h s).2 ≡ good true)
  unfolding exists
  exists-gone reads writes others now walk k v h s answered gone due here =
      let shown = empty_load reads writes others now walk h s answered gone due in
      (
        ap (λ y. y.2) shown,
        known (get_all r V E json reads writes others (good []) now walk h s) (others s) k v h shown
            here,
      )
