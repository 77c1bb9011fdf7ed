-- ===== src/Levels/Laws.antt =====
-- advanced_cache.go: what is stored is read back.
use go_cachex.Base.{
  ℕ, ◌+◌, ◌*◌, ◌/◌, ◌≤◌, ◌<◌, ◌≡◌, ◌≢◌, refl, sym, ap, ◌∙◌, inl, inr, Bool, true, false, ◌||◌,
  Option, none, some, ◌∷◌, ◌++◌, length, arith, Bool-cases, Option-cases, if_yes, some_eq,
}
use go_cachex.Cache.{Str, second}
use go_cachex.Redis.{Turn, delivered, good}
use go_cachex.Levels.Server.{Server, IsServer}
use go_cachex.Levels.Advanced
use go_cachex.Levels.Advanced.{
  AdvancedCache, AdvancedCacheConfig, Formats, get_key, compress, decompress, store_text, read_text,
  is_short, or_default, trim_prefix,
}

-- What is relied on of JSON and gzip: a value comes back from its text, a compressed text comes back, and
-- the text of a value is not what gzip writes.
pub record IsFormats (T : Type 0) (f : Formats T) : Type 0 where
  pub encode : T → Str
  pub marshal_lem : (v : T) → f.marshal v ≡ some (encode v)
  pub unmarshal_lem : (v : T) → f.unmarshal (encode v) ≡ some v
  pub gunzip_lem : (d z : Str) → f.gzip d ≡ some z → f.gunzip z ≡ some d
  pub gunzip_plain : (v : T) → f.gunzip (encode v) ≡ none

module _ (r : Server) (laws : IsServer r) (T : Type 0) (f : Formats T) (codec : IsFormats T f) where
  plain :
      (c : AdvancedCache) (d : Str)
      → (c.config.no_compression || is_short (length d) c.config.min_size_for_compress) ≡ true
      → compress r T f c d ≡ (c, some d)
  unfolding compress
  plain c d h = if_yes _ _ _ h

  zipped :
      (c : AdvancedCache) (d z : Str)
      → (c.config.no_compression || is_short (length d) c.config.min_size_for_compress) ≡ false
      → (compress r T f c d).1 ≡ some z
      → f.gzip d ≡ some z
  unfolding compress
  zipped c d z h stored = elim (Option-cases (f.gzip d)) [
    | inl fails ↦ absurd (ground (arith, h))
    | inr (w, works) ↦ ground (arith, h)
  ]

  unzipped :
      (c : AdvancedCache) (d z : Str)
      → c.config.no_compression ≡ false
      → f.gunzip z ≡ some d
      → (decompress r T f c z).1 ≡ d
  unfolding decompress
  unzipped c d z on h = ground arith

  as_it_is : (c : AdvancedCache) (z : Str) → f.gunzip z ≡ none → (decompress r T f c z).1 ≡ z
  unfolding decompress
  as_it_is c z h = ground arith

  or_right : (a b : Bool) → (a || b) ≡ false → a ≡ false
  or_right false b h = refl
  or_right true b h = h

  decompress-compress :
      (c g : AdvancedCache) (v : T) (z : Str)
      → g.config ≡ c.config
      → (compress r T f c (codec.encode v)).1 ≡ some z
      → (decompress r T f g z).1 ≡ codec.encode v
  decompress-compress c g v z same stored =
      let d = codec.encode v in
      elim (Bool-cases
        (c.config.no_compression || is_short (length d) c.config.min_size_for_compress)) [
          | inl off ↦
              let e : d ≡ z = some_eq (sym (ap (λ y. y.1) (plain c d off)) ∙ stored) in
              as_it_is g z (ap f.gunzip (sym e) ∙ codec.gunzip_plain v) ∙ sym e
          | inr on ↦
              unzipped g d z (ap (λ k. k.no_compression) same ∙ or_right _ _ on)
                (codec.gunzip_lem d z (zipped c d z on stored))
        ]

  compress-config : (c : AdvancedCache) (d : Str) → (compress r T f c d).0.config ≡ c.config
  unfolding compress
  compress-config c d = ground arith

  store_served :
      (turn : Turn) (key : Str) (n : ℕ) (z : Str) (c : AdvancedCache) (s : r.State)
      → turn.net ≡ delivered
      → (store_text r T f turn key n z c s).1 ≡ r.set_ex turn.at (get_key c key) z n s
  unfolding store_text
  store_served turn key n z c s served = ground arith

  set_packed :
      (turn : Turn) (key z : Str) (v : T) (ttl : Option ℕ) (c : AdvancedCache) (s : r.State)
      → (compress r T f c (codec.encode v)).1 ≡ some z
      → Advanced.set r T f turn key v ttl c s
        ≡ store_text r T f turn key
            (or_default ttl c.config.default_ttl)
            z
            (compress r T f c (codec.encode v)).0
            s
  unfolding Advanced.set
  set_packed turn key z v ttl c s packed = ground (arith, codec.marshal_lem v)

  set_unpacked :
      (turn : Turn) (key : Str) (v : T) (ttl : Option ℕ) (c : AdvancedCache) (s : r.State)
      → (compress r T f c (codec.encode v)).1 ≡ none
      → (Advanced.set r T f turn key v ttl c s).2 ≢ good tt
  unfolding Advanced.set
  set_unpacked turn key v ttl c s fails fine = ground (arith, codec.marshal_lem v)

  set_stores :
      (turn : Turn) (key : Str) (v : T) (ttl : Option ℕ) (c : AdvancedCache) (s : r.State)
      → turn.net ≡ delivered
      → (Advanced.set r T f turn key v ttl c s).2 ≡ good tt
      → (z : Str) × ((compress r T f c (codec.encode v)).1 ≡ some z)
        × ((Advanced.set r T f turn key v ttl c s).1
            ≡ r.set_ex turn.at (get_key c key) z (or_default ttl c.config.default_ttl) s)
  set_stores turn key v ttl c s served fine =
      elim (Option-cases (compress r T f c (codec.encode v)).1) [
        | inl fails ↦ absurd (set_unpacked turn key v ttl c s fails fine)
        | inr (z, packed) ↦
            let c' = (compress r T f c (codec.encode v)).0 in
            let n = or_default ttl c.config.default_ttl in
            let same : get_key c' key ≡ get_key c key =
              unfold get_key in
              ap (λ k. k.namespace ++ (b':' ∷ key)) (compress-config c (codec.encode v)) in
            (
              z,
              packed,
              ap (λ y. y.1) (set_packed turn key z v ttl c s packed)
                  ∙ store_served turn key n z c' s served
                  ∙ ap (λ k. r.set_ex turn.at k z n s) same,
            )
      ]

  get_reads :
      (turn : Turn) (key z : Str) (v : T) (c : AdvancedCache) (s : r.State)
      → turn.net ≡ delivered
      → r.value turn.at (get_key c key) s ≡ some z
      → (decompress r T f c z).1 ≡ codec.encode v
      → (Advanced.get r T f turn key c s).1 ≡ good (some v)
  unfolding Advanced.get read_text
  get_reads turn key z v c s served stored opened = ground (arith, codec.unmarshal_lem v)

  -- With any compression and any limit below which a text is not compressed: after a Set that reports no
  -- error, a Get of any instance with the same configuration during the time to live returns the value.
  pub get-set :
      (turn reads : Turn) (key : Str) (v : T) (ttl : Option ℕ) (c g : AdvancedCache) (s : r.State)
      → turn.net ≡ delivered
      → reads.net ≡ delivered
      → g.config ≡ c.config
      → turn.at ≤ reads.at
      → reads.at < turn.at + or_default ttl c.config.default_ttl / second * 1000
      → (Advanced.set r T f turn key v ttl c s).2 ≡ good tt
      → (Advanced.get r T f reads key g (Advanced.set r T f turn key v ttl c s).1).1 ≡ good (some v)
  get-set turn reads key v ttl c g s served answered same later live fine =
      let (z, packed, stored) = set_stores turn key v ttl c s served fine in
      let k_eq : get_key g key ≡ get_key c key =
        unfold get_key in ap (λ k. k.namespace ++ (b':' ∷ key)) same in
      get_reads reads key z v g (Advanced.set r T f turn key v ttl c s).1 answered
        (ap (λ w. r.value reads.at (get_key g key) w) stored
          ∙ ap
              (λ k.
                r.value reads.at k
                  (r.set_ex turn.at (get_key c key) z (or_default ttl c.config.default_ttl) s))
              k_eq
          ∙ laws.value-set_ex turn.at reads.at (get_key c key) z
              (or_default ttl c.config.default_ttl) s later live)
        (decompress-compress c g v z same packed)
