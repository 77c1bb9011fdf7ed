-- ===== src/Sharded/Defs.antt =====
-- sharded.go: the definitions apart from `BatchGet`. `Stats` is not modelled.
use go_cachex.Base.{ℕ, zero, suc, ◌%◌, ◌^◌, Option, none, some, List, [], ◌∷◌, ℤ}
use go_cachex.Cache.{Error, Result, err, panic, Slice, to_string}
use go_cachex.Handler.{Handler}
use go_cachex.Lru.{if_le_zero}
use go_cachex.Optimized.{fast_hash}

module _ {ℓ} {A : Type ℓ} where
  abbrev pub nth : List A → ℕ → Option A
  nth [] i = none
  nth (x ∷ xs) zero = some x
  nth (x ∷ xs) (suc i) = nth xs i

  abbrev pub put_nth : List A → ℕ → A → List A
  put_nth [] i y = []
  put_nth (x ∷ xs) zero y = y ∷ xs
  put_nth (x ∷ xs) (suc i) y = x ∷ put_nth xs i y

  abbrev pub replicate : ℕ → A → List A
  replicate zero x = []
  replicate (suc n) x = x ∷ replicate n x

module _ (a : Handler) where
  pub record Sharded : Type 0 where
    pub shards : List a.State
    pub n : ℕ

  -- `factory` gives every shard the same first state.
  unfoldable pub new_sharded : a.State → ℤ → Sharded
  unfolding if_le_zero
  new_sharded factory shards =
      let n = if_le_zero shards 16 in record { shards = replicate n factory; n = n }

  -- The index of `shardFor`; `uint32(h.n)` cuts the number of shards to 32 bits.
  unfoldable pub shard_for : Sharded → Slice → ℕ
  shard_for h key = fast_hash (to_string key) % (h.n % 2 ^ 32)

  -- A method of the key's shard; an index out of range would panic.
  unfoldable pub forward {ℓ} :
      {A : Type ℓ} → Slice → (a.State → a.State × Result A) → Sharded → Sharded × Result A
  forward key f h = elim (nth h.shards (shard_for h key)) [
    | none ↦ (h, err panic)
    | some s ↦ let (s', r) = f s in (record h { shards = put_nth h.shards (shard_for h key) s' }, r)
  ]

  unfoldable pub get : ℕ → Slice → Sharded → Sharded × Result Slice
  unfolding forward
  get now key = forward key (a.get now key)

  unfoldable pub get_ttl : ℕ → Slice → Sharded → Sharded × Result ℤ
  unfolding forward
  get_ttl now key = forward key (a.get_ttl now key)

  unfoldable pub set_forever : ℕ → Slice → Slice → Sharded → Sharded × Result (Unit {0})
  unfolding forward
  set_forever now key value = forward key (a.set_forever now key value)

  unfoldable pub set_with_ttl : ℕ → Slice → Slice → ℤ → Sharded → Sharded × Result (Unit {0})
  unfolding forward
  set_with_ttl now key value ttl = forward key (a.set_with_ttl now key value ttl)

  unfoldable pub del : Slice → Sharded → Sharded × Result (Unit {0})
  unfolding forward
  del key = forward key (a.del key)

  unfoldable pub get_or_compute :
      ℕ → ℕ → Slice → ℤ → Option Error → Result Slice → Sharded → Sharded × Result Slice
  unfolding forward
  get_or_compute now later key ttl ctx_err loader =
      forward key (a.get_or_compute now later key ttl ctx_err loader)

  -- `Close` closes every shard and keeps the last error.
  unfoldable pub close_all : List a.State → Option Error → List a.State × Option Error
  close_all [] last = ([], last)
  close_all (s ∷ ss) last =
      let (s', e) = a.close s in
      let (ss', final) = close_all ss (elim e [ none ↦ last | some x ↦ some x ]) in
      (s' ∷ ss', final)

  unfoldable pub close : Sharded → Sharded × Option Error
  unfolding close_all
  close h = let (ss, e) = close_all h.shards none in (record h { shards = ss }, e)
