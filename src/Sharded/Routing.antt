-- ===== src/Sharded/Routing.antt =====
-- A `ShardedHandler` is reliable if its shards are.
use go_cachex.Base.{
  some_eq, ℕ, zero, suc, ◌^◌, ◌<◌, ◌≡◌, ◌≢◌, refl, ap, sym, ◌∙◌, some, List, [], ◌∷◌, length, arith,
  ite, ℕ_discrete,
}
use mathlib.Core.Path.{subst}
use native.Mathlib.Nat.{mod-lt, mod-eq_of_lt}
use go_cachex.Cache.{Result, ok, Str, Slice, to_string}
use go_cachex.Handler.{Handler, IsReliable}
use go_cachex.Optimized.{fast_hash}
use go_cachex.Sharded.Defs.{Sharded, nth, put_nth, shard_for, forward, get, set_forever}

module _ {ℓ} {A : Type ℓ} where
  nth-put_nth :
      (xs : List A) (i j : ℕ) (y : A)
      → i < length xs
      → nth (put_nth xs i y) j ≡ ite (ℕ_discrete i j) (some y) (nth xs j)
  nth-put_nth [] i j y h = absurd (omega arith)
  nth-put_nth (x ∷ xs) zero zero y h = ground arith
  nth-put_nth (x ∷ xs) zero (suc j) y h = ground arith
  nth-put_nth (x ∷ xs) (suc i) zero y h = ground arith
  nth-put_nth (x ∷ xs) (suc i) (suc j) y h = ground (arith, nth-put_nth xs i j y)

  nth-put_nth_at :
      (xs : List A) (i j : ℕ) (y : A) → i < length xs → i ≡ j → nth (put_nth xs i y) j ≡ some y
  nth-put_nth_at xs i j y h e = ground (arith, nth-put_nth xs i j y h)

  nth-put_nth_ne :
      (xs : List A) (i j : ℕ) (y : A) → i < length xs → i ≢ j → nth (put_nth xs i y) j ≡ nth xs j
  nth-put_nth_ne xs i j y h e = ground (arith, nth-put_nth xs i j y h)

  nth_lt : (xs : List A) (i : ℕ) → i < length xs → (x : A) × (nth xs i ≡ some x)
  nth_lt [] i h = absurd (omega arith)
  nth_lt (x ∷ xs) zero h = (x, refl)
  nth_lt (x ∷ xs) (suc i) h = nth_lt xs i (omega arith)

  length-put_nth : (xs : List A) (i : ℕ) (y : A) → length (put_nth xs i y) ≡ length xs
  length-put_nth [] i y = refl
  length-put_nth (x ∷ xs) zero y = refl
  length-put_nth (x ∷ xs) (suc i) y = ap suc (length-put_nth xs i y)

-- As many shards as `n` says, at least one, and fewer than 2 ^ 32; every shard is ready.
pub record IsReady (a : Handler) (r : IsReliable a) (h : Sharded a) : Type 0 where
  pub counted : length h.shards ≡ h.n
  pub positive : 0 < h.n
  pub small : h.n < 2 ^ 32
  pub each : (i : ℕ) (s : a.State) → nth h.shards i ≡ some s → r.Ready s

shard_for-lt :
    (a : Handler) (r : IsReliable a) (h : Sharded a) (key : Slice)
    → IsReady a r h
    → shard_for a h key < length h.shards
unfolding shard_for
shard_for-lt a r h key v =
    let cut = mod-eq_of_lt v.small in
    let kept = mod-lt (fast_hash (to_string key)) v.positive in
    rw cut (omega (arith, v.counted, kept))

forward_lem {ℓ} :
    (a : Handler) {A : Type ℓ} (f : a.State → a.State × Result A) (key : Slice) (h : Sharded a)
    → (s : a.State) → nth h.shards (shard_for a h key) ≡ some s
    → forward a key f h
      ≡ (record h { shards = put_nth h.shards (shard_for a h key) (f s).0 }, (f s).1)
unfolding forward
forward_lem a f key h s at = rw (at, forward) refl

-- Over reliable shards, `Set` of a value that fits succeeds, the key then reads back, and every shard is
-- ready for the next call, whatever shard the hash chooses.
pub set_forever-IsReady :
    (a : Handler) (r : IsReliable a) (now t : ℕ) (k v : Str) (h : Sharded a)
    → IsReady a r h
    → r.Fits v
    → let x = set_forever a now (some k) (some v) h in
      IsReady a r x.0 × (x.1 ≡ ok tt) × ((get a t (some k) x.0).1 ≡ ok (some v))
unfolding set_forever get shard_for
set_forever-IsReady a r now t k v h ready fits =
    let i = shard_for a h (some k) in
    let below = shard_for-lt a r h (some k) ready in
    let (s, at) = nth_lt h.shards i below in
    let s' = (a.set_forever now (some k) (some v) s).0 in
    let good = r.set_ready now k v s (ready.each i s at) fits in
    let h' : Sharded a = record h { shards = put_nth h.shards i s' } in
    let back = nth-put_nth h.shards i i s' below in
    let kept : nth h'.shards i ≡ some s' = ground (arith, back) in
    rw (forward_lem a (a.set_forever now (some k) (some v)) (some k) h s at) (
      record {
        counted = length-put_nth h.shards i s' ∙ ready.counted;
        positive = ready.positive;
        small = ready.small;
        each = λ j u e. elim (ℕ_discrete i j) [
          | yes here ↦
              subst r.Ready (some_eq (sym (nth-put_nth_at h.shards i j s' below here) ∙ e)) good
          | no there ↦ ready.each j u (sym (nth-put_nth_ne h.shards i j s' below there) ∙ e)
        ];
      },
      r.set_ok now k v s (ready.each i s at) fits,
      rw (forward_lem a (a.get t (some k)) (some k) h' s' kept)
          (r.get-set now t k v s (ready.each i s at) fits),
    )
