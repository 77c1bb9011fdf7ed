-- ===== src/Optimized/Layout.antt =====
-- The constructor of lru_optimized.go: how many shards, how large, and that every key has one.
use Prim.Native.Nat.{bit_and, digits, bit_and-bitwise, min}
use go_cachex.Base.{
  ℕ, zero, suc, ◌+◌, ◌-◌, ◌*◌, ◌/◌, ◌^◌, ◌≤◌, ◌<◌, ◌≡◌, refl, ap, false, some, List, [], ◌∷◌, ◌&&◌,
  ltb, length, arith, Bool-cases, if_yes, if_no, inl, inr, ◌⊎◌, ℤ, dec_lt, lt→ltb, ℕ_discrete,
}
use native.Mathlib.Nat.{pow-suc, div-add-mod', mod-lt}
use go_cachex.Cache.{Str}
use go_cachex.Lru.{if_le_zero}
use go_cachex.Optimized.Defs.{Shard, new_shard}
use go_cachex.Optimized.Handler.{
  double_below, doublings, shard_limit, count_shards, capacity_of, new_optimized, replicate,
  shard_index, get_elem?, fast_hash, default_shard_capacity, default_shard_count,
}

-- The powers of two up to 256, by their exponents.
abbrev pub IsPower : ℕ → Type 0
IsPower c = (k : ℕ) × (k ≤ 8) × (c ≡ 2 ^ k)

below_eight : (k b : ℕ) → b ≤ 256 → k ≤ 8 → 2 ^ k < b → k < 8
below_eight k b h small less = elim (ℕ_discrete k 8) [
  | yes e ↦ absurd (omega (arith, ap (λ (j : ℕ). 2 ^ j) e))
  | no other ↦ omega arith
]

power_mono : (k d : ℕ) → 2 ^ k ≤ 2 ^ (d + k)
power_mono k zero = let e : zero + k ≡ k = omega arith in omega (arith, ap (λ (j : ℕ). 2 ^ j) e)
power_mono k (suc d) =
    let e : suc d + k ≡ suc (d + k) = omega arith in
    omega (arith, ap (λ (j : ℕ). 2 ^ j) e, pow-suc 2 (d + k), power_mono k d)

power_le : (k : ℕ) → k ≤ 8 → 2 ^ k ≤ 256
power_le k small =
    let e : 8 - k + k ≡ 8 = omega arith in
    omega (arith, power_mono k (8 - k), ap (λ (j : ℕ). 2 ^ j) e)

-- With enough fuel the loop stops by its own test, and doubles a power of two.
double_below_lem :
    (fuel a b k : ℕ)
    → b ≤ 256
    → k ≤ 8
    → 9 ≤ fuel + k
    → let c = double_below fuel a b (2 ^ k) in
      IsPower c × (ltb c a && ltb c b ≡ false) × (2 ^ k ≤ c)
unfolding double_below
double_below_lem zero a b k h small enough = absurd (omega arith)
double_below_lem (suc fuel) a b k h small enough =
    elim (Bool-cases (ltb (2 ^ k) a && ltb (2 ^ k) b)) [
      | inl more ↦
          let less : k < 8 = below_eight k b h small (ground arith) in
          let rest = double_below_lem fuel a b (suc k) h less (omega arith) in
          let (power, stops, grown) = rw (pow-suc 2 k) at rest in
          rw (if_yes (ltb (2 ^ k) a && ltb (2 ^ k) b) _ _ more) (power, stops, omega arith)
      | inr stop ↦
          rw (if_no (ltb (2 ^ k) a && ltb (2 ^ k) b) _ _ stop) ((k, small, refl), stop, omega arith)
    ]

shard_limit-le : (procs : ℕ) → shard_limit procs ≤ 256
unfolding shard_limit
shard_limit-le procs =
    let ((k, small, e), _, _) =
      double_below_lem doublings (4 * procs) 256 4 (omega arith) (omega arith) (omega arith) in
    rw e (power_le k small)

-- The constructor's loop ends within its fuel: its condition is false at the end, and the number of
-- shards is a power of two between 1 and 256.
pub count_shards-IsPower :
    (procs n : ℕ)
    → let c = count_shards procs n in
      IsPower c × (ltb c (n / default_shard_capacity) && ltb c (shard_limit procs) ≡ false)
unfolding count_shards
count_shards-IsPower procs n = elim (Bool-cases (ltb n default_shard_count)) [
  | inl few ↦ rw (if_yes (ltb n default_shard_count) _ _ few) (
      let r =
        double_below_lem doublings (n / default_shard_capacity) (shard_limit procs) 0
          (shard_limit-le procs) (omega arith) (omega arith) in
      (r.0, r.1))
  | inr many ↦ rw (if_no (ltb n default_shard_count) _ _ many) (
      let r =
        double_below_lem doublings (n / default_shard_capacity) (shard_limit procs) 4
          (shard_limit-le procs) (omega arith) (omega arith) in
      (r.0, r.1))
]

power_pos : (k : ℕ) → 0 < 2 ^ k
power_pos zero = omega arith
power_pos (suc k) = omega (arith, pow-suc 2 k, power_pos k)

-- For a positive number of shards, each has room for an entry, the shards together have room for all
-- the entries, and they waste less than one entry each unless there are none.
pub capacity_of_bounds :
    (n count : ℕ)
    → 0 < count
    → let c = capacity_of n count in (0 < c) × (n ≤ c * count) × ((n ≡ 0) ⊎ (c * count < n + count))
unfolding capacity_of
capacity_of_bounds n count h =
    let c = (n + count - 1) / count in
    let whole = div-add-mod' (n + count - 1) count in
    let rest = mod-lt (n + count - 1) h in
    elim (dec_lt c 1) [
      | yes small ↦
          let none_whole : c ≡ 0 = omega arith in
          let empty : n ≡ 0 = omega (arith, whole, rest, ap (λ (x : ℕ). x * count) none_whole) in
          rw (if_yes (ltb c 1) _ _ (lt→ltb c 1 small)) (omega arith, omega arith, inl empty)
      | no large ↦
          rw (if_no (ltb c 1) _ _ (ground arith))
            (omega arith, omega (arith, whole, rest), inr (omega (arith, whole, rest)))
    ]

-- The bits of a masked number are bits of the mask.
masked-le : (n a b : ℕ) → digits (λ x. zero) min n a b ≤ b
masked-le zero a b = omega arith
masked-le (suc n) zero b = omega arith
masked-le (suc n) (suc a) b = omega (arith, masked-le n (suc a / 2) (b / 2))

bit_and-le : (a b : ℕ) → bit_and a b ≤ b
bit_and-le a b = rw (bit_and-bitwise a b) (masked-le a a b)

length-replicate : (n : ℕ) (s : Shard) → length (replicate n s) ≡ n
length-replicate zero s = refl
length-replicate (suc n) s = ap suc (length-replicate n s)

get_elem?_of_lt :
    (ss : List Shard) (i : ℕ) → i < length ss → (s : Shard) × (get_elem? ss i ≡ some s)
get_elem?_of_lt [] i h = absurd (omega arith)
get_elem?_of_lt (s ∷ ss) zero h = (s, refl)
get_elem?_of_lt (s ∷ ss) (suc i) h = get_elem?_of_lt ss i (omega arith)

-- Every key has a shard: whatever the number of processors and the size asked for, the index that the
-- mask leaves of the hash is within the shards of a new handler.
pub shard_index-in_range :
    (procs : ℕ) (n : ℤ) (k : Str)
    → let h = new_optimized procs n in
      (shard_index h k < h.shard_count)
      × ((s : Shard) × (get_elem? h.shards (shard_index h k) ≡ some s))
unfolding new_optimized shard_index
shard_index-in_range procs n k =
    let m = if_le_zero n (default_shard_capacity * default_shard_count) in
    let count = count_shards procs m in
    let ((e, small, power), _) = count_shards-IsPower procs m in
    let some_shard : 0 < count = omega (arith, power, power_pos e) in
    let masked = bit_and-le (fast_hash k) (count - 1) in
    let made = length-replicate count (new_shard (capacity_of m count)) in
    (
      omega (arith, masked),
      get_elem?_of_lt (replicate count (new_shard (capacity_of m count)))
          (bit_and (fast_hash k) (count - 1)) (omega (arith, masked, made)),
    )
