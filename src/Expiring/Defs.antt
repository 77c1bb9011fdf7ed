-- ===== src/Expiring/Defs.antt =====
-- expiring.go: the definitions.
use go_cachex.Base.{
  ℕ, zero, suc, ◌+◌, ◌-◌, ◌*◌, Bool, true, false, Option, none, some, List, [], ◌∷◌, ltb, ◌==◌,
  if◌then◌else◌, ℤ, pos, negsuc, sub_ℕ, length, map,
}
use go_cachex.Cache.{
  Error, Result, ok, err, not_found, closed, invalid_key, Str, Slice, to_string, second, is_zero,
  after, is_expired, validate_basic_op, validate_write_with_ttl_op,
}
use go_cachex.Table.{lookup, delete, assign}

pub record Item : Type 0 where
  pub val : Slice
  pub expiry : ℕ

pub record Expiring : Type 0 where
  pub items : List (Str × Item)
  pub is_closed : Bool

unfoldable pub new_expiring : Expiring
new_expiring = record { items = []; is_closed = false }

abbrev pub sweep_sample_size : ℕ
sweep_sample_size = 256

abbrev pub sweep_max_rounds : ℕ
sweep_max_rounds = 16

abbrev pub sweep_budget : ℕ
sweep_budget = 2_000_000

abbrev pub sweep_continue_ratio : ℕ
sweep_continue_ratio = 4

-- `if !it.expiry.IsZero() && now.After(it.expiry) { delete(h.items, k); expired++ }`; the second
-- part of the result is what is added to `expired`.
unfoldable pub sweep_key : ℕ → Str → List (Str × Item) → List (Str × Item) × ℕ
sweep_key now k m = elim (lookup k m) [
  | none ↦ (m, 0)
  | some it ↦ if is_expired it.expiry now then (delete k m, 1) else (m, 0)
]

-- `sweepSample`: at most `limit` keys in the order of the iteration. The results are the map, the
-- number of keys scanned and the number deleted.
unfoldable pub sweep_sample : ℕ → ℕ → List Str → List (Str × Item) → List (Str × Item) × ℕ × ℕ
unfolding sweep_key
sweep_sample zero now order m = (m, 0, 0)
sweep_sample (suc limit) now [] m = (m, 0, 0)
sweep_sample (suc limit) now (k ∷ order) m =
    let (m', one) = sweep_key now k m in
    let (m'', scanned, expired) = sweep_sample limit now order m' in
    (m'', scanned + 1, expired + one)

-- What the environment contributes to one round: the clock at the start of the round and at the
-- check of the budget, the order of iteration, and what other goroutines do before the next round.
pub record Round : Type 0 where
  pub start : ℕ
  pub check : ℕ
  pub order : List (Str × Item) → List Str
  pub others : List (Str × Item) → List (Str × Item)

-- The loop of `sweepIncremental`, by the rounds that are left; the result has the rounds made.
unfoldable pub sweep_rounds : ℕ → ℕ → ℕ → (ℕ → Round) → List (Str × Item) → List (Str × Item) × ℕ
unfolding sweep_sample
sweep_rounds zero deadline i env m = (m, i)
sweep_rounds (suc left) deadline i env m =
    let (m', scanned, expired) = sweep_sample sweep_sample_size (env i).start ((env i).order m) m in
    let rest = sweep_rounds left deadline (i + 1) env ((env i).others m') in
    if scanned == 0
    then (m', i + 1)
    else if ltb (expired * sweep_continue_ratio) scanned
    then (m', i + 1)
    else if after (env i).check deadline
    then (m', i + 1)
    else rest

unfoldable pub sweep_incremental : ℕ → (ℕ → Round) → List (Str × Item) → List (Str × Item) × ℕ
unfolding sweep_rounds
sweep_incremental now env m = sweep_rounds sweep_max_rounds (now + sweep_budget) 0 env m

-- `copyB` copies a slice of any length.
unfoldable pub copy_b : Slice → Slice
copy_b none = none
copy_b (some b) = some b

unfoldable pub item_expiry : ℕ → ℤ → ℕ
item_expiry now (pos zero) = now - second
item_expiry now (pos (suc n)) = now + suc n
item_expiry now (negsuc n) = 0

unfoldable pub set_with_ttl : ℕ → Slice → Slice → ℤ → Expiring → Expiring × Result (Unit {0})
unfolding copy_b item_expiry
set_with_ttl now key value ttl h =
    elim (validate_write_with_ttl_op key value ttl true h.is_closed) [
      | some e ↦ (h, err e)
      | none ↦ (
        record h {
          items =
              assign (to_string key) (record { val = copy_b value; expiry = item_expiry now ttl })
                h.items;
        },
        ok tt,
      )
    ]

unfoldable pub set_forever : ℕ → Slice → Slice → Expiring → Expiring × Result (Unit {0})
unfolding set_with_ttl
set_forever now key value h = set_with_ttl now key value (negsuc 0) h

-- The second critical section of `Get`: look again, and delete.
unfoldable pub lazy_delete : ℕ → Str → Expiring → Expiring
unfolding sweep_key
lazy_delete now k h = record h { items = (sweep_key now k h.items).0 }

-- `now` and `later` are the readings of the two critical sections, `others` runs between them.
unfoldable pub get : ℕ → ℕ → (Expiring → Expiring) → Slice → Expiring → Expiring × Result Slice
unfolding lazy_delete copy_b
get now later others key h = elim (validate_basic_op key true h.is_closed) [
  | some e ↦ (h, err e)
  | none ↦ elim (lookup (to_string key) h.items) [
    | none ↦ (h, err not_found)
    | some it ↦
        if is_expired it.expiry now
        then (lazy_delete later (to_string key) (others h), err not_found)
        else (h, ok (copy_b it.val))
  ]
]

unfoldable pub get_ttl : ℕ → Slice → Expiring → Result ℤ
get_ttl now key h = elim (validate_basic_op key true h.is_closed) [
  | some e ↦ err e
  | none ↦ elim (lookup (to_string key) h.items) [
    | none ↦ err not_found
    | some it ↦ if is_zero it.expiry then ok (pos 0) else ok (sub_ℕ it.expiry now)
  ]
]

unfoldable pub del : Slice → Expiring → Expiring × Result (Unit {0})
del key h = elim (validate_basic_op key true h.is_closed) [
  | some e ↦ (h, err e)
  | none ↦ (record h { items = delete (to_string key) h.items }, ok tt)
]

unfoldable pub batch_one : ℕ → Expiring → Slice → Result Slice
batch_one now h key =
    if length (to_string key) == 0 then err invalid_key else elim (lookup (to_string key) h.items) [
      | none ↦ err not_found
      | some it ↦ if is_expired it.expiry now then err not_found else ok (some (to_string it.val))
    ]

unfoldable pub batch_get : ℕ → List Slice → Expiring → List (Result Slice)
unfolding batch_one
batch_get now keys h =
    if h.is_closed then map (λ _. err closed) keys else map (batch_one now h) keys

-- The read under the lock at the start of `GetOrCompute`; `none` means that the loader is needed.
unfoldable pub compute_read : ℕ → Str → Expiring → Option Slice
compute_read now k h = elim (lookup k h.items) [
  | none ↦ none
  | some it ↦ if is_expired it.expiry now then none else some (some (to_string it.val))
]

unfoldable pub keep_computed : ℕ → Slice → ℤ → Slice → Expiring → Expiring
unfolding set_with_ttl set_forever
keep_computed now key (pos (suc n)) v h = (set_with_ttl now key v (pos (suc n)) h).0
keep_computed now key (pos zero) v h = (set_forever now key v h).0
keep_computed now key (negsuc n) v h = (set_forever now key v h).0

-- After a miss: `ctx_err` is `ctx.Err()` at the check, `loader` what the loader returns, `others` what
-- other goroutines do while it runs. The caller gets a copy that is never nil.
unfoldable pub compute_missing :
    ℕ
    → Slice
    → ℤ
    → Option Error
    → Result Slice
    → (Expiring → Expiring)
    → Expiring
    → Expiring × Result Slice
unfolding keep_computed
compute_missing later key ttl (some e) loader others h = (h, err e)
compute_missing later key ttl none (err e) others h = (others h, err e)
compute_missing later key ttl none (ok v) others h =
    (keep_computed later key ttl v (others h), ok (some (to_string v)))

unfoldable pub get_or_compute :
    ℕ
    → ℕ
    → Slice
    → ℤ
    → Option Error
    → Result Slice
    → (Expiring → Expiring)
    → Expiring
    → Expiring × Result Slice
unfolding compute_read compute_missing
get_or_compute now later key ttl ctx_err loader others h =
    if length (to_string key) == 0
    then (h, err invalid_key)
    else if h.is_closed
    then (h, err closed)
    else elim (compute_read now (to_string key) h) [
      | some v ↦ (h, ok v)
      | none ↦ compute_missing later key ttl ctx_err loader others h
    ]

-- `Close` keeps the map.
unfoldable pub close : Expiring → Expiring
close h = if h.is_closed then h else record h { is_closed = true }
