-- ===== src/Lru/Defs.antt =====
-- lru.go: the definitions.
use go_cachex.Base.{
  ℕ, zero, suc, ◌+◌, ◌-◌, Bool, true, false, ◌&&◌, Option, none, some, List, [], ◌∷◌, ltb, ◌==◌,
  if◌then◌else◌, ℤ, pos, negsuc, sub_ℕ, length,
}
use go_cachex.Cache.{
  Error, Result, ok, err, not_found, closed, invalid_key, invalid_value, invalid_ttl, panic, Str,
  Slice, is_nil, to_string, second, is_zero, is_expired, validate_basic_op,
}
use go_cachex.Table.{lookup, delete, assign, deref, unlink, back, store, move_to_front}

pub record Entry : Type 0 where
  pub key : Str
  pub value : Slice
  pub expiry : ℕ

-- `ll` and `cache` of the source, and the pointer that the next element gets. A closed handler has
-- an empty list, which stands for the source's nil.
pub record Lru : Type 0 where
  pub max_entries : ℕ
  pub ll : List (ℕ × Entry)
  pub cache : List (Str × ℕ)
  pub is_closed : Bool
  pub next : ℕ

abbrev pub default_max_entries : ℕ
default_max_entries = 10000

-- `mathx.IfLeZero(n, d)`: the default for a number that is not positive.
unfoldable pub if_le_zero : ℤ → ℕ → ℕ
if_le_zero (pos zero) d = d
if_le_zero (pos (suc n)) d = suc n
if_le_zero (negsuc n) d = d

unfoldable pub new_lru : ℤ → Lru
unfolding if_le_zero
new_lru max_entries = record {
  max_entries = if_le_zero max_entries default_max_entries;
  ll = [];
  cache = [];
  is_closed = false;
  next = 0;
}

abbrev pub max_value_size : ℕ
max_value_size = 104857600

unfoldable pub copy_bytes : Slice → Slice
copy_bytes none = none
copy_bytes (some b) = if ltb max_value_size (length b) then none else some b

-- The element at `p` leaves the list, and its key the map.
unfoldable pub remove_element : ℕ → Str → Lru → Lru
remove_element p k h = record h { ll = unlink p h.ll; cache = delete k h.cache }

unfoldable pub purge_expired : ℕ → ℕ → Lru → Lru × Bool
unfolding remove_element
purge_expired now p h = elim (deref p h.ll) [
  | none ↦ (h, false)
  | some e ↦ if is_expired e.expiry now then (remove_element p e.key h, true) else (h, false)
]

-- What `Get` does with the element that the map gave.
unfoldable pub read_element : ℕ → ℕ → Lru → Lru × Result Slice
unfolding purge_expired copy_bytes
read_element now p h =
    let (h', purged) = purge_expired now p h in
    if purged then (h', err not_found) else elim (deref p h'.ll) [
      | none ↦ (h', err panic)
      | some e ↦ (record h' { ll = move_to_front p h'.ll }, ok (copy_bytes e.value))
    ]

unfoldable pub get : ℕ → Slice → Lru → Lru × Result Slice
unfolding read_element
get now key h = elim (validate_basic_op key true h.is_closed) [
  | some e ↦ (h, err e)
  | none ↦ elim (lookup (to_string key) h.cache) [
    | none ↦ (h, err not_found)
    | some p ↦ read_element now p h
  ]
]

-- What `GetTTL` does with the element; the result is the time left, 0 for an entry that never
-- expires. `now` is the reading of `purgeExpired`, `later` that of `time.Until`.
unfoldable pub read_ttl : ℕ → ℕ → ℕ → Lru → Lru × Result ℤ
unfolding purge_expired
read_ttl now later p h =
    let (h', purged) = purge_expired now p h in
    if purged then (h', err not_found) else elim (deref p h'.ll) [
      | none ↦ (h', err panic)
      | some e ↦ (h', ok (if is_zero e.expiry then pos 0 else sub_ℕ e.expiry later))
    ]

unfoldable pub get_ttl : ℕ → ℕ → Slice → Lru → Lru × Result ℤ
unfolding read_ttl
get_ttl now later key h =
    if is_nil key
    then (h, err invalid_key)
    else if h.is_closed
    then (h, err closed)
    else elim (lookup (to_string key) h.cache) [
      | none ↦ (h, err not_found)
      | some p ↦ read_ttl now later p h
    ]

-- The expiry for a TTL: 0 has expired at once, -1 never expires.
unfoldable pub expiry_at : ℕ → ℤ → ℕ
expiry_at now (pos zero) = now - second
expiry_at now (pos (suc n)) = now + suc n
expiry_at now (negsuc n) = 0

-- The key is in the map, at `p`: overwrite and move to the front.
unfoldable pub overwrite : ℕ → ℕ → Slice → ℤ → Lru → Lru × Result (Unit {0})
unfolding copy_bytes expiry_at
overwrite now p value ttl h = elim (deref p h.ll) [
  | none ↦ (h, err panic)
  | some e ↦
      let e' = record e { value = copy_bytes value; expiry = expiry_at now ttl } in
      (record h { ll = move_to_front p (store p e' h.ll) }, ok tt)
]

-- Too many entries: the last one leaves.
unfoldable pub evict : Lru → Lru
unfolding remove_element
evict h =
    if ltb 0 h.max_entries && ltb h.max_entries (length h.ll)
    then elim (back h.ll) [ none ↦ h | some (p, e) ↦ remove_element p e.key h ]
    else h

-- The key is new: push to the front, and evict.
unfoldable pub push_new : ℕ → Str → Slice → ℤ → Lru → Lru
push_new now k value ttl h =
    let e : Entry = record { key = k; value = copy_bytes value; expiry = expiry_at now ttl } in
    evict (record h { ll = (h.next, e) ∷ h.ll; cache = assign k h.next h.cache; next = h.next + 1 })

unfoldable pub set_checked : ℕ → Str → Slice → ℤ → Lru → Lru × Result (Unit {0})
unfolding overwrite push_new
set_checked now k value ttl h = elim (lookup k h.cache) [
  | none ↦ (push_new now k value ttl h, ok tt)
  | some p ↦ overwrite now p value ttl h
]

-- `ttl < -1`
abbrev pub ttl_too_low : ℤ → Bool
ttl_too_low (pos n) = false
ttl_too_low (negsuc zero) = false
ttl_too_low (negsuc (suc n)) = true

unfoldable pub set_with_ttl : ℕ → Slice → Slice → ℤ → Lru → Lru × Result (Unit {0})
unfolding set_checked
set_with_ttl now key value ttl h =
    if is_nil key
    then (h, err invalid_key)
    else if is_nil value
    then (h, err invalid_value)
    else if ttl_too_low ttl
    then (h, err invalid_ttl)
    else if h.is_closed
    then (h, err closed)
    else set_checked now (to_string key) value ttl h

-- `Set` is `SetWithTTL` with -1.
unfoldable pub set_forever : ℕ → Slice → Slice → Lru → Lru × Result (Unit {0})
unfolding set_with_ttl
set_forever now key value h = set_with_ttl now key value (negsuc 0) h

unfoldable pub del : Slice → Lru → Lru × Result (Unit {0})
unfolding remove_element
del key h =
    if is_nil key
    then (h, err invalid_key)
    else if h.is_closed
    then (h, err closed)
    else elim (lookup (to_string key) h.cache) [
      | none ↦ (h, ok tt)
      | some p ↦ (remove_element p (to_string key) h, ok tt)
    ]

-- A copy by `make` and `copy`: a nil value gives an empty one.
abbrev pub copy_made : Slice → Slice
copy_made v = some (to_string v)

-- The body of the loop of `BatchGet` for one key.
unfoldable pub batch_read : ℕ → ℕ → Lru → Lru × Result Slice
unfolding remove_element
batch_read now p h = elim (deref p h.ll) [
  | none ↦ (h, err panic)
  | some e ↦
      if is_expired e.expiry now
      then (remove_element p e.key h, err not_found)
      else (record h { ll = move_to_front p h.ll }, ok (copy_made e.value))
]

unfoldable pub batch_one : ℕ → Slice → Lru → Lru × Result Slice
unfolding batch_read
batch_one now key h =
    if length (to_string key) == 0
    then (h, err invalid_key)
    else elim (lookup (to_string key) h.cache) [
      | none ↦ (h, err not_found)
      | some p ↦ batch_read now p h
    ]

-- The loop; each key comes with the reading of the clock that its turn takes.
unfoldable pub batch_loop : List (ℕ × Slice) → Lru → Lru × List (Result Slice)
unfolding batch_one
batch_loop [] h = (h, [])
batch_loop ((now, key) ∷ keys) h =
    let (h', r) = batch_one now key h in let (h'', rs) = batch_loop keys h' in (h'', r ∷ rs)

-- `errors[i] = ErrClosed` for every key.
unfoldable pub all_closed : List (ℕ × Slice) → List (Result Slice)
all_closed [] = []
all_closed (k ∷ keys) = err closed ∷ all_closed keys

unfoldable pub batch_get : List (ℕ × Slice) → Lru → Lru × List (Result Slice)
unfolding batch_loop all_closed
batch_get keys h = if h.is_closed then (h, all_closed keys) else batch_loop keys h

-- The part of `GetOrCompute` after the loader has returned a value.
unfoldable pub keep_computed : ℕ → Slice → ℤ → Slice → Lru → Lru
unfolding set_with_ttl set_forever
keep_computed now key (pos (suc n)) v h = (set_with_ttl now key v (pos (suc n)) h).0
keep_computed now key (pos zero) v h = (set_forever now key v h).0
keep_computed now key (negsuc n) v h = (set_forever now key v h).0

-- The rest of `GetOrCompute` after its first `Get`. `ctx_err` is `ctx.Err()` at the check, `loader` what
-- the loader returns, `others` what other goroutines do to the handler while it runs, and `later`
-- the reading of the clock after it.
unfoldable pub compute_missing :
    ℕ
    → Slice
    → ℤ
    → Option Error
    → Result Slice
    → (Lru → Lru)
    → Lru × Result Slice
    → Lru × Result Slice
unfolding keep_computed
compute_missing later key ttl ctx_err loader others (h, ok v) = (h, ok v)
compute_missing later key ttl (some e) loader others (h, err _) = (h, err e)
compute_missing later key ttl none (err e) others (h, err _) = (others h, err e)
compute_missing later key ttl none (ok v) others (h, err _) =
    (keep_computed later key ttl v (others h), ok v)

unfoldable pub get_or_compute :
    ℕ → ℕ → Slice → ℤ → Option Error → Result Slice → (Lru → Lru) → Lru → Lru × Result Slice
unfolding get compute_missing
get_or_compute now later key ttl ctx_err loader others h =
    compute_missing later key ttl ctx_err loader others (get now key h)

unfoldable pub close : Lru → Lru
close h = if h.is_closed then h else record h { is_closed = true; ll = []; cache = [] }
