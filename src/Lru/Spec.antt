-- ===== src/Lru/Spec.antt =====
-- What `LRUHandler` promises: a list of entries, the most recently used first, with no pointers
-- and no map. Each operation is written once more over this list.
use go_cachex.Base.{
  ℕ, ◌≤◌, ◌<◌, ◌≡◌, Bool, true, none, some, List, [], ◌∷◌, ◌==◌, if◌then◌else◌, ℤ, pos, sub_ℕ,
  length, take,
}
use go_cachex.Cache.{
  Result, ok, err, not_found, closed, invalid_key, invalid_value, invalid_ttl, Str, Slice, is_nil,
  to_string, is_zero, is_expired, validate_basic_op,
}
use go_cachex.Table.{seek, drop_key, contents, IsCoherent}
use go_cachex.Lru.Defs.{Lru, Entry, copy_bytes, copy_made, expiry_at, ttl_too_low, all_closed}

pub record Recency : Type 0 where
  pub capacity : ℕ
  pub items : List Entry
  pub is_closed : Bool

abbrev pub key_of : Entry → Str
key_of e = e.key

abbrev pub view : Lru → Recency
view h = record { capacity = h.max_entries; items = contents h.ll; is_closed = h.is_closed }

pub record IsValid (h : Lru) : Type 0 where
  pub coherent : IsCoherent key_of h.cache h.ll h.next
  pub bounded : length h.ll ≤ h.max_entries
  pub positive : 0 < h.max_entries

-- A call leaves a valid handler, and does to its view and returns what the specification says.
abbrev pub Agrees : {A : Type 0} → Lru × A → Recency × A → Type 0
Agrees x y = IsValid x.0 × (view x.0 ≡ y.0) × (x.1 ≡ y.1)

unfoldable pub spec_get : ℕ → Slice → Recency → Recency × Result Slice
spec_get now key r = elim (validate_basic_op key true r.is_closed) [
  | some e ↦ (r, err e)
  | none ↦ elim (seek key_of (to_string key) r.items) [
    | none ↦ (r, err not_found)
    | some e ↦
        let rest = drop_key key_of (to_string key) r.items in
        if is_expired e.expiry now
        then (record r { items = rest }, err not_found)
        else (record r { items = e ∷ rest }, ok (copy_bytes e.value))
  ]
]

unfoldable pub spec_get_ttl : ℕ → ℕ → Slice → Recency → Recency × Result ℤ
spec_get_ttl now later key r =
    if is_nil key
    then (r, err invalid_key)
    else if r.is_closed
    then (r, err closed)
    else elim (seek key_of (to_string key) r.items) [
      | none ↦ (r, err not_found)
      | some e ↦
          if is_expired e.expiry now
          then (record r { items = drop_key key_of (to_string key) r.items }, err not_found)
          else (r, ok (if is_zero e.expiry then pos 0 else sub_ℕ e.expiry later))
    ]

-- The entry goes to the front. A known key keeps the size; for a new one the last entry leaves a
-- full cache.
unfoldable pub spec_insert : Entry → Recency → Recency
spec_insert e r = elim (seek key_of e.key r.items) [
  | some _ ↦ record r { items = e ∷ drop_key key_of e.key r.items }
  | none ↦ record r { items = take r.capacity (e ∷ r.items) }
]

unfoldable pub spec_set : ℕ → Slice → Slice → ℤ → Recency → Recency × Result (Unit {0})
unfolding spec_insert
spec_set now key value ttl r =
    if is_nil key
    then (r, err invalid_key)
    else if is_nil value
    then (r, err invalid_value)
    else if ttl_too_low ttl
    then (r, err invalid_ttl)
    else if r.is_closed
    then (r, err closed)
    else (
      spec_insert
          (record { key = to_string key; value = copy_bytes value; expiry = expiry_at now ttl }) r,
      ok tt,
    )

unfoldable pub spec_del : Slice → Recency → Recency × Result (Unit {0})
spec_del key r =
    if is_nil key
    then (r, err invalid_key)
    else if r.is_closed
    then (r, err closed)
    else elim (seek key_of (to_string key) r.items) [
      | none ↦ (r, ok tt)
      | some _ ↦ (record r { items = drop_key key_of (to_string key) r.items }, ok tt)
    ]

unfoldable pub spec_batch_one : ℕ → Slice → Recency → Recency × Result Slice
spec_batch_one now key r =
    if length (to_string key) == 0
    then (r, err invalid_key)
    else elim (seek key_of (to_string key) r.items) [
      | none ↦ (r, err not_found)
      | some e ↦
          let rest = drop_key key_of (to_string key) r.items in
          if is_expired e.expiry now
          then (record r { items = rest }, err not_found)
          else (record r { items = e ∷ rest }, ok (copy_made e.value))
    ]

unfoldable pub spec_batch_loop : List (ℕ × Slice) → Recency → Recency × List (Result Slice)
unfolding spec_batch_one
spec_batch_loop [] r = (r, [])
spec_batch_loop ((now, key) ∷ keys) r =
    let (r', x) = spec_batch_one now key r in
    let (r'', xs) = spec_batch_loop keys r' in (r'', x ∷ xs)

unfoldable pub spec_batch_get : List (ℕ × Slice) → Recency → Recency × List (Result Slice)
unfolding spec_batch_loop
spec_batch_get keys r = if r.is_closed then (r, all_closed keys) else spec_batch_loop keys r

unfoldable pub spec_close : Recency → Recency
spec_close r = if r.is_closed then r else record r { is_closed = true; items = [] }
