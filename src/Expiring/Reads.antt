-- ===== src/Expiring/Reads.antt =====
-- Reads of expiring.go after writes and deletions, one by one and in a batch.
use go_cachex.Base.{
  ℕ, zero, suc, ◌-◌, ◌≡◌, ◌≢◌, refl, true, false, none, some, List, [], ◌∷◌, if◌then◌else◌, arith,
  ℤ, pos, negsuc, map, Option-cases, inl, inr,
}
use go_cachex.Cache.{
  ok, err, not_found, Str, Slice, is_nil, is_expired, to_string, validate_basic_op,
  validate_write_with_ttl_op-none_iff, TtlFits,
}
use go_cachex.Table.{lookup, lookup-assign}
use go_cachex.Expiring.Defs.{
  Item, Expiring, set_with_ttl, set_forever, keep_computed, get, get_ttl, batch_one, batch_get,
  item_expiry, get_or_compute, compute_missing, compute_read,
}

-- On an open handler `Set` with an accepted TTL succeeds. A `Get` of the key right after it returns the
-- value, of any length, until the entry expires, and `ErrNotFound` from then on; a `Get` of any
-- other key returns what it would have returned without the `Set`.
pub get-set_item :
    (now t later : ℕ) (others : Expiring → Expiring) (k b j : Str) (ttl : ℤ) (h : Expiring)
    → h.is_closed ≡ false
    → TtlFits ttl
    → let after_set = set_with_ttl now (some k) (some b) ttl h in
      (after_set.1 ≡ ok tt)
      × ((get t later others (some k) after_set.0).1
          ≡ (if is_expired (item_expiry now ttl) t then err not_found else ok (some b)))
      × (k ≢ j → (get t later others (some j) after_set.0).1 ≡ (get t later others (some j) h).1)
unfolding set_with_ttl get validate_basic_op
get-set_item now t later others k b j ttl h open_still accepted =
    let passed =
      (validate_write_with_ttl_op-none_iff (some k) (some b) ttl true h.is_closed).1
        (refl, refl, open_still, refl, accepted) in
    let it : Item = record { val = some b; expiry = item_expiry now ttl } in
    (
      ground (arith, passed),
      ground (arith, passed, lookup-assign k k it h.items),
      λ other. ground (arith, passed, lookup-assign j k it h.items),
    )

-- Every stored value is a slice that is not nil.
abbrev pub HasValues : Expiring → Type 0
HasValues h = (k : Str) (it : Item) → lookup k h.items ≡ some it → is_nil it.val ≡ false

pub set_with_ttl-HasValues :
    (now : ℕ) (key value : Slice) (ttl : ℤ) (h : Expiring)
    → HasValues h
    → HasValues (set_with_ttl now key value ttl h).0
unfolding set_with_ttl
set_with_ttl-HasValues now key none ttl h v k it found =
    ground (arith, validate_write_with_ttl_op-none_iff key none ttl true h.is_closed, v k it)
set_with_ttl-HasValues now key (some b) ttl h v k it found = ground (
  arith,
  v k it,
  lookup-assign k (to_string key) (record { val = some b; expiry = item_expiry now ttl }) h.items,
)

module _ (now later : ℕ) (others : Expiring → Expiring) (h : Expiring)
    (open_still : h.is_closed ≡ false) (v : HasValues h) where
  batch_one-get :
      (c : ℕ) (s : Str) → batch_one now h (some (c ∷ s)) ≡ (get now later others (some (c ∷ s)) h).1
  unfolding batch_one get validate_basic_op
  batch_one-get c s = elim (Option-cases (lookup (c ∷ s) h.items)) [
    | inl miss ↦ ground arith
    | inr (it, found) ↦ ground (arith, v (c ∷ s) it found)
  ]

  batch_loop-get :
      (keys : List (ℕ × Str))
      → map (batch_one now h) (map (λ k. some (k.0 ∷ k.1)) keys)
        ≡ map (λ k. (get now later others (some (k.0 ∷ k.1)) h).1) keys
  batch_loop-get [] = refl
  batch_loop-get (k ∷ keys) = cc (batch_one-get k.0 k.1, batch_loop-get keys)

-- On an open handler without nil values, `BatchGet` of keys that are not empty returns, key by key,
-- what `Get` returns at the same time.
pub batch_get-get :
    (now later : ℕ) (others : Expiring → Expiring) (keys : List (ℕ × Str)) (h : Expiring)
    → h.is_closed ≡ false
    → HasValues h
    → batch_get now (map (λ k. some (k.0 ∷ k.1)) keys) h
      ≡ map (λ k. (get now later others (some (k.0 ∷ k.1)) h).1) keys
unfolding batch_get
batch_get-get now later others keys h open_still v =
    simp open_still (batch_loop-get now later others h open_still v keys)

-- The TTL under which `GetOrCompute` keeps a computed value.
unfoldable pub kept_ttl : ℤ → ℤ
kept_ttl (pos zero) = negsuc 0
kept_ttl (pos (suc n)) = pos (suc n)
kept_ttl (negsuc n) = negsuc 0

keep_computed-set :
    (now : ℕ) (key : Slice) (ttl : ℤ) (b : Slice) (h : Expiring)
    → (keep_computed now key ttl b h ≡ (set_with_ttl now key b (kept_ttl ttl) h).0)
      × TtlFits (kept_ttl ttl)
unfolding keep_computed set_forever kept_ttl
keep_computed-set now key (pos zero) b h = (refl, tt)
keep_computed-set now key (pos (suc n)) b h = (refl, tt)
keep_computed-set now key (negsuc n) b h = (refl, tt)

get_or_compute_miss :
    (now later : ℕ) (c : ℕ) (s b : Str) (ttl : ℤ) (others : Expiring → Expiring) (h : Expiring)
    → h.is_closed ≡ false
    → compute_read now (c ∷ s) h ≡ none
    → get_or_compute now later (some (c ∷ s)) ttl none (ok (some b)) others h
      ≡ (keep_computed later (some (c ∷ s)) ttl (some b) (others h), ok (some b))
unfolding get_or_compute compute_missing
get_or_compute_miss now later c s b ttl others h open_still miss = ground arith

-- When an open handler has no live entry for a key that is not empty, the context is live, and the
-- loader returns a value, `GetOrCompute` returns this value and stores it: whatever other
-- goroutines do meanwhile, short of closing the handler, a `Get` right afterwards returns the value
-- until its expiry.
pub get_or_compute-stores :
    (now later t after_t : ℕ) (c : ℕ) (s b : Str) (ttl : ℤ) (others quiet : Expiring → Expiring)
    → (h : Expiring) → h.is_closed ≡ false
    → (others h).is_closed ≡ false
    → compute_read now (c ∷ s) h ≡ none
    → let r = get_or_compute now later (some (c ∷ s)) ttl none (ok (some b)) others h in
      (r.1 ≡ ok (some b))
      × ((get t after_t quiet (some (c ∷ s)) r.0).1 ≡ (
          if is_expired (item_expiry later (kept_ttl ttl)) t then err not_found else ok (some b)))
get_or_compute-stores now later t after_t c s b ttl others quiet h open_still open_then miss =
    let (kept, fits) = keep_computed-set later (some (c ∷ s)) ttl (some b) (others h) in
    let read =
      get-set_item later t after_t quiet (c ∷ s) b (c ∷ s) (kept_ttl ttl) (others h) open_then
        fits in
    rw (get_or_compute_miss now later c s b ttl others h open_still miss, kept) (refl, read.1)

-- On an open handler `GetTTL` of an entry that has expired and is still in the map reports no error: the time left is
-- negative. (`Get` reports `ErrNotFound` at the same time.)
pub get_ttl_expired :
    (now later : ℕ) (others : Expiring → Expiring) (k : Str) (it : Item) (h : Expiring)
    → h.is_closed ≡ false
    → lookup k h.items ≡ some it
    → is_expired it.expiry now ≡ true
    → ((get now later others (some k) h).1 ≡ err not_found)
      × (get_ttl now (some k) h ≡ ok (negsuc (now - it.expiry - 1)))
unfolding get get_ttl validate_basic_op
get_ttl_expired now later others k it h open_still found dead = (ground arith, ground arith)
