-- ===== src/Lru/Behaviour.antt =====
-- What a caller of lru.go can rely on: reads after writes and deletions, eviction, closing.
use go_cachex.Base.{
  ℕ, suc, ◌-◌, ◌<◌, ◌≡◌, ◌≢◌, refl, sym, ap, ◌∙◌, false, Option, none, some, List, ◌∷◌,
  if◌then◌else◌, ℤ, length, arith, take-cons_full, drop_last,
}
use go_cachex.Cache.{
  Error, Result, ok, err, not_found, closed, Str, Slice, is_expired, validate_basic_op,
}
use go_cachex.Table.{
  lookup, seek, contents, lookup-delete, lookup-seek-none, seek-drop_key_ne, length-contents,
}
use go_cachex.Lru.Defs.{
  Lru, Entry, get, set_with_ttl, del, close, copy_bytes, expiry_at, max_value_size, ttl_too_low,
  batch_get, all_closed, get_ttl, compute_missing, get_or_compute,
}
use go_cachex.Lru.Spec.{Recency, key_of, view, IsValid, spec_get, spec_set, spec_del, spec_insert}
use go_cachex.Lru.Refines.{get-Agrees, set-Agrees, del-Agrees}

-- The TTLs that `SetWithTTL` accepts.
abbrev pub IsAccepted : ℤ → Type 0
IsAccepted ttl = ttl_too_low ttl ≡ false

pub seek-insert_self :
    (e : Entry) (r : Recency) → 0 < r.capacity → seek key_of e.key (spec_insert e r).items ≡ some e
unfolding seek spec_insert
seek-insert_self e r positive =
    let n : r.capacity ≡ suc (r.capacity - 1) = omega arith in ground arith

copy_bytes_twice : (b : Slice) → copy_bytes (copy_bytes b) ≡ copy_bytes b
unfolding copy_bytes
copy_bytes_twice none = refl
copy_bytes_twice (some b) = ground arith

spec_set_ok :
    (now : ℕ) (k b : Str) (ttl : ℤ) (r : Recency)
    → r.is_closed ≡ false
    → IsAccepted ttl
    → spec_set now (some k) (some b) ttl r ≡ (
      spec_insert (record { key = k; value = copy_bytes (some b); expiry = expiry_at now ttl }) r,
      ok tt,
    )
unfolding spec_set
spec_set_ok now k b ttl r open_still accepted = rw (accepted, open_still) refl

spec_insert-is_closed : (e : Entry) (r : Recency) → (spec_insert e r).is_closed ≡ r.is_closed
unfolding spec_insert
spec_insert-is_closed e r = ground arith

spec_set-is_closed :
    (now : ℕ) (k b : Str) (ttl : ℤ) (r : Recency)
    → r.is_closed ≡ false
    → (spec_set now (some k) (some b) ttl r).0.is_closed ≡ false
unfolding spec_set
spec_set-is_closed now k b ttl r open_still = ground arith

spec_get_after_set :
    (now later : ℕ) (k b : Str) (ttl : ℤ) (r : Recency)
    → 0 < r.capacity
    → r.is_closed ≡ false
    → IsAccepted ttl
    → (spec_get later (some k) (spec_set now (some k) (some b) ttl r).0).1
      ≡ (if is_expired (expiry_at now ttl) later then err not_found else ok (copy_bytes (some b)))
unfolding spec_get validate_basic_op
spec_get_after_set now later k b ttl r positive open_still accepted =
    let e : Entry = record { key = k; value = copy_bytes (some b); expiry = expiry_at now ttl } in
    rw (spec_set_ok now k b ttl r open_still accepted) (
      ground (
        arith,
        seek-insert_self e r positive,
        spec_insert-is_closed e r,
        copy_bytes_twice (some b),
      ))

-- On a valid, open handler, `Set` with an accepted TTL succeeds, and a `Get` of the key right after it
-- returns what `copyBytes` kept of the value until the entry expires, and `ErrNotFound` from then on.
pub get-set_with_ttl :
    (now later : ℕ) (k b : Str) (ttl : ℤ) (h : Lru)
    → IsValid h
    → h.is_closed ≡ false
    → IsAccepted ttl
    → let after_set = set_with_ttl now (some k) (some b) ttl h in
      (after_set.1 ≡ ok tt)
      × ((get later (some k) after_set.0).1 ≡ (
          if is_expired (expiry_at now ttl) later then err not_found else ok (copy_bytes (some b))))
get-set_with_ttl now later k b ttl h v open_still accepted =
    let written = set-Agrees h v now (some k) (some b) ttl in
    let read = get-Agrees (set_with_ttl now (some k) (some b) ttl h).0 written.0 later (some k) in
    let spec = spec_get_after_set now later k b ttl (view h) v.positive open_still accepted in
    (
      written.2 ∙ ap (λ x. x.1) (spec_set_ok now k b ttl (view h) open_still accepted),
      read.2 ∙ ap (λ r. (spec_get later (some k) r).1) written.1 ∙ spec,
    )

spec_insert-full :
    (e : Entry) (r : Recency)
    → 0 < r.capacity
    → seek key_of e.key r.items ≡ none
    → length r.items ≡ r.capacity
    → (spec_insert e r).items ≡ e ∷ drop_last r.items
unfolding spec_insert
spec_insert-full e r positive miss full =
    rw (miss, spec_insert) (take-cons_full r.capacity e r.items positive full)

-- On a valid, open handler a value of more than 100 MB is accepted and kept as nil: `Set` reports success, and `Get` then
-- returns nil with no error, for as long as the entry lives.
pub oversized_value_lost :
    (now later : ℕ) (k b : Str) (ttl : ℤ) (h : Lru)
    → IsValid h
    → h.is_closed ≡ false
    → IsAccepted ttl
    → max_value_size < length b
    → is_expired (expiry_at now ttl) later ≡ false
    → let after_set = set_with_ttl now (some k) (some b) ttl h in
      (after_set.1 ≡ ok tt) × ((get later (some k) after_set.0).1 ≡ ok none)
unfolding copy_bytes
oversized_value_lost now later k b ttl h v open_still accepted large alive =
    let (written, read) = get-set_with_ttl now later k b ttl h v open_still accepted in
    (written, read ∙ rw alive (ground arith))

-- On a valid, open handler that is full, a `Set` of a new key with an accepted TTL makes the entry the most recent one, and evicts exactly the
-- entry that was last in the order of use.
pub set_with_ttl-evicts_last :
    (now : ℕ) (k b : Str) (ttl : ℤ) (h : Lru)
    → IsValid h
    → h.is_closed ≡ false
    → IsAccepted ttl
    → lookup k h.cache ≡ none
    → length h.ll ≡ h.max_entries
    → contents (set_with_ttl now (some k) (some b) ttl h).0.ll
      ≡ record { key = k; value = copy_bytes (some b); expiry = expiry_at now ttl }
        ∷ drop_last (contents h.ll)
set_with_ttl-evicts_last now k b ttl h v open_still accepted miss full =
    let e : Entry = record { key = k; value = copy_bytes (some b); expiry = expiry_at now ttl } in
    let written = set-Agrees h v now (some k) (some b) ttl in
    ap (λ r. r.items) written.1
    ∙ ap (λ x. x.0.items) (spec_set_ok now k b ttl (view h) open_still accepted)
    ∙ spec_insert-full e (view h) v.positive (lookup-seek-none key_of v.coherent k miss)
        (length-contents h.ll ∙ full)

get_miss :
    (now : ℕ) (k : Str) (h : Lru)
    → h.is_closed ≡ false
    → lookup k h.cache ≡ none
    → (get now (some k) h).1 ≡ err not_found
unfolding get validate_basic_op
get_miss now k h open_still miss = ground arith

lookup-del : (k : Str) (h : Lru) → h.is_closed ≡ false → lookup k (del (some k) h).0.cache ≡ none
unfolding del
lookup-del k h open_still = ground (arith, lookup-delete k k h.cache)

spec_del_lem :
    (k : Str) (r : Recency)
    → r.is_closed ≡ false
    → ((spec_del (some k) r).1 ≡ ok tt)
      × ((spec_del (some k) r).0.is_closed ≡ false)
      × ((j : Str) → k ≢ j → seek key_of j (spec_del (some k) r).0.items ≡ seek key_of j r.items)
unfolding spec_del
spec_del_lem k r open_still = (
  ground arith,
  ground arith,
  λ j other. ground (arith, seek-drop_key_ne key_of j k r.items other),
)

-- A `Get` of the specification returns what the first entry with the key says.
spec_get-seek :
    (now : ℕ) (j : Str) (r s : Recency)
    → r.is_closed ≡ false
    → s.is_closed ≡ false
    → seek key_of j r.items ≡ seek key_of j s.items
    → (spec_get now (some j) r).1 ≡ (spec_get now (some j) s).1
unfolding spec_get validate_basic_op
spec_get-seek now j r s p q e = ground arith

-- `Del` of a key on a valid, open handler succeeds; a `Get` of the key then finds nothing, and a
-- `Get` of any other key returns what it would have returned without the deletion.
pub get-del :
    (now : ℕ) (k j : Str) (h : Lru)
    → IsValid h
    → h.is_closed ≡ false
    → let after_del = del (some k) h in
      (after_del.1 ≡ ok tt)
      × ((get now (some k) after_del.0).1 ≡ err not_found)
      × (k ≢ j → (get now (some j) after_del.0).1 ≡ (get now (some j) h).1)
get-del now k j h v open_still =
    let removed = del-Agrees h v (some k) in
    let before = get-Agrees h v now (some j) in
    let behind = get-Agrees (del (some k) h).0 removed.0 now (some j) in
    let spec = spec_del_lem k (view h) open_still in
    (
      removed.2 ∙ spec.0,
      get_miss now k (del (some k) h).0 (ap (λ r. r.is_closed) removed.1 ∙ spec.1)
          (lookup-del k h open_still),
      λ other.
          behind.2
          ∙ ap (λ r. (spec_get now (some j) r).1) removed.1
          ∙ spec_get-seek now j _ (view h) spec.1 open_still (spec.2 j other)
          ∙ sym before.2,
    )

-- After `Close`, `Get`, `GetTTL`, `SetWithTTL` (of a value that is not nil, with an accepted TTL) and
-- `Del` report `ErrClosed` for a key that is not nil, `BatchGet` reports it for every key, and none
-- of them changes the handler.
pub close-refuses :
    (now later : ℕ) (k b : Str) (ttl : ℤ) (keys : List (ℕ × Slice)) (h : Lru)
    → IsAccepted ttl
    → let g = close h in
      (get now (some k) g ≡ (g, err closed))
      × (get_ttl now later (some k) g ≡ (g, err closed))
      × (set_with_ttl now (some k) (some b) ttl g ≡ (g, err closed))
      × (del (some k) g ≡ (g, err closed))
      × (batch_get keys g ≡ (g, all_closed keys))
unfolding close get get_ttl set_with_ttl del batch_get validate_basic_op
close-refuses now later k b ttl keys h accepted =
    (ground arith, ground arith, ground arith, ground arith, ground arith)

compute_missing-result :
    (later : ℕ) (key : Slice) (ttl : ℤ) (ctx_err : Option Error) (loader : Result Slice)
    → (others : Lru → Lru) (x : Lru × Result Slice)
    → (compute_missing later key ttl ctx_err loader others x).1
      ≡ (elim x.1 [ ok v ↦ ok v | err _ ↦ elim ctx_err [ some e ↦ err e | none ↦ loader ] ])
unfolding compute_missing
compute_missing-result later key ttl ctx_err loader others (h, ok v) = refl
compute_missing-result later key ttl (some e) loader others (h, err _) = refl
compute_missing-result later key ttl none (ok v) others (h, err _) = refl
compute_missing-result later key ttl none (err e) others (h, err _) = refl

-- `GetOrCompute` of a key that `Get` finds returns that value, whatever the
-- loader would return. If `Get` fails, a live context and a loader that succeeds
-- give the loader's value; a context error and a loader error are passed on, in this order.
pub get_or_compute-result :
    (now later : ℕ) (key : Slice) (ttl : ℤ) (ctx_err : Option Error) (loader : Result Slice)
    → (others : Lru → Lru) (h : Lru)
    → (get_or_compute now later key ttl ctx_err loader others h).1 ≡ (elim (get now key h).1 [
      | ok v ↦ ok v
      | err _ ↦ elim ctx_err [ some e ↦ err e | none ↦ loader ]
    ])
unfolding get_or_compute
get_or_compute-result now later key ttl ctx_err loader others h =
    compute_missing-result later key ttl ctx_err loader others (get now key h)

-- `Set` leaves an open handler open.
pub set_with_ttl-is_closed :
    (now : ℕ) (k b : Str) (ttl : ℤ) (h : Lru)
    → IsValid h
    → h.is_closed ≡ false
    → (set_with_ttl now (some k) (some b) ttl h).0.is_closed ≡ false
set_with_ttl-is_closed now k b ttl h v open_still =
    ap (λ r. r.is_closed) (set-Agrees h v now (some k) (some b) ttl).1
    ∙ spec_set-is_closed now k b ttl (view h) open_still
