-- ===== src/Cache/Laws.antt =====
-- validate.go: when validation passes, and which error comes first.
use go_cachex.Base.{
  zero, suc, ◌≡◌, refl, ◌↔◌, Bool, true, false, none, some, ℤ, pos, negsuc, arith, if◌then◌else◌,
}
use go_cachex.Cache.Defs.{
  Slice, is_nil, not_initialized, closed, invalid_key, invalid_value, validate_write_with_ttl_op,
  validate_ttl,
}

-- A TTL is accepted from -1, which stands for no expiry.
abbrev pub TtlFits : ℤ → Type 0
TtlFits (pos n) = Unit
TtlFits (negsuc zero) = Unit
TtlFits (negsuc (suc n)) = ⊥

validate_ttl-TtlFits : (t : ℤ) → (validate_ttl t ≡ none) ↔ TtlFits t
unfolding validate_ttl
validate_ttl-TtlFits (pos n) = ground arith
validate_ttl-TtlFits (negsuc zero) = ground arith
validate_ttl-TtlFits (negsuc (suc n)) = ground arith

-- A write with a TTL passes validation exactly when the key and the value are not nil, the handler
-- is initialized and open, and the TTL is at least -1.
pub validate_write_with_ttl_op-none_iff :
    (key value : Slice) (ttl : ℤ) (initialized is_closed : Bool)
    → (validate_write_with_ttl_op key value ttl initialized is_closed ≡ none) ↔ (
        (is_nil key ≡ false)
        × (initialized ≡ true)
        × (is_closed ≡ false)
        × (is_nil value ≡ false)
        × TtlFits ttl)
unfolding validate_write_with_ttl_op
validate_write_with_ttl_op-none_iff key value ttl initialized is_closed =
    ground (arith, validate_ttl-TtlFits ttl)

-- The first failing check decides the error: the key, then initialization, then closing, then the
-- value, then the TTL.
pub validate_write_with_ttl_op-order :
    (key value : Slice) (ttl : ℤ) (initialized is_closed : Bool)
    → validate_write_with_ttl_op key value ttl initialized is_closed ≡ (
        if is_nil key
        then some invalid_key
        else if initialized
        then (if is_closed
            then some closed
            else if is_nil value
            then some invalid_value
            else validate_ttl ttl)
        else some not_initialized)
unfolding validate_write_with_ttl_op
validate_write_with_ttl_op-order none value ttl initialized is_closed = refl
validate_write_with_ttl_op-order (some k) value ttl initialized is_closed = ground arith
