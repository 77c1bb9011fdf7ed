-- ===== src/Cache/Defs.antt =====
-- cache.go and validate.go: the definitions.
use go_cachex.Base.{
  ℕ, zero, suc, refl, Bool, true, false, not, ◌&&◌, Option, none, some, List, [], ◌∷◌, ltb, leb,
  ◌==◌, if◌then◌else◌, ℤ, pos, negsuc, ap, ℕ_discrete,
}

-- The sentinel errors of cache.go, an error of the context (`ctx.Err()`), an error that a loader
-- returned, and a run-time panic (a nil dereference).
pub data Error : Type 0 where
  not_found data_write data_read closed invalid_key invalid_value invalid_ttl : Error
  capacity_exceeded not_initialized unavailable timeout : Error
  context_error panic : Error
  loader_error : ℕ → Error

pub data Result {ℓ} (A : Type ℓ) : Type ℓ where
  ok : A → Result A
  err : Error → Result A

abbrev pub Str : Type 0
Str = List ℕ

abbrev pub Slice : Type 0
Slice = Option Str

-- `string(b)`; a nil slice is the empty string.
abbrev pub to_string : Slice → Str
to_string none = []
to_string (some s) = s

abbrev pub is_nil : Slice → Bool
is_nil none = true
is_nil (some _) = false

abbrev pub head_of : ℕ → Str → ℕ
head_of d [] = d
head_of d (x ∷ _) = x

abbrev pub tail_of : Str → Str
tail_of [] = []
tail_of (_ ∷ s) = s

unfoldable pub dec_str : Discrete Str
unfolding ℕ_discrete
dec_str [] [] = yes refl
dec_str [] (_ ∷ _) = no (λ e. cc)
dec_str (_ ∷ _) [] = no (λ e. cc)
dec_str (x ∷ s) (y ∷ t) = elim (ℕ_discrete x y) [
  | yes p ↦ elim (dec_str s t) [ yes q ↦ yes (cc) | no q ↦ no (λ e. q (ap tail_of e)) ]
  | no p ↦ no (λ e. p (ap (head_of 0) e))
]

abbrev pub second : ℕ
second = 1_000_000_000

abbrev pub is_zero : ℕ → Bool
is_zero t = t == 0

-- `t.After(u)`
abbrev pub after : ℕ → ℕ → Bool
after t u = ltb u t

-- `!expiry.IsZero() && now.After(expiry)`
abbrev pub is_expired : ℕ → ℕ → Bool
is_expired expiry now = not (is_zero expiry) && after now expiry

-- validate.go; nil is `none`.
unfoldable pub validate_key : Slice → Option Error
validate_key key = if is_nil key then some invalid_key else none

unfoldable pub validate_value : Slice → Option Error
validate_value value = if is_nil value then some invalid_value else none

unfoldable pub validate_ttl : ℤ → Option Error
validate_ttl (pos n) = none
validate_ttl (negsuc zero) = none
validate_ttl (negsuc (suc n)) = some invalid_ttl

unfoldable pub validate_initialized : Bool → Option Error
validate_initialized initialized = if not initialized then some not_initialized else none

unfoldable pub validate_closed : Bool → Option Error
validate_closed is_closed = if is_closed then some closed else none

unfoldable pub validate_capacity : ℤ → ℤ → Option Error
validate_capacity current (negsuc n) = none
validate_capacity (negsuc n) (pos m) = none
validate_capacity (pos n) (pos m) = if ltb 0 m && leb m n then some capacity_exceeded else none

-- `if err := first; err != nil { return err }; ...`
infixr 20 ◌orelse◌
abbrev pub ◌orelse◌ : Option Error → Option Error → Option Error
some e orelse rest = some e
none orelse rest = rest

unfoldable pub validate_basic_op : Slice → Bool → Bool → Option Error
unfolding validate_key validate_initialized validate_closed
validate_basic_op key initialized is_closed =
    validate_key key orelse validate_initialized initialized orelse validate_closed is_closed

unfoldable pub validate_write_op : Slice → Slice → Bool → Bool → Option Error
unfolding validate_basic_op validate_value
validate_write_op key value initialized is_closed =
    validate_basic_op key initialized is_closed orelse validate_value value

unfoldable pub validate_write_with_ttl_op : Slice → Slice → ℤ → Bool → Bool → Option Error
unfolding validate_write_op validate_ttl
validate_write_with_ttl_op key value ttl initialized is_closed =
    validate_write_op key value initialized is_closed orelse validate_ttl ttl
