-- ===== src/Ctx/Defs.antt =====
-- ctxcache.go: `CtxCache` over any handler. `ctx_err` is what `ctx.Err()` gives at the check of the context.
use go_cachex.Base.{ℕ, zero, suc, Bool, true, false, Option, none, some, List, ℤ, pos, negsuc, map}
use go_cachex.Cache.{
  Error, Result, ok, err, not_initialized, invalid_value, panic, Slice, validate_basic_op,
  validate_write_op, validate_write_with_ttl_op, validate_ttl,
}
use go_cachex.Handler.{Handler}

module _ (a : Handler) where
  -- A nil handler is `none`.
  pub record CtxCache : Type 0 where
    pub handler : Option a.State

  abbrev pub has_handler : CtxCache → Bool
  has_handler c = elim c.handler [ none ↦ false | some _ ↦ true ]

  unfoldable pub new_ctx_cache : Option a.State → CtxCache
  new_ctx_cache h = record { handler = h }

  -- A method of the handler; a call on nil panics.
  unfoldable pub on_handler {ℓ} :
      {A : Type ℓ} → (a.State → a.State × Result A) → CtxCache → CtxCache × Result A
  on_handler f c = elim c.handler [
    | none ↦ (c, err panic)
    | some s ↦ let (s', r) = f s in (record c { handler = some s' }, r)
  ]

  -- The method runs unless the arguments are refused or the context has ended.
  unfoldable pub guarded {ℓ} :
      {A : Type ℓ}
      → Option Error
      → Option Error
      → (a.State → a.State × Result A)
      → CtxCache
      → CtxCache × Result A
  unfolding on_handler
  guarded (some e) ctx_err f c = (c, err e)
  guarded none (some e) f c = (c, err e)
  guarded none none f c = on_handler f c

  unfoldable pub get : ℕ → Option Error → Slice → CtxCache → CtxCache × Result Slice
  unfolding guarded
  get now ctx_err key c =
      guarded (validate_basic_op key (has_handler c) false) ctx_err (a.get now key) c

  unfoldable pub set_forever :
      ℕ → Option Error → Slice → Slice → CtxCache → CtxCache × Result (Unit {0})
  unfolding guarded
  set_forever now ctx_err key value c =
      guarded (validate_write_op key value (has_handler c) false) ctx_err
        (a.set_forever now key value) c

  unfoldable pub set_with_ttl :
      ℕ → Option Error → Slice → Slice → ℤ → CtxCache → CtxCache × Result (Unit {0})
  unfolding guarded
  set_with_ttl now ctx_err key value ttl c =
      guarded (validate_write_with_ttl_op key value ttl (has_handler c) false) ctx_err
        (a.set_with_ttl now key value ttl) c

  unfoldable pub del : Option Error → Slice → CtxCache → CtxCache × Result (Unit {0})
  unfolding guarded
  del ctx_err key c = guarded (validate_basic_op key (has_handler c) false) ctx_err (a.del key) c

  unfoldable pub get_ttl : ℕ → Slice → CtxCache → CtxCache × Result ℤ
  unfolding on_handler
  get_ttl now key c = on_handler (a.get_ttl now key) c

  unfoldable pub batch_get : ℕ → List Slice → CtxCache → CtxCache × List (Result Slice)
  batch_get now keys c = elim c.handler [
    | none ↦ (c, map (λ _. err not_initialized) keys)
    | some s ↦ let (s', rs) = a.batch_get now keys s in (record c { handler = some s' }, rs)
  ]

  unfoldable pub close : CtxCache → CtxCache × Option Error
  close c = elim c.handler [
    | none ↦ (c, none)
    | some s ↦ let (s', e) = a.close s in (record c { handler = some s' }, e)
  ]

  -- A computed value that is not nil is written; the error of the write is dropped.
  unfoldable pub keep_computed : ℕ → Slice → ℤ → Slice → a.State → a.State
  keep_computed later key ttl none s = s
  keep_computed later key (pos (suc n)) (some v) s =
      (a.set_with_ttl later key (some v) (pos (suc n)) s).0
  keep_computed later key (pos zero) (some v) s = (a.set_forever later key (some v) s).0
  keep_computed later key (negsuc n) (some v) s = (a.set_forever later key (some v) s).0

  -- After the read: `flown` is what `Do` returns, `others` what other goroutines do to the handler
  -- meanwhile.
  unfoldable pub compute_missing :
      ℕ
      → Slice
      → ℤ
      → Result Slice
      → (a.State → a.State)
      → a.State × Result Slice
      → a.State × Result Slice
  unfolding keep_computed
  compute_missing later key ttl flown others (s, ok v) = (s, ok v)
  compute_missing later key ttl (err e) others (s, err _) = (others s, err e)
  compute_missing later key ttl (ok v) others (s, err _) =
      (keep_computed later key ttl v (others s), ok v)

  -- The checks of `GetOrCompute`: the key and the handler, the TTL, the loader.
  unfoldable pub check_compute : Slice → ℤ → Bool → Bool → Option Error
  check_compute key ttl has_loader there = elim (validate_basic_op key there false) [
    | some e ↦ some e
    | none ↦ elim (validate_ttl ttl) [
      | some e ↦ some e
      | none ↦ elim has_loader [ true ↦ none | false ↦ some invalid_value ]
    ]
  ]

  unfoldable pub get_or_compute :
      ℕ
      → ℕ
      → Option Error
      → Slice
      → ℤ
      → Bool
      → Result Slice
      → (a.State → a.State)
      → CtxCache
      → CtxCache × Result Slice
  unfolding guarded check_compute compute_missing
  get_or_compute now later ctx_err key ttl has_loader flown others c =
      guarded (check_compute key ttl has_loader (has_handler c)) ctx_err
        (λ s. compute_missing later key ttl flown others (a.get now key s)) c
