-- ===== src/Ctx/Stores.antt =====
-- ctxcache.go: what `GetOrCompute` of `CtxCache` leaves in the handler.
use go_cachex.Base.{ℕ, ◌≡◌, true, none, some, negsuc, arith}
use go_cachex.Cache.{
  Error, ok, err, Str, validate_basic_op, validate_key, validate_initialized, validate_closed,
  validate_ttl,
}
use go_cachex.Handler.{Handler, IsReliable}
use go_cachex.Ctx.Defs.{
  get, get_or_compute, guarded, on_handler, check_compute, compute_missing, keep_computed,
}

-- With a live context and a reliable handler, a key that the handler misses and whose load through
-- `Do` gives a value that fits is stored: `GetOrCompute` without a TTL returns the value, and a
-- `Get` right afterwards does, if the handler is ready when the load is over.
pub ctx_get_or_compute-stores :
    (a : Handler) (r : IsReliable a) (now later t : ℕ) (k v : Str) (e : Error)
    → (others : a.State → a.State) (s : a.State) → (a.get now (some k) s).1 ≡ err e
    → r.Ready (others (a.get now (some k) s).0)
    → r.Fits v
    → let x =
        get_or_compute a now later none
          (some k)
          (negsuc 0)
          true
          (ok (some v))
          others
          (record { handler = some s }) in
      (x.1 ≡ ok (some v)) × ((get a t none (some k) x.0).1 ≡ ok (some v))
unfolding get get_or_compute guarded on_handler check_compute compute_missing keep_computed
    validate_basic_op validate_key validate_initialized validate_closed validate_ttl
ctx_get_or_compute-stores a r now later t k v e others s miss ready fits =
    let read = r.get-set later t k v (others (a.get now (some k) s).0) ready fits in
    (ground (arith, miss), ground (arith, miss, read))
