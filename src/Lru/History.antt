-- ===== src/Lru/History.antt =====
-- Whole histories of calls on one `LRUHandler`, against the list of entries; and `GetOrCompute`
-- with a history of other goroutines in the middle.
use go_cachex.Base.{ℕ, zero, suc, refl, Option, none, some, List, [], ◌∷◌, ℤ, pos, negsuc, arith}
use go_cachex.Cache.{Error, Result, ok, err, Slice}
use go_cachex.Lru.Defs.{
  Lru, new_lru, get, get_ttl, set_with_ttl, del, batch_get, close, get_or_compute, compute_missing,
  keep_computed, set_forever,
}
use go_cachex.Lru.Spec.{
  Recency, view, IsValid, Agrees, spec_get, spec_get_ttl, spec_set, spec_del, spec_batch_get,
  spec_close,
}
use go_cachex.Lru.Refines.{
  get-Agrees, get_ttl-Agrees, set-Agrees, del-Agrees, batch_get-Agrees, close-Agrees,
  new_lru-IsValid,
}

-- The calls, each with the readings of the clock that it takes.
pub data Call : Type 0 where
  gets : ℕ → Slice → Call
  gets_ttl : ℕ → ℕ → Slice → Call
  sets : ℕ → Slice → Slice → ℤ → Call
  deletes : Slice → Call
  gets_batch : List (ℕ × Slice) → Call
  closes : Call

pub data Reply : Type 0 where
  bytes : Result Slice → Reply
  duration : Result ℤ → Reply
  status : Result (Unit {0}) → Reply
  batch : List (Result Slice) → Reply

unfoldable pub step : Call → Lru → Lru × Reply
step (gets now key) h = let (h', r) = get now key h in (h', bytes r)
step (gets_ttl now later key) h = let (h', r) = get_ttl now later key h in (h', duration r)
step (sets now key value ttl) h = let (h', r) = set_with_ttl now key value ttl h in (h', status r)
step (deletes key) h = let (h', r) = del key h in (h', status r)
step (gets_batch keys) h = let (h', r) = batch_get keys h in (h', batch r)
step closes h = (close h, status (ok tt))

unfoldable pub spec_step : Call → Recency → Recency × Reply
spec_step (gets now key) r = let (r', x) = spec_get now key r in (r', bytes x)
spec_step (gets_ttl now later key) r =
    let (r', x) = spec_get_ttl now later key r in (r', duration x)
spec_step (sets now key value ttl) r = let (r', x) = spec_set now key value ttl r in (r', status x)
spec_step (deletes key) r = let (r', x) = spec_del key r in (r', status x)
spec_step (gets_batch keys) r = let (r', x) = spec_batch_get keys r in (r', batch x)
spec_step closes r = (spec_close r, status (ok tt))

unfoldable pub run : List Call → Lru → Lru × List Reply
unfolding step
run [] h = (h, [])
run (c ∷ cs) h = let (h', x) = step c h in let (h'', xs) = run cs h' in (h'', x ∷ xs)

unfoldable pub spec_run : List Call → Recency → Recency × List Reply
unfolding spec_step
spec_run [] r = (r, [])
spec_run (c ∷ cs) r = let (r', x) = spec_step c r in let (r'', xs) = spec_run cs r' in (r'', x ∷ xs)

pub step-Agrees : (c : Call) (h : Lru) → IsValid h → Agrees (step c h) (spec_step c (view h))
unfolding step spec_step
step-Agrees (gets now key) h v = ground (arith, get-Agrees h v now key)
step-Agrees (gets_ttl now later key) h v = ground (arith, get_ttl-Agrees h v now later key)
step-Agrees (sets now key value ttl) h v = ground (arith, set-Agrees h v now key value ttl)
step-Agrees (deletes key) h v = ground (arith, del-Agrees h v key)
step-Agrees (gets_batch keys) h v = ground (arith, batch_get-Agrees keys h v)
step-Agrees closes h v = ground (arith, close-Agrees h v)

pub run-Agrees_valid :
    (cs : List Call) (h : Lru) → IsValid h → Agrees (run cs h) (spec_run cs (view h))
unfolding run spec_run
run-Agrees_valid [] h v = (v, refl, refl)
run-Agrees_valid (c ∷ cs) h v =
    let one = step-Agrees c h v in
    let rest = run-Agrees_valid cs (step c h).0 one.0 in ground (arith, one, rest)

-- Over every history of calls on a new handler of any capacity, the handler returns what the
-- recency list of the specification returns, call by call, and ends in a valid state whose entries
-- are that list.
pub run-Agrees :
    (n : ℤ) (cs : List Call) → Agrees (run cs (new_lru n)) (spec_run cs (view (new_lru n)))
run-Agrees n cs = run-Agrees_valid cs (new_lru n) (new_lru-IsValid n)

keep_computed-IsValid :
    (now : ℕ) (key : Slice) (ttl : ℤ) (b : Slice) (h : Lru)
    → IsValid h
    → IsValid (keep_computed now key ttl b h)
unfolding keep_computed set_forever
keep_computed-IsValid now key (pos zero) b h v = (set-Agrees h v now key b (negsuc 0)).0
keep_computed-IsValid now key (pos (suc n)) b h v = (set-Agrees h v now key b (pos (suc n))).0
keep_computed-IsValid now key (negsuc n) b h v = (set-Agrees h v now key b (negsuc 0)).0

compute_missing-IsValid :
    (later : ℕ) (key : Slice) (ttl : ℤ) (ctx_err : Option Error) (loader : Result Slice)
    → (others : Lru → Lru) → ((g : Lru) → IsValid g → IsValid (others g))
    → (x : Lru × Result Slice) → IsValid x.0
    → IsValid (compute_missing later key ttl ctx_err loader others x).0
unfolding compute_missing
compute_missing-IsValid later key ttl ctx_err loader others keeps (h, ok b) v = v
compute_missing-IsValid later key ttl (some e) loader others keeps (h, err _) v = v
compute_missing-IsValid later key ttl none (err e) others keeps (h, err _) v = keeps h v
compute_missing-IsValid later key ttl none (ok b) others keeps (h, err _) v =
    keep_computed-IsValid later key ttl b (others h) (keeps h v)

-- `GetOrCompute` keeps a valid handler valid, whatever calls other goroutines make while the loader
-- runs, whether the key was there, the context was cancelled, or the loader failed.
pub get_or_compute-IsValid :
    (now later : ℕ) (key : Slice) (ttl : ℤ) (ctx_err : Option Error) (loader : Result Slice)
    → (cs : List Call) (h : Lru) → IsValid h
    → IsValid (get_or_compute now later key ttl ctx_err loader (λ g. (run cs g).0) h).0
unfolding get_or_compute
get_or_compute-IsValid now later key ttl ctx_err loader cs h v =
    compute_missing-IsValid later key ttl ctx_err loader (λ g. (run cs g).0)
      (λ g w. (run-Agrees_valid cs g w).0) (get now key h) (get-Agrees h v now key).0
