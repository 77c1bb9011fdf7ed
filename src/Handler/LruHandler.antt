-- ===== src/Handler/LruHandler.antt =====
-- `LRUHandler` as a `Handler`, and its theorems as the laws that clients rely on.
use go_cachex.Base.{ℕ, ◌≤◌, ◌≡◌, refl, ◌∙◌, ap, false, none, some, negsuc, map, length, arith}
use go_cachex.Cache.{ok, Str}
use go_cachex.Handler.Defs.{Handler, IsReliable}
use go_cachex.Lru.{
  Lru, get, get_ttl, set_forever, set_with_ttl, del, batch_get, get_or_compute, close, copy_bytes,
  max_value_size, expiry_at,
}
use go_cachex.Lru.Spec.{IsValid}
use go_cachex.Lru.Refines.{set-Agrees}
use go_cachex.Lru.Behaviour.{get-set_with_ttl, set_with_ttl-is_closed}

abbrev pub lru_handler : Handler
lru_handler = record {
  State = Lru;
  get = get;
  get_ttl = λ now. get_ttl now now;
  set_forever = set_forever;
  set_with_ttl = set_with_ttl;
  del = del;
  batch_get = λ now keys. batch_get (map (λ k. (now, k)) keys);
  get_or_compute =
      λ now later key ttl ctx_err loader. get_or_compute now later key ttl ctx_err loader (λ h. h);
  close = λ h. (close h, none);
}

abbrev pub IsOpen : Lru → Type 0
IsOpen h = IsValid h × (h.is_closed ≡ false)

abbrev pub FitsLru : Str → Type 0
FitsLru b = length b ≤ max_value_size

pub lru_set_ready :
    (now : ℕ) (k b : Str) (h : Lru)
    → IsOpen h
    → FitsLru b
    → IsOpen (set_forever now (some k) (some b) h).0
unfolding set_forever
lru_set_ready now k b h (v, open_still) fits = (
  (set-Agrees h v now (some k) (some b) (negsuc 0)).0,
  set_with_ttl-is_closed now k b (negsuc 0) h v open_still,
)

pub lru_set_ok :
    (now : ℕ) (k b : Str) (h : Lru)
    → IsOpen h
    → FitsLru b
    → (set_forever now (some k) (some b) h).1 ≡ ok tt
unfolding set_forever
lru_set_ok now k b h (v, open_still) fits =
    (get-set_with_ttl now now k b (negsuc 0) h v open_still refl).0

copy_bytes-fits : (b : Str) → FitsLru b → copy_bytes (some b) ≡ some b
unfolding copy_bytes
copy_bytes-fits b fits = ground arith

pub lru_get-set :
    (now t : ℕ) (k b : Str) (h : Lru)
    → IsOpen h
    → FitsLru b
    → (get t (some k) (set_forever now (some k) (some b) h).0).1 ≡ ok (some b)
unfolding set_forever expiry_at
lru_get-set now t k b h (v, open_still) fits =
    (get-set_with_ttl now t k b (negsuc 0) h v open_still refl).1 ∙ ap ok (copy_bytes-fits b fits)

abbrev pub lru_reliable : IsReliable lru_handler
lru_reliable = record {
  Ready = IsOpen;
  Fits = FitsLru;
  set_ready = lru_set_ready;
  set_ok = lru_set_ok;
  get-set = lru_get-set;
}
