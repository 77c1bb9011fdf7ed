-- ===== src/TwoLevel/Reads.antt =====
-- What a `TwoLevelHandler` returns, given what its two levels promise.
use go_cachex.Base.{ℕ, ◌≡◌, refl, ap, true, false, some, List, [], ◌∷◌, map, length, arith}
use go_cachex.Cache.{Error, Result, ok, err, Str, Slice}
use go_cachex.Handler.{Handler, IsReliable}
use go_cachex.TwoLevel.Defs.{write_l2, TwoLevel, run_job, set_forever, get, missed, merge}

-- With either policy of writing, if L1 is reliable and ready and the value fits it, a `Get` right
-- after a `Set` returns the value.
pub get-set_forever :
    (a b : Handler) (ra : IsReliable a) (now t : ℕ) (k v : Str) (h : TwoLevel a b)
    → ra.Ready h.l1
    → ra.Fits v
    → (get a b t (some k) (set_forever a b now (some k) (some v) h).0).1 ≡ ok (some v)
unfolding get set_forever
get-set_forever a b ra now t k v h ready fits =
    let written = ra.set_ok now k v h.l1 ready fits in
    let read = ra.get-set now t k v h.l1 ready fits in ground (arith, written, read)

-- With write-through and two reliable levels that are ready and that the value fits, a value outlives
-- its loss from L1: `Set` succeeds, and over every state of L1 that misses the key, `Get`
-- returns the value from L2.
pub get-set_forever_lost :
    (a b : Handler) (ra : IsReliable a) (rb : IsReliable b) (now t : ℕ) (k v : Str)
    → (h : TwoLevel a b) (lost : a.State) (e : Error) → h.write_through ≡ true
    → ra.Ready h.l1
    → rb.Ready h.l2
    → ra.Fits v
    → rb.Fits v
    → (a.get t (some k) lost).1 ≡ err e
    → let r = set_forever a b now (some k) (some v) h in
      (r.1 ≡ ok tt) × ((get a b t (some k) (record r.0 { l1 = lost })).1 ≡ ok (some v))
unfolding get set_forever
get-set_forever_lost a b ra rb now t k v h lost e through ready_a ready_b fits_a fits_b miss =
    let written = ra.set_ok now k v h.l1 ready_a fits_a in
    let copied = rb.set_ok now k v h.l2 ready_b fits_b in
    let read = rb.get-set now t k v h.l2 ready_b fits_b in (ground arith, ground arith)

-- Without write-through, over two reliable levels that are ready and that both values fit, two `Set`s
-- of one key leave two goroutines, which may run in either order. If the second runs first, then
-- over every state of L1 that misses the key, `Get` returns the first, overwritten value.
pub set_forever_reordered :
    (a b : Handler) (ra : IsReliable a) (rb : IsReliable b) (now t : ℕ) (k v w : Str)
    → (h : TwoLevel a b) (lost : a.State) (e : Error) → h.write_through ≡ false
    → ra.Ready h.l1
    → rb.Ready h.l2
    → ra.Fits v
    → ra.Fits w
    → rb.Fits v
    → rb.Fits w
    → (a.get t (some k) lost).1 ≡ err e
    → let twice =
        (set_forever a b now (some k) (some w) (set_forever a b now (some k) (some v) h).0).0 in
      let late =
        run_job a b now
          (write_l2 (some k) (some v))
          (run_job a b now (write_l2 (some k) (some w)) twice) in
      (twice.pending ≡ write_l2 (some k) (some w) ∷ write_l2 (some k) (some v) ∷ h.pending)
      × ((get a b t (some k) (record late { l1 = lost })).1 ≡ ok (some v))
unfolding get set_forever run_job
set_forever_reordered a b ra rb now t k v w h lost e async ready_a ready_b va wa vb wb miss =
    let first = ra.set_ok now k v h.l1 ready_a va in
    let second =
      ra.set_ok now k w (a.set_forever now (some k) (some v) h.l1).0
        (ra.set_ready now k v h.l1 ready_a va) wa in
    let between = rb.set_ready now k w h.l2 ready_b wb in
    let read = rb.get-set now t k v (b.set_forever now (some k) (some w) h.l2).0 between vb in
    (ground arith, ground arith)

-- A failed write of L1 is reported, and neither L2 nor the pending goroutines change.
pub set_forever_failed :
    (a b : Handler) (now : ℕ) (key value : Slice) (h : TwoLevel a b) (e : Error)
    → (a.set_forever now key value h.l1).1 ≡ err e
    → let r = set_forever a b now key value h in
      (r.1 ≡ err e) × (r.0.l2 ≡ h.l2) × (r.0.pending ≡ h.pending)
unfolding set_forever
set_forever_failed a b now key value h e failed = ground arith

-- The value of L1 where it has one, and what L2 says of the key where not.
unfoldable pub pick :
    (Slice → Result Slice) → List Slice → List (Result Slice) → List (Result Slice)
pick f (k ∷ ks) (ok v ∷ rs) = ok v ∷ pick f ks rs
pick f (k ∷ ks) (err _ ∷ rs) = f k ∷ pick f ks rs
pick f _ _ = []

-- Putting L2's answers for the missed keys into the gaps of L1's answers gives, key by key, L1's
-- value where it has one and L2's answer for this key where not, if L1 gave one answer for each key.
pub merge-missed :
    (f : Slice → Result Slice) (keys : List Slice) (firsts : List (Result Slice))
    → length firsts ≡ length keys
    → merge firsts (map f (missed keys firsts)) ≡ pick f keys firsts
unfolding merge missed pick
merge-missed f [] [] h = refl
merge-missed f [] (r ∷ rs) h = absurd (omega arith)
merge-missed f (k ∷ ks) [] h = refl
merge-missed f (k ∷ ks) (ok v ∷ rs) h = ap (◌∷◌ (ok v)) (merge-missed f ks rs (omega arith))
merge-missed f (k ∷ ks) (err e ∷ rs) h = ap (◌∷◌ (f k)) (merge-missed f ks rs (omega arith))
