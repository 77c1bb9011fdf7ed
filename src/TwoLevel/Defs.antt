-- ===== src/TwoLevel/Defs.antt =====
-- twolevel.go: the definitions.
use go_cachex.Base.{
  ℕ, zero, suc, Bool, Option, none, some, List, [], ◌∷◌, ◌++◌, ℤ, pos, negsuc, if◌then◌else◌,
}
use go_cachex.Cache.{Error, Result, ok, err, not_found, panic, Slice, to_string}
use go_cachex.Handler.{Handler}

-- The goroutines that the methods start.
pub data Job : Type 0 where
  write_l2 : Slice → Slice → Job
  write_l2_ttl : Slice → Slice → ℤ → Job
  promote : Slice → Slice → Job
  promote_ttl : Slice → Slice → ℤ → Job

-- The keys that L1 misses, in order.
unfoldable pub missed : List Slice → List (Result Slice) → List Slice
missed (k ∷ ks) (ok _ ∷ rs) = missed ks rs
missed (k ∷ ks) (err _ ∷ rs) = k ∷ missed ks rs
missed _ _ = []

-- The results of L2, put in the places of the misses.
unfoldable pub merge : List (Result Slice) → List (Result Slice) → List (Result Slice)
merge [] seconds = []
merge (ok v ∷ firsts) seconds = ok v ∷ merge firsts seconds
merge (err e ∷ firsts) [] = err panic ∷ merge firsts []
merge (err e ∷ firsts) (r ∷ seconds) = r ∷ merge firsts seconds

-- A goroutine for each hit of L2.
unfoldable pub promotions : List Slice → List (Result Slice) → List Job
promotions (k ∷ ks) (ok v ∷ rs) = promote k v ∷ promotions ks rs
promotions (k ∷ ks) (err _ ∷ rs) = promotions ks rs
promotions _ _ = []

module _ (a b : Handler) where
  pub record TwoLevel : Type 0 where
    pub l1 : a.State
    pub l2 : b.State
    pub write_through : Bool
    pub pending : List Job

  -- One goroutine runs.
  unfoldable pub run_job : ℕ → Job → TwoLevel → TwoLevel
  run_job now (write_l2 key value) h = record h { l2 = (b.set_forever now key value h.l2).0 }
  run_job now (write_l2_ttl key value ttl) h = record h {
    l2 = (b.set_with_ttl now key value ttl h.l2).0;
  }
  run_job now (promote key value) h = record h { l1 = (a.set_forever now key value h.l1).0 }
  run_job now (promote_ttl key value ttl) h = record h {
    l1 = (a.set_with_ttl now key value ttl h.l1).0;
  }

  -- L1 has been written; now L2, at once or by a goroutine.
  unfoldable pub write_second :
      ℕ → Slice → Slice → TwoLevel → Result (Unit {0}) → TwoLevel × Result (Unit {0})
  write_second now key value h (err e) = (h, err e)
  write_second now key value h (ok _) =
      if h.write_through
      then (let (s, r) = b.set_forever now key value h.l2 in (record h { l2 = s }, r))
      else (record h { pending = write_l2 key value ∷ h.pending }, ok tt)

  unfoldable pub set_forever : ℕ → Slice → Slice → TwoLevel → TwoLevel × Result (Unit {0})
  unfolding write_second
  set_forever now key value h =
      let (s, r) = a.set_forever now key value h.l1 in
      write_second now key value (record h { l1 = s }) r

  unfoldable pub write_second_ttl :
      ℕ → Slice → Slice → ℤ → TwoLevel → Result (Unit {0}) → TwoLevel × Result (Unit {0})
  write_second_ttl now key value ttl h (err e) = (h, err e)
  write_second_ttl now key value ttl h (ok _) =
      if h.write_through
      then (let (s, r) = b.set_with_ttl now key value ttl h.l2 in (record h { l2 = s }, r))
      else (record h { pending = write_l2_ttl key value ttl ∷ h.pending }, ok tt)

  unfoldable pub set_with_ttl : ℕ → Slice → Slice → ℤ → TwoLevel → TwoLevel × Result (Unit {0})
  unfolding write_second_ttl
  set_with_ttl now key value ttl h =
      let (s, r) = a.set_with_ttl now key value ttl h.l1 in
      write_second_ttl now key value ttl (record h { l1 = s }) r

  -- The value of L2 goes to L1, with the time it has left if that is positive.
  unfoldable pub promote_read : ℕ → Slice → Slice → Result ℤ → TwoLevel → TwoLevel
  promote_read now key v (ok (pos (suc n))) h = record h {
    l1 = (a.set_with_ttl now key v (pos (suc n)) h.l1).0;
  }
  promote_read now key v (ok (pos zero)) h = record h { l1 = (a.set_forever now key v h.l1).0 }
  promote_read now key v (ok (negsuc n)) h = record h { l1 = (a.set_forever now key v h.l1).0 }
  promote_read now key v (err _) h = record h { l1 = (a.set_forever now key v h.l1).0 }

  -- After the read of L2.
  unfoldable pub get_second : ℕ → Slice → TwoLevel → Result Slice → TwoLevel × Result Slice
  unfolding promote_read
  get_second now key h (err _) = (h, err not_found)
  get_second now key h (ok v) =
      let (s, ttl) = b.get_ttl now key h.l2 in
      (promote_read now key v ttl (record h { l2 = s }), ok v)

  -- After the read of L1.
  unfoldable pub get_first : ℕ → Slice → TwoLevel → Result Slice → TwoLevel × Result Slice
  unfolding get_second
  get_first now key h (ok v) = (h, ok v)
  get_first now key h (err _) =
      let (s, r) = b.get now key h.l2 in get_second now key (record h { l2 = s }) r

  unfoldable pub get : ℕ → Slice → TwoLevel → TwoLevel × Result Slice
  unfolding get_first
  get now key h = let (s, r) = a.get now key h.l1 in get_first now key (record h { l1 = s }) r

  unfoldable pub get_ttl : ℕ → Slice → TwoLevel → TwoLevel × Result ℤ
  get_ttl now key h =
      let (s, r) = a.get_ttl now key h.l1 in
      elim r [
        | ok t ↦ (record h { l1 = s }, ok t)
        | err _ ↦ let (u, q) = b.get_ttl now key h.l2 in (record h { l1 = s; l2 = u }, q)
      ]

  unfoldable pub del : Slice → TwoLevel → TwoLevel × Result (Unit {0})
  del key h =
      let (s, _) = a.del key h.l1 in let (t, r) = b.del key h.l2 in (record h { l1 = s; l2 = t }, r)

  -- L1 answered `firsts`; L2 is asked only if something is missing.
  unfoldable pub batch_second :
      ℕ → List Slice → TwoLevel → List (Result Slice) → List Slice → TwoLevel × List (Result Slice)
  unfolding merge promotions
  batch_second now keys h firsts [] = (h, firsts)
  batch_second now keys h firsts (k ∷ ks) =
      let (s, seconds) = b.batch_get now (k ∷ ks) h.l2 in
      (
        record h { l2 = s; pending = promotions (k ∷ ks) seconds ++ h.pending },
        merge firsts seconds,
      )

  unfoldable pub batch_get : ℕ → List Slice → TwoLevel → TwoLevel × List (Result Slice)
  unfolding batch_second missed
  batch_get now [] h = (h, [])
  batch_get now (k ∷ ks) h =
      let (s, firsts) = a.batch_get now (k ∷ ks) h.l1 in
      batch_second now (k ∷ ks) (record h { l1 = s }) firsts (missed (k ∷ ks) firsts)

  -- The goroutine that promotes a value found in L2 by `GetOrCompute`, with the caller's TTL.
  unfoldable pub promotion_for : Slice → Slice → ℤ → Job
  promotion_for key v (pos (suc n)) = promote_ttl key v (pos (suc n))
  promotion_for key v (pos zero) = promote key v
  promotion_for key v (negsuc n) = promote key v

  -- Both levels take the computed value; their errors are dropped.
  unfoldable pub keep_both : ℕ → Slice → Slice → ℤ → TwoLevel → TwoLevel
  keep_both now key v (pos (suc n)) h = record h {
    l1 = (a.set_with_ttl now key v (pos (suc n)) h.l1).0;
    l2 = (b.set_with_ttl now key v (pos (suc n)) h.l2).0;
  }
  keep_both now key v (pos zero) h = record h {
    l1 = (a.set_forever now key v h.l1).0;
    l2 = (b.set_forever now key v h.l2).0;
  }
  keep_both now key v (negsuc n) h = record h {
    l1 = (a.set_forever now key v h.l1).0;
    l2 = (b.set_forever now key v h.l2).0;
  }

  -- Both levels have missed; `others` runs beside the loader.
  unfoldable pub compute_missing :
      ℕ → Slice → ℤ → Result Slice → (TwoLevel → TwoLevel) → TwoLevel → TwoLevel × Result Slice
  unfolding keep_both
  compute_missing later key ttl (err e) others h = (others h, err e)
  compute_missing later key ttl (ok v) others h =
      (keep_both later key v ttl (others h), ok (some (to_string v)))

  unfoldable pub compute_second :
      ℕ
      → Slice
      → ℤ
      → Result Slice
      → (TwoLevel → TwoLevel)
      → TwoLevel
      → Result Slice
      → TwoLevel × Result Slice
  unfolding compute_missing promotion_for
  compute_second later key ttl loader others h (ok v) =
      (record h { pending = promotion_for key v ttl ∷ h.pending }, ok v)
  compute_second later key ttl loader others h (err _) =
      compute_missing later key ttl loader others h

  unfoldable pub compute_first :
      ℕ
      → ℕ
      → Slice
      → ℤ
      → Result Slice
      → (TwoLevel → TwoLevel)
      → TwoLevel
      → Result Slice
      → TwoLevel × Result Slice
  unfolding compute_second
  compute_first now later key ttl loader others h (ok v) = (h, ok v)
  compute_first now later key ttl loader others h (err _) =
      let (s, r) = b.get now key h.l2 in
      compute_second later key ttl loader others (record h { l2 = s }) r

  unfoldable pub get_or_compute :
      ℕ → ℕ → Slice → ℤ → Result Slice → (TwoLevel → TwoLevel) → TwoLevel → TwoLevel × Result Slice
  unfolding compute_first
  get_or_compute now later key ttl loader others h =
      let (s, r) = a.get now key h.l1 in
      compute_first now later key ttl loader others (record h { l1 = s }) r

  -- The error of L2, or else that of L1.
  unfoldable pub close : TwoLevel → TwoLevel × Option Error
  close h =
      let (s, e) = a.close h.l1 in
      let (t, f) = b.close h.l2 in
      (record h { l1 = s; l2 = t }, elim f [ some x ↦ some x | none ↦ e ])
