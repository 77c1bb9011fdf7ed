-- ===== src/Hot/Evicts.antt =====
-- hotkey.go: the loop of the eviction.
use go_cachex.Base.{
  ℕ, zero, suc, ◌+◌, ◌≤◌, ◌<◌, ◌≡◌, refl, ap, ◌∙◌, inl, inr, none, some, List, [], ◌∷◌, length,
  arith, Option-cases,
}
use go_cachex.Cache.{Str, dec_str}
use go_cachex.Table.{lookup, delete, lookup-delete}
use go_cachex.Hot.Defs.{Data, HotKeyCache, share_to_evict, evict_oldest, cleanup_tick}
use go_cachex.Hot.Order.{Distinct, Covers, delete-Distinct, length-delete}

module _ (V : Type 0) where
  Covers-skip :
      (k : Str) (order : List Str) (m : Data V)
      → lookup k m ≡ none
      → Covers V (k ∷ order) m
      → Covers V order m
  Covers-skip k order m gone h j here = elim (h j here) [
    | inl e ↦ absurd (here (ap (λ i. lookup i m) e ∙ gone))
    | inr later ↦ later
  ]

  Covers-delete :
      (k : Str) (order : List Str) (m : Data V)
      → Covers V (k ∷ order) m
      → Covers V order (delete k m)
  Covers-delete k order m h j here = elim (dec_str j k) [
    | yes e ↦ absurd (here (ground (arith, lookup-delete j k m)))
    | no ne ↦ elim (h j (λ gone. here (ground (arith, lookup-delete j k m)))) [
      | inl e ↦ absurd (ne e)
      | inr later ↦ later
    ]
  ]

  empty_of-Covers : (m : Data V) → Covers V [] m → m ≡ []
  unfolding lookup
  empty_of-Covers [] h = refl
  empty_of-Covers ((k, v) ∷ m) h = absurd (h k (λ e. ground (arith)))

  evict_miss :
      (n : ℕ) (k : Str) (order : List Str) (m : Data V)
      → lookup k m ≡ none
      → evict_oldest V (suc n) (k ∷ order) m ≡ evict_oldest V (suc n) order m
  unfolding evict_oldest
  evict_miss n k order m gone = ground arith

  pub evict_hit :
      (n : ℕ) (k : Str) (v : V) (order : List Str) (m : Data V)
      → lookup k m ≡ some v
      → evict_oldest V (suc n) (k ∷ order) m ≡ evict_oldest V n order (delete k m)
  unfolding evict_oldest
  evict_hit n k v order m here = ground arith

  -- The loop evicts as many entries as it is to, and keeps every entry that is left in the order.
  pub evict_oldest_lem :
      (n : ℕ) (order : List Str) (m : Data V)
      → Distinct V m
      → Covers V order m
      → n ≤ length m
      → let y = evict_oldest V n order m in
        (length y.0 + n ≡ length m) × Distinct V y.0 × Covers V y.1 y.0
  evict_oldest_lem zero order m d h fits = unfold evict_oldest in (omega arith, d, h)
  evict_oldest_lem (suc n) [] m d h fits = absurd (omega (arith, ap length (empty_of-Covers m h)))
  evict_oldest_lem (suc n) (k ∷ order) m d h fits = elim (Option-cases (lookup k m)) [
    | inl gone ↦
        rw (evict_miss n k order m gone)
          (evict_oldest_lem (suc n) order m d (Covers-skip k order m gone h) fits)
    | inr (v, here) ↦
        let shorter = length-delete V k v m d here in
        let (counted, d', h') =
          evict_oldest_lem n order (delete k m) (delete-Distinct V k m d)
            (Covers-delete k order m h) (omega arith) in
        rw (evict_hit n k v order m here) (omega arith, d', h')
  ]

  pub evict_oldest-none :
      (n : ℕ) (order : List Str) (j : Str) (m : Data V)
      → lookup j m ≡ none
      → lookup j (evict_oldest V n order m).0 ≡ none
  evict_oldest-none zero order j m gone = unfold evict_oldest in gone
  evict_oldest-none (suc n) [] j m gone = unfold evict_oldest in gone
  evict_oldest-none (suc n) (k ∷ order) j m gone = elim (Option-cases (lookup k m)) [
    | inl miss ↦ rw (evict_miss n k order m miss) (evict_oldest-none (suc n) order j m gone)
    | inr (v, here) ↦
        rw (evict_hit n k v order m here)
          (evict_oldest-none n order j (delete k m) (ground (arith, lookup-delete j k m)))
  ]

  pub share_fits : (n : ℕ) → 0 < n → share_to_evict n ≤ n
  share_fits n h = ground arith

  pub cleanup_tick_full :
      (h : HotKeyCache V)
      → h.max_local_cache_size < length h.local_cache
      → let y =
          evict_oldest V (share_to_evict (length h.local_cache)) h.access_order h.local_cache in
        cleanup_tick V h ≡ record h { local_cache = y.0; access_order = y.1 }
  unfolding cleanup_tick
  cleanup_tick_full h full = ground arith

  pub cleanup_tick_small :
      (h : HotKeyCache V) → length h.local_cache ≤ h.max_local_cache_size → cleanup_tick V h ≡ h
  unfolding cleanup_tick
  cleanup_tick_small h small = ground arith
