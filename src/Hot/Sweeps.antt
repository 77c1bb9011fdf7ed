-- ===== src/Hot/Sweeps.antt =====
-- hotkey.go: how many entries a tick of the cleanup evicts, and which.
use go_cachex.Base.{
  ℕ, suc, ◌+◌, ◌-◌, ◌<◌, ◌≡◌, ◌≢◌, refl, sym, ap, ◌∙◌, ◌⊎◌, inl, inr, none, some, List, [], ◌∷◌,
  ◌++◌, length, arith, Option-cases, leb, dec_lt, if◌then◌else◌,
}
use go_cachex.Cache.{Str, dec_str}
use go_cachex.Table.{lookup, delete, assign, lookup-delete, lookup-assign}
use go_cachex.Hot.Defs.{
  Data, HotKeyCache, HotKeyConfig, new_hot_key_cache, replace_local, put_local, delete_local,
  clear_local, share_to_evict, evict_oldest, cleanup_tick,
}
use go_cachex.Hot.Order.{
  Covers, IsTracked, Listed-append_left, Listed-append_right, delete-Distinct, assign-Distinct,
  copy_map-Distinct, lookup-copy_map,
}
use go_cachex.Hot.Evicts.{
  evict_hit, evict_oldest_lem, share_fits, cleanup_tick_full, cleanup_tick_small, evict_oldest-none,
}

module _ (V : Type 0) where
  -- The critical sections that change the local copy, in which `walk` is the order of a loop over a map.
  pub data Change : Type 0 where
    puts : Str → V → Change
    deletes : Str → Change
    replaces : (Data V → List Str) → Data V → ℕ → Change
    clears : ℕ → Change
    ticks : Change

  -- A loop over a map comes to each key.
  abbrev pub IsWalk : Change → Type 0
  IsWalk (puts k v) = Unit
  IsWalk (deletes k) = Unit
  IsWalk (replaces walk m now) = Covers V (walk m) m
  IsWalk (clears now) = Unit
  IsWalk ticks = Unit

  abbrev pub AllWalk : List Change → Type 0
  AllWalk [] = Unit
  AllWalk (c ∷ cs) = IsWalk c × AllWalk cs

  unfoldable pub change : Change → HotKeyCache V → HotKeyCache V
  change (puts k v) h = put_local V k v h
  change (deletes k) h = delete_local V k h
  change (replaces walk m now) h = replace_local V walk m now h
  change (clears now) h = clear_local V now h
  change ticks h = cleanup_tick V h

  unfoldable pub change_all : List Change → HotKeyCache V → HotKeyCache V
  unfolding change
  change_all [] h = h
  change_all (c ∷ cs) h = change_all cs (change c h)

  put_new :
      (k : Str) (v : V) (h : HotKeyCache V)
      → lookup k h.local_cache ≡ none
      → put_local V k v h ≡ record h {
        access_order = h.access_order ++ k ∷ [];
        local_cache = assign k v h.local_cache;
      }
  unfolding put_local
  put_new k v h gone = ground arith

  put_old :
      (k : Str) (v w : V) (h : HotKeyCache V)
      → lookup k h.local_cache ≡ some w
      → put_local V k v h ≡ record h { local_cache = assign k v h.local_cache }
  unfolding put_local
  put_old k v w h here = ground arith

  assign_known :
      (j k : Str) (v : V) (m : Data V)
      → lookup j (assign k v m) ≢ none
      → (j ≡ k) ⊎ (lookup j m ≢ none)
  assign_known j k v m here = elim (dec_str j k) [
    | yes e ↦ inl e
    | no ne ↦ inr (λ gone. here (ground (arith, lookup-assign j k v m)))
  ]

  Covers-append :
      (k : Str) (v : V) (order : List Str) (m : Data V)
      → Covers V order m
      → Covers V (order ++ k ∷ []) (assign k v m)
  Covers-append k v order m h j here = elim (assign_known j k v m here) [
    | inl e ↦ Listed-append_right j order (k ∷ []) (inl e)
    | inr old ↦ Listed-append_left j order (k ∷ []) (h j old)
  ]

  Covers-assign :
      (k : Str) (v : V) (order : List Str) (m : Data V)
      → lookup k m ≢ none
      → Covers V order m
      → Covers V order (assign k v m)
  Covers-assign k v order m known h j here = elim (assign_known j k v m here) [
    | inl e ↦ h j (λ gone. known (ap (λ i. lookup i m) (sym e) ∙ gone))
    | inr old ↦ h j old
  ]

  put_local-IsTracked :
      (k : Str) (v : V) (h : HotKeyCache V) → IsTracked V h → IsTracked V (put_local V k v h)
  put_local-IsTracked k v h t =
      let d = assign-Distinct V k v h.local_cache t.distinct in
      elim (Option-cases (lookup k h.local_cache)) [
        | inl gone ↦ rw (put_new k v h gone) (record {
          distinct = d;
          covers = Covers-append k v h.access_order h.local_cache t.covers;
        })
        | inr (w, here) ↦ rw (put_old k v w h here) (record {
          distinct = d;
          covers = Covers-assign k v h.access_order h.local_cache (λ gone. ground (arith)) t.covers;
        })
      ]

  cleanup_tick-IsTracked : (h : HotKeyCache V) → IsTracked V h → IsTracked V (cleanup_tick V h)
  cleanup_tick-IsTracked h t = elim (dec_lt h.max_local_cache_size (length h.local_cache)) [
    | no small ↦ rw (cleanup_tick_small V h (omega arith)) t
    | yes full ↦
        let (counted, d, c) =
          evict_oldest_lem V (share_to_evict (length h.local_cache)) h.access_order h.local_cache
            t.distinct t.covers (share_fits V _ (omega arith)) in
        rw (cleanup_tick_full V h full) (record { distinct = d; covers = c })
  ]

  change-IsTracked :
      (c : Change) (h : HotKeyCache V) → IsWalk c → IsTracked V h → IsTracked V (change c h)
  unfolding change
  change-IsTracked (puts k v) h w t = put_local-IsTracked k v h t
  change-IsTracked (deletes k) h w t =
      unfold delete_local in
      (record {
        distinct = delete-Distinct V k h.local_cache t.distinct;
        covers =
            λ j here. t.covers j (λ gone. here (ground (arith, lookup-delete j k h.local_cache)));
      })
  change-IsTracked (replaces walk m now) h w t =
      unfold replace_local in
      (record {
        distinct = copy_map-Distinct V m;
        covers = λ j here. w j (λ gone. here (lookup-copy_map V j m ∙ gone));
      })
  change-IsTracked (clears now) h w t =
      unfold clear_local lookup in (record { distinct = tt; covers = λ j here. absurd (here refl) })
  change-IsTracked ticks h w t = cleanup_tick-IsTracked h t

  change_all-IsTracked :
      (cs : List Change) (h : HotKeyCache V)
      → AllWalk cs
      → IsTracked V h
      → IsTracked V (change_all cs h)
  unfolding change_all
  change_all-IsTracked [] h w t = t
  change_all-IsTracked (c ∷ cs) h (w, ws) t =
      change_all-IsTracked cs (change c h) ws (change-IsTracked c h w t)

  evicts_or_not :
      (h : HotKeyCache V)
      → IsTracked V h
      → let n = length h.local_cache in
        length (cleanup_tick V h).local_cache
          + (if leb n h.max_local_cache_size then 0 else share_to_evict n)
        ≡ n
  evicts_or_not h t = elim (dec_lt h.max_local_cache_size (length h.local_cache)) [
    | yes full ↦
        let n = length h.local_cache in
        let (counted, _, _) =
          evict_oldest_lem V (share_to_evict n) h.access_order h.local_cache t.distinct t.covers
            (share_fits V _ (omega arith)) in
        let e : (if leb n h.max_local_cache_size then 0 else share_to_evict n) ≡ share_to_evict n =
          ground arith in
        rw (cleanup_tick_full V h full, e) counted
    | no small ↦
        let n = length h.local_cache in
        let e : (if leb n h.max_local_cache_size then 0 else share_to_evict n) ≡ 0 = ground arith in
        rw (cleanup_tick_small V h (omega arith), e) (omega arith)
  ]

  -- After any changes of a new cache, with loops that come to each key of a map, a tick of the cleanup that
  -- finds more entries than the limit evicts exactly a fifth of them, and at least one; otherwise it
  -- evicts none.
  pub cleanup_tick-evicts :
      (key_name : Str) (c : HotKeyConfig) (cs : List Change)
      → AllWalk cs
      → let h = change_all cs (new_hot_key_cache V key_name c) in
        let n = length h.local_cache in
        length (cleanup_tick V h).local_cache
          + (if leb n h.max_local_cache_size then 0 else share_to_evict n)
        ≡ n
  cleanup_tick-evicts key_name c cs walks =
      let new = new_hot_key_cache V key_name c in
      let fresh : IsTracked V new =
        unfold new_hot_key_cache lookup in
        (record { distinct = tt; covers = λ j here. absurd (here refl) }) in
      evicts_or_not (change_all cs new) (change_all-IsTracked cs new walks fresh)

  one_more : (n : ℕ) → (i : ℕ) × (share_to_evict n ≡ suc i)
  one_more n = (share_to_evict n - 1, ground arith)

  -- The oldest key, deleted and put again, stands at both ends of the order of insertion: the next eviction
  -- takes this newest entry first.
  cleanup_tick-put_again :
      (k : Str) (v : V) (order : List Str) (h : HotKeyCache V)
      → h.access_order ≡ k ∷ order
      → h.max_local_cache_size < length (put_local V k v (delete_local V k h)).local_cache
      → let h' = put_local V k v (delete_local V k h) in
        (lookup k h'.local_cache ≡ some v) × (lookup k (cleanup_tick V h').local_cache ≡ none)
  unfolding delete_local
  cleanup_tick-put_again k v order h oldest =
      let g = delete_local V k h in
      let gone : lookup k g.local_cache ≡ none = ground (arith, lookup-delete k k h.local_cache) in
      let shown = put_new k v g gone in
      let m = assign k v g.local_cache in
      rw shown (λ full.
        let (i, e) = one_more (length m) in
        let here : lookup k m ≡ some v = ground (arith, lookup-assign k k v g.local_cache) in
        let first : evict_oldest V (share_to_evict (length m)) (h.access_order ++ k ∷ []) m
            ≡ evict_oldest V i (order ++ k ∷ []) (delete k m) =
          ap (λ n. evict_oldest V n (h.access_order ++ k ∷ []) m) e
          ∙ ap (λ l. evict_oldest V (suc i) (l ++ k ∷ []) m) oldest
          ∙ evict_hit V i k v (order ++ k ∷ []) m here in
        (
          here,
          rw
              (cleanup_tick_full V
                (record g { access_order = g.access_order ++ k ∷ []; local_cache = m }) full)
              (ap (λ y. lookup k y.0) first
                ∙ evict_oldest-none V i (order ++ k ∷ []) k (delete k m)
                    (ground (arith, lookup-delete k k m))),
        ))
