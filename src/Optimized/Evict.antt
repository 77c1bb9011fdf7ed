-- ===== src/Optimized/Evict.antt =====
-- The CLOCK eviction of a shard: it ends, makes room, and keeps the map and the list in agreement.
use go_cachex.Base.{
  ℕ, zero, suc, ◌+◌, ◌≤◌, ◌<◌, ◌≡◌, refl, ap, ◌∙◌, false, Option, some, List, [], ◌∷◌, length,
  arith, Bool-cases, if_yes, if_no, inl, inr,
}
use go_cachex.Cache.{Str}
use go_cachex.Table.{
  delete, deref, unlink, back, IsCoherent, front-IsCoherent, remove-IsCoherent, length-unlink,
  back-cons, back-deref, move_to_front-store,
}
use go_cachex.Optimized.Defs.{
  Shard, Entry, remove_tail, second_chance, evict_loop, evict_victim, evict,
}

abbrev pub key_of : Entry → Str
key_of e = e.key

abbrev pub Coherent : Shard → Type 0
Coherent s = IsCoherent key_of s.cache s.ll s.next

-- The tail of a list that is not empty.
tail_of :
    (s : Shard)
    → Coherent s
    → 0 < length s.ll
    → (p : ℕ) × (e : Entry) × (back s.ll ≡ some (p, e)) × (deref p s.ll ≡ some e)
tail_of s c h = go s.ll refl
  where
    go :
        (l : List (ℕ × Entry))
        → s.ll ≡ l
        → (p : ℕ) × (e : Entry) × (back s.ll ≡ some (p, e)) × (deref p s.ll ≡ some e)
    go [] eq = absurd (omega (arith, ap length eq))
    go (n ∷ l) eq =
        let ((p, e), found) = back-cons n l in
        let at = ap back eq ∙ found in (p, e, at, back-deref key_of p e s.ll c.distinct at)

-- What an eviction does to a shard: a victim leaves the list, the rest agrees with the map without
-- the victim's key, and the counters stay.
pub record Evicts (s : Shard) (r : Shard × Option (ℕ × Entry)) : Type 0 where
  pub pointer : ℕ
  pub victim : Entry
  pub chosen : r.1 ≡ some (pointer, victim)
  pub coherent : IsCoherent key_of (delete victim.key s.cache) r.0.ll s.next
  pub shorter : length r.0.ll + 1 ≡ length s.ll
  pub same_cache : r.0.cache ≡ s.cache
  pub same_capacity : r.0.capacity ≡ s.capacity
  pub same_size : r.0.size ≡ s.size
  pub same_next : r.0.next ≡ s.next

unlink-Evicts :
    (s : Shard) (p : ℕ) (e : Entry)
    → Coherent s
    → deref p s.ll ≡ some e
    → Evicts s (record s { ll = unlink p s.ll }, some (p, e))
unlink-Evicts s p e c found = record {
  pointer = p;
  victim = e;
  chosen = refl;
  coherent = remove-IsCoherent key_of c p e found;
  shorter = length-unlink p e s.ll found;
  same_cache = refl;
  same_capacity = refl;
  same_size = refl;
  same_next = refl;
}

-- Moving an entry to the head with a clear bit changes neither the agreement nor the length.
second_chance-Coherent :
    (s : Shard) (p : ℕ) (e : Entry)
    → Coherent s
    → deref p s.ll ≡ some e
    → Coherent (second_chance p e s) × (length (second_chance p e s).ll ≡ length s.ll)
unfolding second_chance
second_chance-Coherent s p e c found =
    let e' = record e { accessed = false } in
    rw (move_to_front-store p e' e s.ll found)
      (front-IsCoherent key_of c p e e' found refl, omega (arith, length-unlink p e s.ll found))

evict_loop-Evicts :
    (steps : ℕ) (s : Shard) → Coherent s → 0 < length s.ll → Evicts s (evict_loop steps s)
unfolding evict_loop second_chance
evict_loop-Evicts zero s c h =
    let (p, e, at, found) = tail_of s c h in rw (at, remove_tail) (unlink-Evicts s p e c found)
evict_loop-Evicts (suc steps) s c h =
    let (p, e, at, found) = tail_of s c h in
    let (c', same) = second_chance-Coherent s p e c found in
    let rest = evict_loop-Evicts steps (second_chance p e s) c' (omega arith) in
    elim (Bool-cases e.accessed) [
      | inl hot ↦
          rw (at, evict_loop)
            (rw (if_yes e.accessed _ _ hot) (record {
              pointer = rest.pointer;
              victim = rest.victim;
              chosen = rest.chosen;
              coherent = rest.coherent;
              shorter = rest.shorter ∙ same;
              same_cache = rest.same_cache;
              same_capacity = rest.same_capacity;
              same_size = rest.same_size;
              same_next = rest.same_next;
            }))
      | inr cold ↦
          rw (at, evict_loop) (rw (if_no e.accessed _ _ cold) (unlink-Evicts s p e c found))
    ]

-- The map and the list agree, and the counter counts the list.
pub record IsSound (s : Shard) : Type 0 where
  pub coherent : Coherent s
  pub counted : s.size ≡ length s.ll

-- A sound shard, within its capacity.
pub record IsValid (s : Shard) : Type 0 where
  pub sound : IsSound s
  pub bounded : length s.ll ≤ s.capacity
  pub positive : 0 < s.capacity

-- An eviction from a sound shard that is not empty removes exactly one entry, from the map and the
-- list alike, and keeps the counter exact: the scan for a victim cannot fail, even if every
-- entry has its access bit set. The capacity stays.
pub evict-IsSound :
    (s : Shard)
    → IsSound s
    → 0 < length s.ll
    → IsSound (evict s)
      × (length (evict s).ll + 1 ≡ length s.ll)
      × ((evict s).capacity ≡ s.capacity)
unfolding evict evict_victim
evict-IsSound s v h =
    let r = evict_loop-Evicts s.size s v.coherent h in
    rw (r.chosen, evict)
      (
        record {
          coherent = rw (r.same_cache, r.same_next) r.coherent;
          counted = omega (arith, r.same_size, v.counted, r.shorter);
        },
        r.shorter,
        r.same_capacity,
      )
