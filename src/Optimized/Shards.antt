-- ===== src/Optimized/Shards.antt =====
-- Every operation of a shard keeps it valid; reads after writes.
use go_cachex.Base.{
  ℕ, ◌+◌, ◌≤◌, ◌<◌, ◌≡◌, refl, sym, ◌∙◌, true, false, none, some, List, [], ◌∷◌, ◌&&◌, ltb,
  if◌then◌else◌, length, arith, Bool-cases, if_yes, if_no, inl, inr,
}
use go_cachex.Cache.{Str, ok, err, not_found}
use go_cachex.Table.{
  lookup, locate, assign, deref, store, front-IsCoherent, remove-IsCoherent, push-IsCoherent,
  store-IsCoherent, length-unlink, length-store, resolve, move_to_front-store,
}
use go_cachex.Optimized.Defs.{
  Shard, Entry, new_shard, discard, read_shard, purge, get_shard_value, overwrite, shrink,
  insert_new, set_shard_value, del_shard_value, clear_shard, is_expired,
}
use go_cachex.Optimized.Evict.{key_of, IsSound, IsValid, evict-IsSound}

pub new_shard-IsValid : (n : ℕ) → 0 < n → IsValid (new_shard n)
unfolding new_shard lookup locate
new_shard-IsValid n h = record {
  sound = record {
    coherent = record { agrees = λ k. refl; distinct = tt; allocated = tt };
    counted = refl;
  };
  bounded = omega arith;
  positive = h;
}

-- A sound shard that is at most one entry over its capacity is cut back to it.
shrink-IsValid :
    (g : Shard) → IsSound g → length g.ll ≤ g.capacity + 1 → 0 < g.capacity → IsValid (shrink g)
unfolding shrink
shrink-IsValid g v close h = elim (Bool-cases (ltb 0 g.capacity && ltb g.capacity g.size)) [
  | inl over ↦
      let (sound, shorter, same) = evict-IsSound g v (ground (arith, v.counted)) in
      rw (if_yes (ltb 0 g.capacity && ltb g.capacity g.size) _ _ over)
        (record { sound = sound; bounded = omega arith; positive = omega arith })
  | inr fits ↦
      rw (if_no (ltb 0 g.capacity && ltb g.capacity g.size) _ _ fits)
        (record { sound = v; bounded = ground (arith, v.counted); positive = h })
]

module _ (s : Shard) (v : IsValid s) where
  clear_shard-IsValid : IsValid (clear_shard s)
  unfolding clear_shard lookup locate
  clear_shard-IsValid = record {
    sound = record {
      coherent = record { agrees = λ k. refl; distinct = tt; allocated = tt };
      counted = refl;
    };
    bounded = omega arith;
    positive = v.positive;
  }

  module _ (p : ℕ) (e : Entry) (found : deref p s.ll ≡ some e) where
    discard-IsValid : IsValid (discard p e.key s)
    unfolding discard
    discard-IsValid =
        let shorter = length-unlink p e s.ll found in
        record {
          sound = record {
            coherent = remove-IsCoherent key_of v.sound.coherent p e found;
            counted = omega (arith, v.sound.counted);
          };
          bounded = omega (arith, v.bounded);
          positive = v.positive;
        }

    touch-IsValid : (e' : Entry) → e'.key ≡ e.key → IsValid (record s { ll = store p e' s.ll })
    touch-IsValid e' keyed =
        let same = length-store p e' s.ll in
        record {
          sound = record {
            coherent = store-IsCoherent key_of v.sound.coherent p e e' found keyed;
            counted = v.sound.counted ∙ sym same;
          };
          bounded = omega (arith, v.bounded);
          positive = v.positive;
        }

    overwrite-IsValid : (value : Str) (expiry : ℕ) → IsValid (overwrite p e value expiry s)
    unfolding overwrite
    overwrite-IsValid value expiry =
        let e' = record e { value = value; expiry = expiry; accessed = true } in
        let shorter = length-unlink p e s.ll found in
        rw (move_to_front-store p e' e s.ll found) (record {
          sound = record {
            coherent = front-IsCoherent key_of v.sound.coherent p e e' found refl;
            counted = omega (arith, v.sound.counted);
          };
          bounded = omega (arith, v.bounded);
          positive = v.positive;
        })

  read_shard-IsValid : (now : ℕ) (k : Str) → IsValid (read_shard now k s).0
  unfolding read_shard
  read_shard-IsValid now k = elim (resolve key_of v.sound.coherent k) [
    | inl (miss, _) ↦ rw (miss, read_shard) v
    | inr (p, e, hit, found, keyed, _) ↦
        let touched = touch-IsValid p e found (record e { accessed = true }) refl in
        rw (hit, read_shard)
          (rw (found, read_shard)
            (elim (Bool-cases (is_expired e.expiry now)) [
              | inl dead ↦ rw (if_yes (is_expired e.expiry now) _ _ dead) v
              | inr alive ↦ rw (if_no (is_expired e.expiry now) _ _ alive) touched
            ]))
  ]

  purge-IsValid : (now : ℕ) (k : Str) → IsValid (purge now k s)
  unfolding purge
  purge-IsValid now k = elim (resolve key_of v.sound.coherent k) [
    | inl (miss, _) ↦ rw (miss, purge) v
    | inr (p, e, hit, found, keyed, _) ↦
        let gone = rw keyed at (discard-IsValid p e found) in
        rw (hit, purge)
          (rw (found, purge)
            (elim (Bool-cases (is_expired e.expiry now)) [
              | inl dead ↦ rw (if_yes (is_expired e.expiry now) _ _ dead) gone
              | inr alive ↦ rw (if_no (is_expired e.expiry now) _ _ alive) v
            ]))
  ]

  del-IsValid : (k : Str) → IsValid (del_shard_value k s)
  unfolding del_shard_value
  del-IsValid k = elim (resolve key_of v.sound.coherent k) [
    | inl (miss, _) ↦ rw (miss, del_shard_value) v
    | inr (p, e, hit, found, keyed, _) ↦
        rw (hit, del_shard_value) (rw keyed at (discard-IsValid p e found))
  ]

  insert_new-IsValid :
      (k value : Str) (expiry : ℕ) → lookup k s.cache ≡ none → IsValid (insert_new k value expiry s)
  unfolding insert_new
  insert_new-IsValid k value expiry miss =
      let e : Entry = record { key = k; value = value; expiry = expiry; accessed = false } in
      let g : Shard = record s {
        ll = (s.next, e) ∷ s.ll;
        cache = assign k s.next s.cache;
        size = s.size + 1;
        next = s.next + 1;
      } in
      let pushed : IsSound g = record {
        coherent = push-IsCoherent key_of v.sound.coherent e miss;
        counted = omega (arith, v.sound.counted);
      } in
      shrink-IsValid g pushed (omega arith) v.positive

  set-IsValid : (k value : Str) (expiry : ℕ) → IsValid (set_shard_value k value expiry s)
  unfolding set_shard_value
  set-IsValid k value expiry = elim (resolve key_of v.sound.coherent k) [
    | inl (miss, _) ↦ rw (miss, set_shard_value) (insert_new-IsValid k value expiry miss)
    | inr (p, e, hit, found, keyed, _) ↦
        rw (hit, set_shard_value)
          (rw (found, set_shard_value) (overwrite-IsValid p e found value expiry))
  ]

-- The operations that one critical section of a goroutine can perform on a shard.
pub data Section : Type 0 where
  reads : ℕ → Str → Section
  purges : ℕ → Str → Section
  sets : Str → Str → ℕ → Section
  deletes : Str → Section
  clears : Section
  counts_hit counts_miss : Section

unfoldable pub perform : Section → Shard → Shard
perform (reads now k) s = (read_shard now k s).0
perform (purges now k) s = purge now k s
perform (sets k value expiry) s = set_shard_value k value expiry s
perform (deletes k) s = del_shard_value k s
perform clears s = clear_shard s
perform counts_hit s = record s { hits = s.hits + 1 }
perform counts_miss s = record s { misses = s.misses + 1 }

unfoldable pub perform_all : List Section → Shard → Shard
unfolding perform
perform_all [] s = s
perform_all (x ∷ xs) s = perform_all xs (perform x s)

perform-IsValid : (x : Section) (s : Shard) → IsValid s → IsValid (perform x s)
unfolding perform
perform-IsValid (reads now k) s v = read_shard-IsValid s v now k
perform-IsValid (purges now k) s v = purge-IsValid s v now k
perform-IsValid (sets k value expiry) s v = set-IsValid s v k value expiry
perform-IsValid (deletes k) s v = del-IsValid s v k
perform-IsValid clears s v = clear_shard-IsValid s v
perform-IsValid counts_hit s v = record {
  sound = record { coherent = v.sound.coherent; counted = v.sound.counted };
  bounded = v.bounded;
  positive = v.positive;
}
perform-IsValid counts_miss s v = record {
  sound = record { coherent = v.sound.coherent; counted = v.sound.counted };
  bounded = v.bounded;
  positive = v.positive;
}

pub perform_all-IsValid : (xs : List Section) (s : Shard) → IsValid s → IsValid (perform_all xs s)
unfolding perform_all
perform_all-IsValid [] s v = v
perform_all-IsValid (x ∷ xs) s v = perform_all-IsValid xs (perform x s) (perform-IsValid x s v)

-- Whatever critical sections goroutines perform on a new shard of a positive capacity, in whatever
-- order, the map and the list agree, keys and elements are distinct, the counter is exact, and the shard never holds
-- more entries than its capacity.
pub perform_all-new_shard :
    (n : ℕ) (xs : List Section) → 0 < n → IsValid (perform_all xs (new_shard n))
perform_all-new_shard n xs h = perform_all-IsValid xs (new_shard n) (new_shard-IsValid n h)

-- In a valid shard, an update of a key that the shard holds is read back by the next `Get` until its expiry, whatever
-- the other goroutines do to the shard after an expired entry was seen.
pub get-set_known :
    (t later : ℕ) (others : Shard → Shard) (k value : Str) (expiry p : ℕ) (s : Shard)
    → IsValid s
    → lookup k s.cache ≡ some p
    → (get_shard_value t later others k (set_shard_value k value expiry s)).1
      ≡ (if is_expired expiry t then err not_found else ok (some value))
unfolding get_shard_value read_shard set_shard_value overwrite deref
get-set_known t later others k value expiry p s v known = elim (resolve key_of v.sound.coherent k) [
  | inl (miss, _) ↦ absurd (ground arith)
  | inr (q, e, hit, found, keyed, _) ↦
      let e' = record e { value = value; expiry = expiry; accessed = true } in
      ground (arith, move_to_front-store q e' e s.ll found)
]
