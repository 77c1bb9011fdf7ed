-- ===== src/Optimized/Defs.antt =====
-- lru_optimized.go: one shard.
use go_cachex.Base.{
  ℕ, zero, suc, ◌+◌, ◌-◌, ◌%◌, ◌^◌, Bool, true, false, ◌&&◌, Option, none, some, List, [], ◌∷◌, ltb,
  ◌==◌, if◌then◌else◌, ℤ, pos, negsuc,
}
use go_cachex.Cache.{Result, ok, err, not_found, Str, Slice, panic}
use go_cachex.Table.{lookup, delete, assign, deref, unlink, back, store, move_to_front}

-- int64 as a bit pattern: order, sum and difference.
abbrev pub word : ℕ
word = 2 ^ 64

abbrev pub half_word : ℕ
half_word = 2 ^ 63

unfoldable pub slt : ℕ → ℕ → Bool
slt a b = ltb ((a + half_word) % word) ((b + half_word) % word)

unfoldable pub add64 : ℕ → ℕ → ℕ
add64 a b = (a + b) % word

unfoldable pub sub64 : ℕ → ℕ → ℕ
sub64 a b = (a + word - b) % word

pub record Entry : Type 0 where
  pub key : Str
  pub value : Str
  pub expiry : ℕ
  pub accessed : Bool

-- The list between the sentinels, from the head; the number of the next element.
pub record Shard : Type 0 where
  pub cache : List (Str × ℕ)
  pub ll : List (ℕ × Entry)
  pub capacity : ℕ
  pub size : ℕ
  pub hits : ℕ
  pub misses : ℕ
  pub next : ℕ

unfoldable pub new_shard : ℕ → Shard
new_shard capacity = record {
  cache = [];
  ll = [];
  capacity = capacity;
  size = 0;
  hits = 0;
  misses = 0;
  next = 0;
}

-- `expiry > 0 && fastNow() > expiry`
unfoldable pub is_expired : ℕ → ℕ → Bool
unfolding slt
is_expired expiry now = slt 0 expiry && slt expiry now

unfoldable pub remove_tail : Shard → Shard × Option (ℕ × Entry)
remove_tail s = elim (back s.ll) [
  | none ↦ (s, none)
  | some (p, e) ↦ (record s { ll = unlink p s.ll }, some (p, e))
]

-- The victim's access bit is cleared, and it moves to the head.
unfoldable pub second_chance : ℕ → Entry → Shard → Shard
second_chance p e s = record s {
  ll = move_to_front p (store p (record e { accessed = false }) s.ll);
}

-- The loop of `evictVictim`, by the steps that are left.
unfoldable pub evict_loop : ℕ → Shard → Shard × Option (ℕ × Entry)
unfolding remove_tail second_chance
evict_loop zero s = remove_tail s
evict_loop (suc steps) s = elim (back s.ll) [
  | none ↦ (s, none)
  | some (p, e) ↦
      let rest = evict_loop steps (second_chance p e s) in
      if e.accessed then rest else (record s { ll = unlink p s.ll }, some (p, e))
]

unfoldable pub evict_victim : Shard → Shard × Option (ℕ × Entry)
unfolding evict_loop
evict_victim s = evict_loop s.size s

-- `delete` from the map, `removeEntry`, the counter, and `putEntry`; a pooled entry is blank, so it
-- is the same to take one from the pool as to make a new one.
unfoldable pub discard : ℕ → Str → Shard → Shard
discard p k s = record s { cache = delete k s.cache; ll = unlink p s.ll; size = s.size - 1 }

-- The critical section of `Get` under the read lock: the value, or `none` for an expired entry.
pub data Found : Type 0 where
  absent dangling : Found
  stale : Found
  present : Str → Found

unfoldable pub read_shard : ℕ → Str → Shard → Shard × Found
unfolding is_expired
read_shard now k s = elim (lookup k s.cache) [
  | none ↦ (s, absent)
  | some p ↦ elim (deref p s.ll) [
    | none ↦ (s, dangling)
    | some e ↦
        if is_expired e.expiry now
        then (s, stale)
        else (record s { ll = store p (record e { accessed = true }) s.ll }, present e.value)
  ]
]

-- The critical section under the write lock, after an expired entry was seen.
unfoldable pub purge : ℕ → Str → Shard → Shard
unfolding is_expired discard
purge now k s = elim (lookup k s.cache) [
  | none ↦ s
  | some p ↦ elim (deref p s.ll) [
    | none ↦ s
    | some e ↦ if is_expired e.expiry now then discard p k s else s
  ]
]

-- `others` is what other goroutines do to the shard between the two sections.
unfoldable pub get_shard_value : ℕ → ℕ → (Shard → Shard) → Str → Shard → Shard × Result Slice
unfolding read_shard purge
get_shard_value now later others k s =
    let (s', found) = read_shard now k s in
    elim found [
      | absent ↦ (record s' { misses = s'.misses + 1 }, err not_found)
      | dangling ↦ (s', err panic)
      | stale ↦
          let s'' = purge later k (others s') in
          (record s'' { misses = s''.misses + 1 }, err not_found)
      | present v ↦ (record s' { hits = s'.hits + 1 }, ok (some v))
    ]

-- `GetTTL`; the readings of the clock at the test and at the subtraction.
unfoldable pub get_shard_ttl : ℕ → ℕ → Str → Shard → Result ℕ
unfolding is_expired slt sub64
get_shard_ttl now later k s = elim (lookup k s.cache) [
  | none ↦ err not_found
  | some p ↦ elim (deref p s.ll) [
    | none ↦ err panic
    | some e ↦
        if is_expired e.expiry now
        then err not_found
        else if e.expiry == 0
        then ok 0
        else if slt 0 (sub64 e.expiry later)
        then ok (sub64 e.expiry later)
        else err not_found
  ]
]

-- The expiry for a TTL, as a bit pattern.
unfoldable pub expiry_at : ℕ → ℤ → ℕ
unfolding add64 sub64
expiry_at now (pos zero) = sub64 now 1
expiry_at now (pos (suc n)) = add64 now (suc n)
expiry_at now (negsuc n) = 0

-- The key is in the map: overwrite, set the access bit, move to the head.
unfoldable pub overwrite : ℕ → Entry → Str → ℕ → Shard → Shard
overwrite p e value expiry s = record s {
  ll =
      move_to_front p (store p (record e { value = value; expiry = expiry; accessed = true }) s.ll);
}

-- The victim leaves the list, and then the map.
unfoldable pub evict : Shard → Shard
evict s =
    let (s', victim) = evict_victim s in
    elim victim [
      | none ↦ s'
      | some (_, e) ↦ record s' { cache = delete e.key s'.cache; size = s'.size - 1 }
    ]

-- The check of the capacity.
unfoldable pub shrink : Shard → Shard
shrink s = if ltb 0 s.capacity && ltb s.capacity s.size then evict s else s

unfoldable pub insert_new : Str → Str → ℕ → Shard → Shard
insert_new k value expiry s =
    let e : Entry = record { key = k; value = value; expiry = expiry; accessed = false } in
    shrink (record s {
      ll = (s.next, e) ∷ s.ll;
      cache = assign k s.next s.cache;
      size = s.size + 1;
      next = s.next + 1;
    })

unfoldable pub set_shard_value : Str → Str → ℕ → Shard → Shard
unfolding insert_new overwrite
set_shard_value k value expiry s = elim (lookup k s.cache) [
  | none ↦ insert_new k value expiry s
  | some p ↦ elim (deref p s.ll) [ none ↦ s | some e ↦ overwrite p e value expiry s ]
]

unfoldable pub del_shard_value : Str → Shard → Shard
unfolding discard
del_shard_value k s = elim (lookup k s.cache) [ none ↦ s | some p ↦ discard p k s ]

-- The loop over the map in `Close` and `Clear` empties it and the list.
unfoldable pub clear_shard : Shard → Shard
clear_shard s = record s { cache = []; ll = []; size = 0 }

-- One key of `BatchGet`, under the read lock; the access bit stays.
unfoldable pub batch_shard_one : ℕ → Shard → Str → Result Slice
unfolding is_expired
batch_shard_one now s k = elim (lookup k s.cache) [
  | none ↦ err not_found
  | some p ↦ elim (deref p s.ll) [
    | none ↦ err panic
    | some e ↦ if is_expired e.expiry now then err not_found else ok (some e.value)
  ]
]
