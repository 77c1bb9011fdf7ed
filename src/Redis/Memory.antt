-- ===== src/Redis/Memory.antt =====
-- A server in memory: each key has a value and the time at which it expires, if any.
use go_cachex.Base.{
  ℕ, ◌+◌, ◌/◌, ◌≤◌, ◌<◌, ◌≡◌, ◌≢◌, Bool, true, false, Option, none, some, List, ltb, if◌then◌else◌,
  arith, Option-cases, inl, inr,
}
use go_cachex.Cache.{Str}
use go_cachex.Table.{lookup, delete, assign, lookup-delete, lookup-assign}
use go_cachex.Redis.Defs.{Strings, IsStrings, ms}

pub record Cell : Type 0 where
  pub content : Str
  pub until : Option ℕ

abbrev pub Keyspace : Type 0
Keyspace = List (Str × Cell)

abbrev live : ℕ → Option ℕ → Bool
live t none = true
live t (some u) = ltb t u

abbrev read_cell : ℕ → Option Cell → Option Str
read_cell t none = none
read_cell t (some c) = if live t c.until then some c.content else none

unfoldable pub read : ℕ → Str → Keyspace → Option Str
read t k m = read_cell t (lookup k m)

unfoldable pub put : ℕ → Str → Str → Keyspace → Keyspace
put now k v m = assign k (record { content = v; until = none }) m

unfoldable pub put_nx : ℕ → Str → Str → ℕ → Keyspace → Keyspace × Bool
unfolding read
put_nx now k v ttl m = elim (read now k m) [
  | some _ ↦ (m, false)
  | none ↦ (assign k (record { content = v; until = some (now + ttl / ms) }) m, true)
]

unfoldable pub expire : ℕ → Str → ℕ → Keyspace → Keyspace × Bool
unfolding read
expire now k d m = elim (read now k m) [
  | some v ↦ (assign k (record { content = v; until = some (now + d) }) m, true)
  | none ↦ (m, false)
]

unfoldable pub remove : ℕ → Str → Keyspace → Keyspace × Bool
unfolding read
remove now k m = elim (read now k m) [ some _ ↦ (delete k m, true) | none ↦ (delete k m, false) ]

abbrev pub memory : Strings
memory = record {
  State = Keyspace;
  value = read;
  set = put;
  set_nx = put_nx;
  pexpire = expire;
  del = remove;
}

read-put : (now t : ℕ) (k v : Str) (m : Keyspace) → now ≤ t → read t k (put now k v m) ≡ some v
unfolding read put
read-put now t k v m h = ground (arith, lookup-assign k k (record { content = v; until = none }) m)

read-put_other :
    (now t : ℕ) (k j v : Str) (m : Keyspace) → j ≢ k → read t j (put now k v m) ≡ read t j m
unfolding read put
read-put_other now t k j v m h =
    ground (arith, lookup-assign j k (record { content = v; until = none }) m)

put_nx_taken :
    (now : ℕ) (k v w : Str) (ttl : ℕ) (m : Keyspace)
    → read now k m ≡ some w
    → put_nx now k v ttl m ≡ (m, false)
unfolding put_nx
put_nx_taken now k v w ttl m h = ground arith

put_nx_free :
    (now : ℕ) (k v : Str) (ttl : ℕ) (m : Keyspace)
    → read now k m ≡ none
    → (put_nx now k v ttl m).1 ≡ true
unfolding put_nx
put_nx_free now k v ttl m h = ground arith

put_nx_lasts :
    (now t : ℕ) (k v : Str) (ttl : ℕ) (m : Keyspace)
    → read now k m ≡ none
    → now ≤ t
    → t < now + ttl / ms
    → read t k (put_nx now k v ttl m).0 ≡ some v
unfolding put_nx read
put_nx_lasts now t k v ttl m h a b =
    let cell : Cell = record { content = v; until = some (now + ttl / ms) } in
    ground (arith, lookup-assign k k cell m)

put_nx_other :
    (now t : ℕ) (k j v : Str) (ttl : ℕ) (m : Keyspace)
    → j ≢ k
    → read t j (put_nx now k v ttl m).0 ≡ read t j m
unfolding put_nx read
put_nx_other now t k j v ttl m h =
    let cell : Cell = record { content = v; until = some (now + ttl / ms) } in
    ground (arith, lookup-assign j k cell m)

expire_lasts :
    (now t : ℕ) (k v : Str) (d : ℕ) (m : Keyspace)
    → read now k m ≡ some v
    → now ≤ t
    → t < now + d
    → read t k (expire now k d m).0 ≡ some v
unfolding expire read
expire_lasts now t k v d m h a b =
    let cell : Cell = record { content = v; until = some (now + d) } in
    ground (arith, lookup-assign k k cell m)

expire_held :
    (now : ℕ) (k v : Str) (d : ℕ) (m : Keyspace)
    → read now k m ≡ some v
    → (expire now k d m).1 ≡ true
unfolding expire
expire_held now k v d m h = ground arith

expire_other :
    (now t : ℕ) (k j : Str) (d : ℕ) (m : Keyspace)
    → j ≢ k
    → read t j (expire now k d m).0 ≡ read t j m
unfolding expire read
expire_other now t k j d m h = elim (Option-cases (read now k m)) [
  | inl missing ↦ ground arith
  | inr (v, held) ↦
      let cell : Cell = record { content = v; until = some (now + d) } in
      ground (arith, lookup-assign j k cell m)
]

remove_held :
    (now : ℕ) (k v : Str) (m : Keyspace) → read now k m ≡ some v → (remove now k m).1 ≡ true
unfolding remove
remove_held now k v m h = ground arith

read-remove : (now t : ℕ) (k : Str) (m : Keyspace) → now ≤ t → read t k (remove now k m).0 ≡ none
unfolding remove read
read-remove now t k m h = ground (arith, lookup-delete k k m)

remove_other :
    (now t : ℕ) (k j : Str) (m : Keyspace) → j ≢ k → read t j (remove now k m).0 ≡ read t j m
unfolding remove read
remove_other now t k j m h = ground (arith, lookup-delete j k m)

pub memory_strings : IsStrings memory
memory_strings = record {
  value-set = read-put;
  value-set_other = read-put_other;
  set_nx_taken = put_nx_taken;
  set_nx_free = put_nx_free;
  set_nx_lasts = put_nx_lasts;
  set_nx_other = put_nx_other;
  pexpire_lasts = expire_lasts;
  pexpire_held = expire_held;
  pexpire_other = expire_other;
  del_held = remove_held;
  value-del = read-remove;
  del_other = remove_other;
}
