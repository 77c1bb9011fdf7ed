-- ===== src/Hot/Server.antt =====
-- hotkey.go: the commands of Redis that it uses, with what their documentation says, and a server in
-- memory. The clock of the server counts milliseconds.
use go_cachex.Base.{
  ℕ, ◌+◌, ◌*◌, ◌/◌, ◌≤◌, ◌<◌, ◌≡◌, Option, none, some, List, arith, ltb, if◌then◌else◌,
}
use go_cachex.Cache.{Str, second}
use go_cachex.Table.{lookup, delete, assign, lookup-delete, lookup-assign}

pub record Texts : Type 1 where
  pub State : Type 0
  pub value : ℕ → Str → State → Option Str
  -- `SetEx`, with a duration in nanoseconds.
  pub set_ex : ℕ → Str → Str → ℕ → State → State
  pub del : ℕ → Str → State → State
  -- The whole seconds that a key has left.
  pub ttl : ℕ → Str → State → ℕ

pub record IsTexts (r : Texts) : Type 0 where
  pub value-set_ex :
      (now t : ℕ) (k v : Str) (ttl : ℕ) (s : r.State)
      → now ≤ t
      → t < now + ttl / second * 1000
      → r.value t k (r.set_ex now k v ttl s) ≡ some v
  pub value-del : (now t : ℕ) (k : Str) (s : r.State) → now ≤ t → r.value t k (r.del now k s) ≡ none

pub record Cell : Type 0 where
  pub content : Str
  pub until : ℕ

abbrev pub Store : Type 0
Store = List (Str × Cell)

abbrev read_cell : ℕ → Option Cell → Option Str
read_cell t none = none
read_cell t (some c) = if ltb t c.until then some c.content else none

unfoldable pub read : ℕ → Str → Store → Option Str
unfolding lookup
read t k m = read_cell t (lookup k m)

unfoldable pub write : ℕ → Str → Str → ℕ → Store → Store
unfolding assign
write now k v ttl m = assign k (record { content = v; until = now + ttl / second * 1000 }) m

abbrev pub memory : Texts
memory = record {
  State = Store;
  value = read;
  set_ex = write;
  del = λ now k m. delete k m;
  ttl = λ now k m. 0;
}

read-write :
    (now t : ℕ) (k v : Str) (ttl : ℕ) (m : Store)
    → now ≤ t
    → t < now + ttl / second * 1000
    → read t k (write now k v ttl m) ≡ some v
unfolding read write
read-write now t k v ttl m h live =
    let cell : Cell = record { content = v; until = now + ttl / second * 1000 } in
    ground (arith, lookup-assign k k cell m)

read-delete : (now t : ℕ) (k : Str) (m : Store) → now ≤ t → read t k (delete k m) ≡ none
unfolding read
read-delete now t k m h = ground (arith, lookup-delete k k m)

pub memory_texts : IsTexts memory
memory_texts = record { value-set_ex = read-write; value-del = read-delete }
