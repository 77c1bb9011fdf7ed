-- ===== src/Channel/Server.antt =====
-- durable_channel.go: the commands of Redis that it uses, on lists that expire, with what their documentation
-- says, and a server in memory. Nobody else uses these lists while time passes.
use go_cachex.Base.{
  ℕ, ◌+◌, ◌-◌, ◌/◌, ◌≤◌, ◌<◌, ◌≡◌, refl, sym, Option, none, some, List, [], ◌∷◌, ◌++◌, length, ite,
  ltb, if◌then◌else◌, arith,
}
use mathlib.Core.Path.{fun_ext, subst}
use go_cachex.Cache.{Str, second, dec_str}
use go_cachex.Redis.{Net, Fault, network_fault, refused}

pub record Lists : Type 1 where
  pub State : Type 0
  -- The list under a key, from its left end.
  pub items : Str → State → List Str
  pub rpush : Str → Str → State → State
  -- The seconds that the client makes of a duration in nanoseconds.
  pub seconds : ℕ → ℕ
  -- `EXPIRE`, with a duration in nanoseconds
  pub expire : Str → ℕ → State → State
  pub lpop : Str → State → State × Option Str
  pub llen : Str → State → ℕ
  -- The state after so many seconds in which nobody calls.
  pub later : ℕ → State → State
  -- What the client makes of a call whose context has ended.
  pub after_end : Net → Net

pub record IsLists (r : Lists) : Type 0 where
  pub items-rpush : (k v : Str) (s : r.State) → r.items k (r.rpush k v s) ≡ r.items k s ++ v ∷ []
  pub items-expire :
      (k : Str) (ttl : ℕ) (s : r.State) → 0 < ttl → r.items k (r.expire k ttl s) ≡ r.items k s
  pub lasts-expire :
      (k : Str) (ttl n : ℕ) (s : r.State)
      → 0 < ttl
      → n < r.seconds ttl
      → r.items k (r.later n (r.expire k ttl s)) ≡ r.items k s
  pub expires :
      (k : Str) (ttl n : ℕ) (s : r.State)
      → 0 < ttl
      → r.seconds ttl ≤ n
      → r.items k (r.later n (r.expire k ttl s)) ≡ []
  pub lasts_empty :
      (k : Str) (n : ℕ) (s : r.State) → r.items k s ≡ [] → r.items k (r.later n s) ≡ []
  pub lasts-lpop :
      (k : Str) (n : ℕ) (s : r.State)
      → r.items k (r.later n s) ≡ r.items k s
      → r.items k (r.later n (r.lpop k s).0) ≡ r.items k (r.lpop k s).0
  pub later-later : (m n : ℕ) (s : r.State) → r.later m (r.later n s) ≡ r.later (n + m) s
  pub lpop_empty : (k : Str) (s : r.State) → r.items k s ≡ [] → r.lpop k s ≡ (s, none)
  pub lpop_first :
      (k v : Str) (vs : List Str) (s : r.State)
      → r.items k s ≡ v ∷ vs
      → (r.items k (r.lpop k s).0 ≡ vs) × ((r.lpop k s).1 ≡ some v)
  pub llen_lem : (k : Str) (s : r.State) → r.llen k s ≡ length (r.items k s)
  pub after_end_lem : (n : Net) → (e : Fault) × (r.after_end n ≡ refused e)

-- The seconds of a duration: one below a second is raised, any other cut off.
abbrev pub whole_seconds : ℕ → ℕ
whole_seconds ttl = if ltb ttl second then 1 else ttl / second

-- A list, and the seconds that it still has, if it expires. A missing key has an empty list.
abbrev pub Entry : Type 0
Entry = List Str × Option ℕ

abbrev pub Store : Type 0
Store = Str → Entry

abbrev pub put_entry : Str → Entry → Store → Store
put_entry k e s j = ite (dec_str j k) e (s j)

abbrev pub pop_entry : Str → Store → Entry → Store × Option Str
pop_entry k s ([], o) = (s, none)
pop_entry k s (v ∷ [], o) = (put_entry k ([], none) s, some v)
pop_entry k s (v ∷ w ∷ vs, o) = (put_entry k (w ∷ vs, o) s, some v)

abbrev pub entry_later : ℕ → Entry → Entry
entry_later n (l, none) = (l, none)
entry_later n (l, some t) = if ltb n t then (l, some (t - n)) else ([], none)

abbrev pub memory : Lists
memory = record {
  State = Store;
  items = λ k s. (s k).0;
  rpush = λ k v s. put_entry k ((s k).0 ++ v ∷ [], (s k).1) s;
  seconds = whole_seconds;
  expire = λ k ttl s. put_entry k ((s k).0, some (whole_seconds ttl)) s;
  lpop = λ k s. pop_entry k s (s k);
  llen = λ k s. length (s k).0;
  later = λ n s k. entry_later n (s k);
  after_end = λ _. refused network_fault;
}

put_entry_self : (k : Str) (e : Entry) (s : Store) → put_entry k e s k ≡ e
put_entry_self k e s = ground arith

entry_later-later : (m n : ℕ) (e : Entry) → entry_later m (entry_later n e) ≡ entry_later (n + m) e
entry_later-later m n (l, none) = refl
entry_later-later m n (l, some t) = ground arith

entry_later_empty : (n : ℕ) (e : Entry) → e.0 ≡ [] → (entry_later n e).0 ≡ []
entry_later_empty n (l, none) h = h
entry_later_empty n (l, some t) h = ground arith

lasts-expire_lem :
    (k : Str) (ttl n : ℕ) (s : Store)
    → n < whole_seconds ttl
    → memory.items k (memory.later n (memory.expire k ttl s)) ≡ memory.items k s
lasts-expire_lem k ttl n s h =
    rw (put_entry_self k ((s k).0, some (whole_seconds ttl)) s) (ground arith)

expires_lem :
    (k : Str) (ttl n : ℕ) (s : Store)
    → whole_seconds ttl ≤ n
    → memory.items k (memory.later n (memory.expire k ttl s)) ≡ []
expires_lem k ttl n s h = rw (put_entry_self k ((s k).0, some (whole_seconds ttl)) s) (ground arith)

lasts-pop_entry :
    (k : Str) (n : ℕ) (s : Store) (e : Entry)
    → s k ≡ e
    → (entry_later n e).0 ≡ e.0
    → (entry_later n ((pop_entry k s e).0 k)).0 ≡ ((pop_entry k s e).0 k).0
lasts-pop_entry k n s ([], o) here h = subst (λ (e : Entry). (entry_later n e).0 ≡ e.0) (sym here) h
lasts-pop_entry k n s (v ∷ [], o) here h = rw (put_entry_self k ([], none) s) refl
lasts-pop_entry k n s (v ∷ w ∷ vs, none) here h = rw (put_entry_self k (w ∷ vs, none) s) refl
lasts-pop_entry k n s (v ∷ w ∷ vs, some t) here h =
    rw (put_entry_self k (w ∷ vs, some t) s) (ground arith)

pop_entry_empty : (k : Str) (s : Store) (e : Entry) → e.0 ≡ [] → pop_entry k s e ≡ (s, none)
pop_entry_empty k s ([], o) h = refl
pop_entry_empty k s (v ∷ [], o) h = cc
pop_entry_empty k s (v ∷ w ∷ vs, o) h = cc

pop_entry_first :
    (k v : Str) (vs : List Str) (s : Store) (e : Entry)
    → e.0 ≡ v ∷ vs
    → (((pop_entry k s e).0 k).0 ≡ vs) × ((pop_entry k s e).1 ≡ some v)
pop_entry_first k v vs s ([], o) h = cc
pop_entry_first k v vs s (x ∷ [], o) h = rw (put_entry_self k ([], none) s) (cc, cc)
pop_entry_first k v vs s (x ∷ w ∷ l, o) h = rw (put_entry_self k (w ∷ l, o) s) (cc, cc)

pub memory_lists : IsLists memory
memory_lists = record {
  items-rpush = λ k v s. ground (arith, put_entry_self k ((s k).0 ++ v ∷ [], (s k).1) s);
  items-expire =
      λ k ttl s h. ground (arith, put_entry_self k ((s k).0, some (whole_seconds ttl)) s);
  lasts-expire = λ k ttl n s h. lasts-expire_lem k ttl n s;
  expires = λ k ttl n s h. expires_lem k ttl n s;
  lasts_empty = λ k n s. entry_later_empty n (s k);
  lasts-lpop = λ k n s. lasts-pop_entry k n s (s k) refl;
  later-later = λ m n s. fun_ext (λ k. entry_later-later m n (s k));
  lpop_empty = λ k s. pop_entry_empty k s (s k);
  lpop_first = λ k v vs s. pop_entry_first k v vs s (s k);
  llen_lem = λ k s. refl;
  after_end_lem = λ n. (network_fault, refl);
}
