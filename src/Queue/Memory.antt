-- ===== src/Queue/Memory.antt =====
-- A server in memory for the queues: lists and sorted sets by key, with whole scores.
use go_cachex.Base.{
  ℕ, ◌≡◌, refl, Option, none, some, List, [], ◌∷◌, ◌++◌, map, length, take, leb, ite, arith,
  if◌then◌else◌,
}
use mathlib.Core.List.{reverse}
use go_cachex.Cache.{Str, dec_str}
use go_cachex.Table.{lookup, delete, assign, lookup-assign}
use go_cachex.Queue.Server.{Server, IsServer}

pub record Store : Type 0 where
  pub lists : List (Str × List Str)
  pub sets : List (Str × List (ℕ × Str))

abbrev pub or_empty {ℓ} : {A : Type ℓ} → Option (List A) → List A
or_empty none = []
or_empty (some l) = l

unfoldable pub list_at : Str → Store → List Str
list_at k s = or_empty (lookup k s.lists)

unfoldable pub put_list : Str → List Str → Store → Store
put_list k l s = record s { lists = assign k l s.lists }

unfoldable pub pop_list : Str → Store → Store × Option Str
unfolding list_at put_list
pop_list k s = elim (list_at k s) [ [] ↦ (s, none) | v ∷ vs ↦ (put_list k vs s, some v) ]

abbrev pub set_at : Str → Store → List (ℕ × Str)
set_at k s = or_empty (lookup k s.sets)

-- The member goes where its score puts it.
unfoldable pub insert_score : ℕ → Str → List (ℕ × Str) → List (ℕ × Str)
insert_score n v [] = (n, v) ∷ []
insert_score n v ((m, w) ∷ l) =
    let rest = insert_score n v l in if leb m n then (m, w) ∷ rest else (n, v) ∷ (m, w) ∷ l

unfoldable pub drop_member : Str → List (ℕ × Str) → List (ℕ × Str)
drop_member v [] = []
drop_member v ((m, w) ∷ l) = ite (dec_str v w) l ((m, w) ∷ drop_member v l)

unfoldable pub put_set : Str → List (ℕ × Str) → Store → Store
put_set k l s = record s { sets = assign k l s.sets }

abbrev pub first_score : ℕ → List (ℕ × Str) → Option Str
first_score now [] = none
first_score now ((m, w) ∷ l) = if leb m now then some w else none

abbrev pub highest : Str → List (ℕ × Str) → Store → Store × Option Str
highest k [] s = (s, none)
highest k ((m, w) ∷ l) s = (put_set k (drop_member w (set_at k s)) s, some w)

abbrev pub memory : Server
memory = record {
  State = Store;
  Score = ℕ;
  of_seconds = λ n. n;
  items = list_at;
  rpush = λ k v s. put_list k (list_at k s ++ v ∷ []) s;
  lpush = λ k v s. put_list k (v ∷ list_at k s) s;
  lpop = pop_list;
  llen = λ k s. length (list_at k s);
  lrange = λ k n s. take n (list_at k s);
  zadd = λ k n v s. put_set k (insert_score n v (drop_member v (set_at k s))) s;
  zpop_max = λ k s. highest k (reverse (set_at k s)) s;
  first_due = λ k now s. first_score now (set_at k s);
  zrem = λ k v s. put_set k (drop_member v (set_at k s)) s;
  zcard = λ k s. length (set_at k s);
  zrev_range = λ k n s. map (λ e. e.1) (take n (reverse (set_at k s)));
  zrange = λ k n s. map (λ e. e.1) (take n (set_at k s));
  del = λ k s. record { lists = delete k s.lists; sets = delete k s.sets };
}

list_at-put : (k : Str) (l : List Str) (s : Store) → list_at k (put_list k l s) ≡ l
unfolding list_at put_list
list_at-put k l s = ground (arith, lookup-assign k k l s.lists)

pop_list_empty : (k : Str) (s : Store) → list_at k s ≡ [] → pop_list k s ≡ (s, none)
unfolding pop_list
pop_list_empty k s h = ground arith

pop_list_first :
    (k v : Str) (vs : List Str) (s : Store)
    → list_at k s ≡ v ∷ vs
    → (list_at k (pop_list k s).0 ≡ vs) × ((pop_list k s).1 ≡ some v)
unfolding pop_list
pop_list_first k v vs s h = ground (arith, lookup-assign k k vs s.lists)

list_at-zadd :
    (j k : Str) (l : List (ℕ × Str)) (s : Store) → list_at j (put_set k l s) ≡ list_at j s
unfolding list_at put_set
list_at-zadd j k l s = refl

pub memory_server : IsServer memory
memory_server = record {
  items-rpush = λ k v s. list_at-put k (list_at k s ++ v ∷ []) s;
  items-lpush = λ k v s. list_at-put k (v ∷ list_at k s) s;
  lpop_empty = pop_list_empty;
  lpop_first = pop_list_first;
  llen_lem = λ k s. refl;
  lrange_lem = λ k n s. refl;
  items-zadd = λ j k n v s. list_at-zadd j k (insert_score n v (drop_member v (set_at k s))) s;
}
