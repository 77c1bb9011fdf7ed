-- ===== src/Index/Tests.antt =====
-- cache_index.go over a table in memory.
use go_cachex.Base.{
  ℕ, ◌≡◌, refl, Bool, true, false, ◌||◌, List, [], ◌∷◌, ◌++◌, Option, none, some, arith,
  if◌then◌else◌, Option-cases, inl, inr,
}
use go_cachex.Cache.{Str, dec_str}
use go_cachex.Table.{lookup, assign, delete, lookup-assign, lookup-delete}
use go_cachex.Redis.{Turn, delivered, good}
use go_cachex.Index.Defs.{
  Sets, IsSets, CacheIndexManager, same, contains, register, delete_by_index,
}
use go_cachex.Index.Clears.{present-delete_by_index}

-- A key holds a set, or `none`, something else.
abbrev Keys : Type 0
Keys = List (Str × Option (List Str))

abbrev members_of : Option (Option (List Str)) → Option (List Str)
members_of none = some []
members_of (some o) = o

abbrev add_to : Str → List Str → Option (List Str) → Keys → Option Keys
add_to k vs none m = none
add_to k vs (some l) m = some (assign k (some (vs ++ l)) m)

abbrev is_some : Option (Option (List Str)) → Bool
is_some none = false
is_some (some l) = true

abbrev memory : Sets
memory = record {
  State = Keys;
  present = λ j m. is_some (lookup j m);
  members = λ k m. members_of (lookup k m);
  sadd = λ k vs m. add_to k vs (members_of (lookup k m)) m;
  del = λ k m. delete k m;
}

contains-append :
    (j : Str) (xs ys : List Str) → contains j (xs ++ ys) ≡ (contains j xs || contains j ys)
unfolding contains
contains-append j [] ys = refl
contains-append j (x ∷ xs) ys = ground (arith, contains-append j xs ys)

no_set :
    (k : Str) (vs : List Str) (m : Keys) → memory.members k m ≡ none → memory.sadd k vs m ≡ none
no_set k vs m h = rw h refl

added :
    (k : Str) (vs old : List Str) (m : Keys)
    → memory.members k m ≡ some old
    → (m' : Keys) × (new : List Str) × (memory.sadd k vs m ≡ some m')
      × (memory.members k m' ≡ some new)
      × ((j : Str) → contains j new ≡ (contains j vs || contains j old))
added k vs old m h =
    let m' = assign k (some (vs ++ old)) m in
    (
      m',
      vs ++ old,
      rw h refl,
      ground (arith, lookup-assign k k (some (vs ++ old)) m),
      λ j. contains-append j vs old,
    )

present_added :
    (j k v : Str) (vs : List Str) (m m' : Keys)
    → memory.sadd k (v ∷ vs) m ≡ some m'
    → memory.present j m' ≡ (if same j k then true else memory.present j m)
present_added j k v vs m m' h = elim (Option-cases (members_of (lookup k m))) [
  | inl wrong ↦ absurd (ground arith)
  | inr (old, fine) ↦ let l = some ((v ∷ vs) ++ old) in ground (arith, lookup-assign j k l m)
]

present_deleted :
    (j k : Str) (m : Keys)
    → memory.present j (memory.del k m) ≡ (if same j k then false else memory.present j m)
present_deleted j k m = ground (arith, lookup-delete j k m)

memory_sets : IsSets memory
memory_sets = record {
  sadd_wrong = no_set;
  members-sadd = added;
  present-sadd = present_added;
  present-del = present_deleted;
}

abbrev manager : CacheIndexManager
manager = record { has_client = true }

abbrev served : Turn
served = record { net = delivered; at = 0 }

abbrev cached : Keys
cached = (3 ∷ [], none) ∷ (4 ∷ [], none) ∷ []

present-delete_by_index_example :
    let t = register memory served manager (9 ∷ []) ((3 ∷ []) ∷ []) cached in
    let y = delete_by_index memory served manager ((9 ∷ []) ∷ []) t in
    ((n : ℕ) × (y.1 ≡ good n))
    × ((j : Str)
        → memory.present j y.0 ≡ (
            if (contains j ((3 ∷ []) ∷ []) || contains j []) || same j (9 ∷ [])
            then false
            else memory.present j cached))
unfolding lookup dec_str
present-delete_by_index_example =
    present-delete_by_index memory memory_sets served served manager 9 [] (3 ∷ []) [] [] cached refl
      refl refl refl
