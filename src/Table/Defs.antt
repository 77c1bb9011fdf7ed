-- ===== src/Table/Defs.antt =====
-- Go maps with string keys, and linked lists whose elements are named by pointers.
use go_cachex.Base.{ℕ, ◌≡◌, ◌<◌, ◌≢◌, Option, none, some, List, [], ◌∷◌, ite, ℕ_discrete, map}
use go_cachex.Cache.{Str, dec_str}

-- A Go map, as an association list in which the first entry for a key counts.
module _ {ℓ} {V : Type ℓ} where
  -- `m[k]`
  unfoldable pub lookup : Str → List (Str × V) → Option V
  lookup k [] = none
  lookup k ((j, v) ∷ m) = ite (dec_str k j) (some v) (lookup k m)

  -- `delete(m, k)`
  unfoldable pub delete : Str → List (Str × V) → List (Str × V)
  delete k [] = []
  delete k ((j, v) ∷ m) = ite (dec_str k j) (delete k m) ((j, v) ∷ delete k m)

  -- `m[k] = v`
  unfoldable pub assign : Str → V → List (Str × V) → List (Str × V)
  unfolding delete
  assign k v m = (k, v) ∷ delete k m

-- A doubly linked list, from its front to its back, as the pointers and contents of its elements.
module _ {ℓ} {E : Type ℓ} where
  -- the content of the element at `p`
  unfoldable pub deref : ℕ → List (ℕ × E) → Option E
  deref p [] = none
  deref p ((q, e) ∷ l) = ite (ℕ_discrete p q) (some e) (deref p l)

  -- `l.Remove(p)`
  unfoldable pub unlink : ℕ → List (ℕ × E) → List (ℕ × E)
  unlink p [] = []
  unlink p ((q, e) ∷ l) = ite (ℕ_discrete p q) l ((q, e) ∷ unlink p l)

  -- `l.Back()`
  unfoldable pub back : List (ℕ × E) → Option (ℕ × E)
  back [] = none
  back (n ∷ []) = some n
  back (n ∷ m ∷ l) = back (m ∷ l)

  -- a write through the pointer `p`
  unfoldable pub store : ℕ → E → List (ℕ × E) → List (ℕ × E)
  store p e [] = []
  store p e ((q, f) ∷ l) = ite (ℕ_discrete p q) ((q, e) ∷ l) ((q, f) ∷ store p e l)

  -- `l.MoveToFront(p)`
  unfoldable pub move_to_front : ℕ → List (ℕ × E) → List (ℕ × E)
  unfolding deref unlink
  move_to_front p l = elim (deref p l) [ none ↦ l | some e ↦ (p, e) ∷ unlink p l ]

  -- The contents, front to back.
  abbrev pub contents : List (ℕ × E) → List E
  contents = map (λ n. n.1)

-- The plain view of the structure: a list of entries, each with its key.
module _ {ℓ} {E : Type ℓ} (key_of : E → Str) where
  -- the first entry with the key
  unfoldable pub seek : Str → List E → Option E
  seek k [] = none
  seek k (e ∷ l) = ite (dec_str k (key_of e)) (some e) (seek k l)

  -- the list without the first entry with the key
  unfoldable pub drop_key : Str → List E → List E
  drop_key k [] = []
  drop_key k (e ∷ l) = ite (dec_str k (key_of e)) l (e ∷ drop_key k l)

  -- the pointer of the first element with the key
  unfoldable pub locate : Str → List (ℕ × E) → Option ℕ
  locate k [] = none
  locate k ((p, e) ∷ l) = ite (dec_str k (key_of e)) (some p) (locate k l)

  -- No element of the list has the key or the pointer.
  abbrev pub Apart : Str → ℕ → List (ℕ × E) → Type 0
  Apart k p [] = Unit
  Apart k p ((q, e) ∷ l) = (k ≢ key_of e) × (p ≢ q) × Apart k p l

  -- Keys and pointers are pairwise distinct.
  abbrev pub Distinct : List (ℕ × E) → Type 0
  Distinct [] = Unit
  Distinct ((p, e) ∷ l) = Apart (key_of e) p l × Distinct l

  -- Every pointer has been allocated.
  abbrev pub Below : ℕ → List (ℕ × E) → Type 0
  Below n [] = Unit
  Below n ((p, e) ∷ l) = (p < n) × Below n l

  -- The map points, for every key, to the element that holds the key, and to nothing else.
  pub record IsCoherent (m : List (Str × ℕ)) (l : List (ℕ × E)) (next : ℕ) : Type ℓ where
    pub agrees : (k : Str) → lookup k m ≡ locate k l
    pub distinct : Distinct l
    pub allocated : Below next l
