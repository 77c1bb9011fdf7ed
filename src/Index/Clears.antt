-- ===== src/Index/Clears.antt =====
-- cache_index.go: what registering and deleting by an index do to every key.
use go_cachex.Base.{
  ℕ, ◌+◌, ◌≡◌, refl, none, some, true, false, ◌||◌, List, [], ◌∷◌, arith, if◌then◌else◌,
}
use go_cachex.Cache.{Str}
use go_cachex.Redis.{Turn, delivered, network_fault, good, bad}
use go_cachex.Index.Defs.{
  Sets, IsSets, CacheIndexManager, same, contains, register, del_each, count, delete_by_index,
}

module _ (r : Sets) (laws : IsSets r) where
  present-del_each :
      (j : Str) (ks : List Str) (s : r.State)
      → r.present j (del_each r ks s) ≡ (if contains j ks then false else r.present j s)
  unfolding del_each contains
  present-del_each j [] s = refl
  present-del_each j (k ∷ ks) s =
      ground (arith, present-del_each j ks (r.del k s), laws.present-del j k s)

  module _ (turn next : Turn) (m : CacheIndexManager) (client : m.has_client ≡ true)
      (sent : turn.net ≡ delivered) (sent' : next.net ≡ delivered) (c : ℕ) (idx k : Str)
      (ks : List Str) (s : r.State) where
    register_set :
        (t : r.State)
        → r.sadd (c ∷ idx) (k ∷ ks) s ≡ some t
        → register r turn m (c ∷ idx) (k ∷ ks) s ≡ t
    unfolding register
    register_set t put = ground arith

    register_wrong : r.sadd (c ∷ idx) (k ∷ ks) s ≡ none → register r turn m (c ∷ idx) (k ∷ ks) s ≡ s
    unfolding register
    register_wrong put = ground arith

    delete_by_index_set :
        (t : r.State) (new : List Str)
        → r.members (c ∷ idx) t ≡ some new
        → delete_by_index r next m ((c ∷ idx) ∷ []) t
          ≡ (r.del (c ∷ idx) (del_each r new t), good (count r new + 0))
    unfolding delete_by_index
    delete_by_index_set t new there = ground arith

    delete_by_index_wrong :
        (t : r.State)
        → r.members (c ∷ idx) t ≡ none
        → delete_by_index r next m ((c ∷ idx) ∷ []) t ≡ (t, bad network_fault)
    unfolding delete_by_index
    delete_by_index_wrong t there = ground arith

  -- Registering cache keys under an index that is a set or is missing, and deleting by this index, both served,
  -- removes the keys that were registered, those that the index held before, and the index itself; every
  -- other key is there afterwards exactly if it was there before. The deletion reports no error.
  pub present-delete_by_index :
      (turn next : Turn) (m : CacheIndexManager) (c : ℕ) (idx k : Str) (ks old : List Str)
      → (s : r.State) → m.has_client ≡ true
      → turn.net ≡ delivered
      → next.net ≡ delivered
      → r.members (c ∷ idx) s ≡ some old
      → let t = register r turn m (c ∷ idx) (k ∷ ks) s in
        let y = delete_by_index r next m ((c ∷ idx) ∷ []) t in
        ((n : ℕ) × (y.1 ≡ good n))
        × ((j : Str)
            → r.present j y.0 ≡ (
                if (contains j (k ∷ ks) || contains j old) || same j (c ∷ idx)
                then false
                else r.present j s))
  present-delete_by_index turn next m c idx k ks old s client sent sent' there =
      let (t, new, put, now, all) = laws.members-sadd (c ∷ idx) (k ∷ ks) old s there in
      let u = del_each r new t in
      let done = delete_by_index_set turn next m client sent sent' c idx k ks s t new now in
      rw (register_set turn next m client sent sent' c idx k ks s t put, done)
        (
          (count r new + 0, refl),
          λ j. ground (
            arith,
            laws.present-del j (c ∷ idx) u,
            present-del_each j new t,
            all j,
            laws.present-sadd j (c ∷ idx) k ks s t put,
          ),
        )

  -- An index that holds something else, such as a cached text: `Register` says nothing, and the deletion fails
  -- and removes nothing, so that the registered keys stay.
  pub delete_by_index_wrong_type :
      (turn next : Turn) (m : CacheIndexManager) (c : ℕ) (idx k : Str) (ks : List Str)
      → (s : r.State) → m.has_client ≡ true
      → turn.net ≡ delivered
      → next.net ≡ delivered
      → r.members (c ∷ idx) s ≡ none
      → let t = register r turn m (c ∷ idx) (k ∷ ks) s in
        delete_by_index r next m ((c ∷ idx) ∷ []) t ≡ (s, bad network_fault)
  delete_by_index_wrong_type turn next m c idx k ks s client sent sent' there =
      let put = laws.sadd_wrong (c ∷ idx) (k ∷ ks) s there in
      rw (register_wrong turn next m client sent sent' c idx k ks s put)
        (delete_by_index_wrong turn next m client sent sent' c idx k ks s s there)
