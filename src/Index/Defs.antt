-- ===== src/Index/Defs.antt =====
-- cache_index.go: `CacheIndexManager` and `IndexGroup`, over the commands of Redis on sets.
use go_cachex.Base.{
  ℕ, suc, ◌+◌, ◌≡◌, Bool, true, false, not, ◌||◌, List, [], ◌∷◌, ◌++◌, ite, if◌then◌else◌, Option,
  none, some,
}
use go_cachex.Cache.{Str, dec_str}
use go_cachex.Redis.{Turn, Fault, network_fault, Outcome, good, bad, outcome_of}

abbrev pub same : Str → Str → Bool
same j k = ite (dec_str j k) true false

unfoldable pub contains : Str → List Str → Bool
contains j [] = false
contains j (k ∷ ks) = same j k || contains j ks

pub record Sets : Type 1 where
  pub State : Type 0
  -- Is there anything under the key, of whatever type?
  pub present : Str → State → Bool
  -- `SMEMBERS`, with no members if the key is missing; `none` is the error for a key of another type.
  pub members : Str → State → Option (List Str)
  -- `none` is the error for a key of another type, which stays as it is.
  pub sadd : Str → List Str → State → Option State
  pub del : Str → State → State

pub record IsSets (r : Sets) : Type 0 where
  pub sadd_wrong :
      (k : Str) (vs : List Str) (s : r.State) → r.members k s ≡ none → r.sadd k vs s ≡ none
  pub members-sadd :
      (k : Str) (vs old : List Str) (s : r.State)
      → r.members k s ≡ some old
      → (s' : r.State) × (new : List Str) × (r.sadd k vs s ≡ some s')
        × (r.members k s' ≡ some new)
        × ((j : Str) → contains j new ≡ (contains j vs || contains j old))
  pub present-sadd :
      (j k v : Str) (vs : List Str) (s s' : r.State)
      → r.sadd k (v ∷ vs) s ≡ some s'
      → r.present j s' ≡ (if same j k then true else r.present j s)
  pub present-del :
      (j k : Str) (s : r.State)
      → r.present j (r.del k s) ≡ (if same j k then false else r.present j s)

-- The client may be nil.
pub record CacheIndexManager : Type 0 where
  pub has_client : Bool

pub record IndexGroup : Type 0 where
  pub manager : CacheIndexManager
  pub idx_keys : List Str

unfoldable pub new_index_group : CacheIndexManager → List Str → IndexGroup
new_index_group m idx_keys = record { manager = m; idx_keys = idx_keys }

unfoldable pub add_index_keys : List Str → IndexGroup → IndexGroup
add_index_keys keys g = record g { idx_keys = g.idx_keys ++ keys }

abbrev pub is_empty {ℓ} : {A : Type ℓ} → List A → Bool
is_empty [] = true
is_empty (_ ∷ _) = false

-- An error reply of the script is an error of the client.
abbrev pub replied : {A : Type 0} → Outcome Fault (Option A) → Outcome Fault A
replied (good (some a)) = good a
replied (good none) = bad network_fault
replied (bad e) = bad e

abbrev pub counted : ℕ → Option ℕ → Option ℕ
counted a none = none
counted a (some b) = some (a + b)

abbrev pub or_else : {A : Type 0} → A → Option A → A
or_else a none = a
or_else a (some b) = b

module _ (r : Sets) where
  -- `Register` drops the error of `SAdd`, also that of the server.
  unfoldable pub register : Turn → CacheIndexManager → Str → List Str → r.State → r.State
  register turn m idx keys s =
      if not m.has_client || is_empty idx || is_empty keys
      then s
      else (outcome_of turn.net s (or_else s (r.sadd idx keys s), tt)).0

  unfoldable pub del_each : List Str → r.State → r.State
  del_each [] s = s
  del_each (k ∷ ks) s = del_each ks (r.del k s)

  abbrev pub count : List Str → ℕ
  count [] = 0
  count (_ ∷ ks) = suc (count ks)

  -- The script `luaDeleteByIndexSet`: it counts every member, also one that has no key. An index of another
  -- type ends it by an error, `none`; what it has deleted before stays deleted.
  unfoldable pub delete_script : List Str → r.State → r.State × Option ℕ
  unfolding del_each
  delete_script [] s = (s, some 0)
  delete_script (idx ∷ idxs) s = elim (r.members idx s) [
    | none ↦ (s, none)
    | some ks ↦
        let (s', n) = delete_script idxs (r.del idx (del_each ks s)) in (s', counted (count ks) n)
  ]

  unfoldable pub delete_by_index :
      Turn → CacheIndexManager → List Str → r.State → r.State × Outcome Fault ℕ
  unfolding delete_script
  delete_by_index turn m idxs s =
      if not m.has_client || is_empty idxs
      then (s, good 0)
      else (let (s', o) = outcome_of turn.net s (delete_script idxs s) in (s', replied o))

  unfoldable pub delete_by_keys :
      Turn → CacheIndexManager → List Str → r.State → r.State × Outcome Fault (Unit {0})
  unfolding del_each
  delete_by_keys turn m keys s =
      if not m.has_client || is_empty keys
      then (s, good tt)
      else outcome_of turn.net s (del_each keys s, tt)

  unfoldable pub get_index_members :
      Turn → CacheIndexManager → Str → r.State → Outcome Fault (List Str)
  get_index_members turn m idx s =
      if not m.has_client || is_empty idx
      then good []
      else replied (outcome_of turn.net s (s, r.members idx s)).1

  unfoldable pub group_delete : Turn → IndexGroup → r.State → r.State × Outcome Fault ℕ
  unfolding delete_by_index
  group_delete turn g s = delete_by_index turn g.manager g.idx_keys s

  -- `CacheWrapperWithIndex`: the key is registered, and then the wrapped loader runs. A nil manager is
  -- `none`.
  unfoldable pub wrapper_with_index :
      {A : Type 0}
      → Turn
      → Option CacheIndexManager
      → Str
      → Str
      → (r.State → r.State × A)
      → r.State
      → r.State × A
  unfolding register
  wrapper_with_index turn none idx key wrapped s = wrapped s
  wrapper_with_index turn (some m) idx key wrapped s =
      wrapped (if is_empty idx then s else register turn m idx (key ∷ []) s)
