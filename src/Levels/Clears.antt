-- ===== src/Levels/Clears.antt =====
-- advanced_cache.go and multi_level_cache.go: what Clear leaves.
use go_cachex.Base.{ℕ, ◌≡◌, ◌≢◌, refl, sym, ap, ◌∙◌, inl, inr, List, [], ◌∷◌, ◌++◌, map, arith}
use mathlib.Core.List.{append_assoc}
use mathlib.Core.Path.{subst}
use go_cachex.Cache.{Str}
use go_cachex.Redis.{Turn, delivered, refused, cut}
use go_cachex.Handler.{Handler}
use go_cachex.Levels.Server.{Server, IsServer, IsListed, IsPlain}
use go_cachex.Levels.Advanced
use go_cachex.Levels.Advanced.{
  AdvancedCache, AdvancedCacheConfig, Formats, get_key, compress, decompress, store_text, read_text,
  is_short, or_default, trim_prefix,
}
use go_cachex.Levels.Multi
use go_cachex.Levels.Multi.{MultiLevelCache}

module _ (r : Server) (laws : IsServer r) (T : Type 0) (f : Formats T) where
  -- The pattern of Clear has the namespace twice, since `getKey` puts it before the pattern too.
  listed_begins :
      (now : ℕ) (c : AdvancedCache) (p k : Str) (s : r.State)
      → IsPlain (get_key c p)
      → IsListed k (r.keys now (get_key c (p ++ b'*' ∷ [])) s)
      → (rest : Str) × (k ≡ get_key c p ++ rest)
  unfolding get_key
  listed_begins now c p k s pure h =
      laws.keys_begin now (c.config.namespace ++ (b':' ∷ p)) k s pure (
        subst (λ l. IsListed k (r.keys now l s))
          (sym (append_assoc c.config.namespace (b':' ∷ p) (b'*' ∷ []))) h)

  trim_lem : (whole p rest : Str) → trim_prefix r T f whole p (p ++ rest) ≡ rest
  unfolding trim_prefix
  trim_lem whole [] rest = refl
  trim_lem whole (c ∷ p) rest = ground (arith, trim_lem whole p rest)

  abbrev prefix_of : AdvancedCache → Str
  prefix_of c = c.config.namespace ++ b':' ∷ []

  key_shape : (c : AdvancedCache) (k : Str) → get_key c k ≡ prefix_of c ++ k
  unfolding get_key
  key_shape c k = sym (append_assoc c.config.namespace (b':' ∷ []) k)

  trim-get_key :
      (c : AdvancedCache) (whole k : Str) → trim_prefix r T f whole (prefix_of c) (get_key c k) ≡ k
  trim-get_key c whole k =
      ap (trim_prefix r T f whole (prefix_of c)) (key_shape c k) ∙ trim_lem whole (prefix_of c) k

  get_key_injective : (c : AdvancedCache) (a b : Str) → get_key c a ≡ get_key c b → a ≡ b
  get_key_injective c a b e =
      sym (trim-get_key c [] a) ∙ ap (trim_prefix r T f [] (prefix_of c)) e ∙ trim-get_key c [] b

  IsListed-map :
      (g : Str → Str) (x : Str) (ks : List Str)
      → IsListed x (map g ks)
      → (k : Str) × IsListed k ks × (x ≡ g k)
  IsListed-map g x [] h = absurd h
  IsListed-map g x (k ∷ ks) (inl e) = (k, inl refl, e)
  IsListed-map g x (k ∷ ks) (inr h) = let (j, there, e) = IsListed-map g x ks h in (j, inr there, e)

  delete_keeps :
      (t : ℕ) (turn : Turn) (k : Str) (ks : List Str) (c : AdvancedCache) (s : r.State)
      → (IsListed k (map (get_key c) ks) → ⊥)
      → r.value t k (Advanced.delete r T f turn ks c s).1 ≡ r.value t k s
  unfolding Advanced.delete
  delete_keeps t turn k [] c s h = refl
  delete_keeps t turn k (j ∷ ks) c s h =
      let kept = laws.del_other turn.at t k (map (get_key c) (j ∷ ks)) s h in
      elim turn.net
        as (λ n.
          r.value t k (Advanced.delete r T f (record turn { net = n }) (j ∷ ks) c s).1
          ≡ r.value t k s) [ delivered ↦ kept | refused e ↦ refl | cut e ↦ kept ]

  -- The keys that are deleted begin with the namespace twice.
  deleted_begins :
      (now : ℕ) (c : AdvancedCache) (p key : Str) (s : r.State)
      → IsPlain (get_key c p)
      → ((rest : Str) → key ≢ p ++ rest)
      → let ks = r.keys now (get_key c (p ++ b'*' ∷ [])) s in
        IsListed
          (get_key c key)
          (map (get_key c) (map (λ k. trim_prefix r T f k (prefix_of c) k) ks))
        → ⊥
  deleted_begins now c p key s pure other h =
      let ks = r.keys now (get_key c (p ++ b'*' ∷ [])) s in
      let (j, there, e) =
        IsListed-map (get_key c) (get_key c key) (map (λ k. trim_prefix r T f k (prefix_of c) k) ks)
          h in
      let (k, listed, e') = IsListed-map (λ k. trim_prefix r T f k (prefix_of c) k) j ks there in
      let (rest, begins) = listed_begins now c p k s pure listed in
      let whole : k ≡ get_key c (p ++ rest) =
        begins
        ∙ ap (λ l. l ++ rest) (key_shape c p)
        ∙ append_assoc (prefix_of c) p rest
        ∙ sym (key_shape c (p ++ rest)) in
      other rest (
        get_key_injective c key j e
        ∙ e'
        ∙ ap (λ l. trim_prefix r T f k (prefix_of c) l) whole
        ∙ trim-get_key c k (p ++ rest))

  clear_keeps :
      (t : ℕ) (lists deletes : Turn) (c : AdvancedCache) (p key : Str) (s : r.State)
      → IsPlain (get_key c p)
      → ((rest : Str) → key ≢ p ++ rest)
      → r.value t
          (get_key c key)
          (Advanced.clear r T f lists deletes (λ s. s) (p ++ b'*' ∷ []) c s).1
        ≡ r.value t (get_key c key) s
  unfolding Advanced.clear Advanced.keys
  clear_keeps t lists deletes c p key s pure other =
      elim lists.net
        as (λ n.
          r.value t (get_key c key)
            (Advanced.clear r T f (record lists { net = n }) deletes (λ s. s) (p ++ b'*' ∷ []) c
              s).1
          ≡ r.value t (get_key c key) s) [
            | delivered ↦
                delete_keeps t deletes (get_key c key)
                  (map (λ k. trim_prefix r T f k (prefix_of c) k)
                    (r.keys lists.at (get_key c (p ++ b'*' ∷ [])) s))
                  c s (deleted_begins lists.at c p key s pure other)
            | refused e ↦ refl
            | cut e ↦ refl
          ]

  module _ (l1 : Handler) (E : Type 0) where
    -- Clear of a MultiLevelCache leaves in Redis every entry whose key does not begin with the namespace,
    -- whatever happens to its calls, as long as the namespaces hold no wildcard: the pattern has
    -- the namespace twice.
    pub clear-leaves_l2 :
        (t : ℕ) (clear_near : l1.State → l1.State) (lists deletes : Turn)
        (m : MultiLevelCache l1 r T E f) (key : Str) (s : r.State)
        → IsPlain (get_key m.far m.namespace)
        → ((rest : Str) → key ≢ m.namespace ++ rest)
        → let y = Multi.clear l1 r T E f clear_near lists deletes (λ s. s) m s in
          r.value t (get_key m.far key) y.1 ≡ r.value t (get_key m.far key) s
    unfolding Multi.clear
    clear-leaves_l2 t clear_near lists deletes m key s pure other =
        clear_keeps t lists deletes m.far m.namespace key s pure other
