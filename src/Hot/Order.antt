-- ===== src/Hot/Order.antt =====
-- hotkey.go: every key of the local copy stands in the order of insertion, once in the map.
use go_cachex.Base.{
  ◌+◌, ◌≡◌, ◌≢◌, refl, sym, ap, ◌∙◌, ◌⊎◌, inl, inr, none, some, List, [], ◌∷◌, ◌++◌, length, if_pos,
  if_neg, arith,
}
use go_cachex.Cache.{Str, dec_str}
use go_cachex.Table.{lookup, delete, assign, lookup-delete, lookup-assign}
use go_cachex.Hot.Defs.{Data, HotKeyCache, copy_map}

-- `k` stands in the list.
abbrev pub Listed : Str → List Str → Type 0
Listed k [] = ⊥
Listed k (j ∷ l) = (k ≡ j) ⊎ Listed k l

module _ (V : Type 0) where
  -- No key is in the map twice, as in every Go map.
  abbrev pub Distinct : Data V → Type 0
  Distinct [] = Unit
  Distinct ((k, v) ∷ m) = (lookup k m ≡ none) × Distinct m

  abbrev pub Covers : List Str → Data V → Type 0
  Covers order m = (k : Str) → lookup k m ≢ none → Listed k order

  pub record IsTracked (h : HotKeyCache V) : Type 0 where
    pub distinct : Distinct h.local_cache
    pub covers : Covers h.access_order h.local_cache

pub Listed-append_left : (k : Str) (l r : List Str) → Listed k l → Listed k (l ++ r)
Listed-append_left k [] r h = absurd h
Listed-append_left k (j ∷ l) r (inl e) = inl e
Listed-append_left k (j ∷ l) r (inr h) = inr (Listed-append_left k l r h)

pub Listed-append_right : (k : Str) (l r : List Str) → Listed k r → Listed k (l ++ r)
Listed-append_right k [] r h = h
Listed-append_right k (j ∷ l) r h = inr (Listed-append_right k l r h)

module _ (V : Type 0) where
  delete_hit : (k j : Str) (v : V) (m : Data V) → k ≡ j → delete k ((j, v) ∷ m) ≡ delete k m
  unfolding delete
  delete_hit k j v m e = if_pos (dec_str k j) e _ _

  delete_miss :
      (k j : Str) (v : V) (m : Data V) → k ≢ j → delete k ((j, v) ∷ m) ≡ (j, v) ∷ delete k m
  unfolding delete
  delete_miss k j v m e = if_neg (dec_str k j) e _ _

  pub delete-Distinct : (k : Str) (m : Data V) → Distinct V m → Distinct V (delete k m)
  delete-Distinct k [] h = unfold delete in tt
  delete-Distinct k ((j, v) ∷ m) (apart, h) =
      let rest = delete-Distinct k m h in
      elim (dec_str k j) [
        | yes e ↦ rw (delete_hit k j v m e) rest
        | no ne ↦ rw (delete_miss k j v m ne) (ground (arith, lookup-delete j k m), rest)
      ]

  pub delete_absent : (k : Str) (m : Data V) → lookup k m ≡ none → delete k m ≡ m
  unfolding delete lookup
  delete_absent k [] h = refl
  delete_absent k ((j, v) ∷ m) h = ground (arith, delete_absent k m)

  pub length-delete :
      (k : Str) (v : V) (m : Data V)
      → Distinct V m
      → lookup k m ≡ some v
      → length (delete k m) + 1 ≡ length m
  unfolding delete lookup
  length-delete k v [] h found = ground arith
  length-delete k v ((j, w) ∷ m) (apart, h) found = elim (dec_str k j) [
    | yes e ↦
        rw (delete_hit k j w m e, delete_absent k m (ap (λ i. lookup i m) e ∙ apart)) (omega arith)
    | no ne ↦
        rw (delete_miss k j w m ne)
          (omega (arith, length-delete k v m h (sym (if_neg (dec_str k j) ne _ _) ∙ found)))
  ]

  pub assign-Distinct : (k : Str) (v : V) (m : Data V) → Distinct V m → Distinct V (assign k v m)
  unfolding assign
  assign-Distinct k v m h = (ground (arith, lookup-delete k k m), delete-Distinct k m h)

  pub copy_map-Distinct : (m : Data V) → Distinct V (copy_map V m)
  unfolding copy_map
  copy_map-Distinct [] = tt
  copy_map-Distinct ((k, v) ∷ m) = assign-Distinct k v (copy_map V m) (copy_map-Distinct m)

  pub lookup-copy_map : (k : Str) (m : Data V) → lookup k (copy_map V m) ≡ lookup k m
  unfolding copy_map lookup
  lookup-copy_map k [] = refl
  lookup-copy_map k ((j, v) ∷ m) =
      ground (arith, lookup-copy_map k m, lookup-assign k j v (copy_map V m))
