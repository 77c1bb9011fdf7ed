-- ===== src/Table/View.antt =====
-- The plain view: what each operation does to the list of entries, and that the map and the list
-- stay in agreement.
use go_cachex.Base.{
  ite, ℕ, ◌+◌, ◌≡◌, ◌≢◌, refl, sym, ap, ◌∙◌, none, some, List, [], ◌∷◌, if_neg, ℕ_discrete, arith,
  ◌⊎◌, inl, inr, length, drop_last, Option-cases,
}
use go_cachex.Cache.{Str, dec_str}
use go_cachex.Table.Defs.{
  lookup, delete, assign, deref, unlink, back, store, move_to_front, contents, locate, seek,
  drop_key, Apart, Below, Distinct, IsCoherent,
}
use go_cachex.Table.Dict.{lookup-delete, lookup-assign}
use go_cachex.Table.Laws.{
  Apart-deref, Apart-key, unlink-Apart, unlink-Distinct, unlink-Below, Below-mono, locate-deref,
  locate-unlink, deref-locate, deref-lt, fresh-Apart,
}

module _ {ℓ} {E : Type ℓ} where
  pub length-contents : (l : List (ℕ × E)) → length (contents l) ≡ length l
  length-contents [] = refl
  length-contents (n ∷ l) = omega (arith, length-contents l)

  pub length-unlink :
      (p : ℕ) (e : E) (l : List (ℕ × E)) → deref p l ≡ some e → length (unlink p l) + 1 ≡ length l
  unfolding deref unlink
  length-unlink p e [] h = cc
  length-unlink p e ((q, f) ∷ l) h = ground (arith, length-unlink p e l)

  deref-store :
      (p : ℕ) (e f : E) (l : List (ℕ × E)) → deref p l ≡ some f → deref p (store p e l) ≡ some e
  unfolding deref store
  deref-store p e f [] h = cc
  deref-store p e f ((q, g) ∷ l) h = ground (arith, deref-store p e f l)

  unlink-store : (p : ℕ) (e : E) (l : List (ℕ × E)) → unlink p (store p e l) ≡ unlink p l
  unfolding unlink store
  unlink-store p e [] = refl
  unlink-store p e ((q, g) ∷ l) = ground (arith, unlink-store p e l)

  -- To overwrite an element and move it to the front is to put the new content there.
  pub move_to_front-store :
      (p : ℕ) (e f : E) (l : List (ℕ × E))
      → deref p l ≡ some f
      → move_to_front p (store p e l) ≡ (p, e) ∷ unlink p l
  unfolding move_to_front
  move_to_front-store p e f l h = ground (arith, deref-store p e f l h, unlink-store p e l)

  pub back-cons : (n : ℕ × E) (l : List (ℕ × E)) → (m : ℕ × E) × (back (n ∷ l) ≡ some m)
  unfolding back
  back-cons n [] = (n, refl)
  back-cons n (m ∷ l) = back-cons m l

  -- A write through a pointer that is not freed changes nothing but the content there.
  pub deref-store_lem :
      (p q : ℕ) (e f : E) (l : List (ℕ × E))
      → deref p l ≡ some f
      → deref q (store p e l) ≡ ite (ℕ_discrete q p) (some e) (deref q l)
  unfolding deref store
  deref-store_lem p q e f [] h = cc
  deref-store_lem p q e f ((r, g) ∷ l) h = ground (arith, deref-store_lem p q e f l)

  pub length-store : (p : ℕ) (e : E) (l : List (ℕ × E)) → length (store p e l) ≡ length l
  unfolding store
  length-store p e [] = refl
  length-store p e ((r, g) ∷ l) = ground (arith, length-store p e l)

module _ {ℓ} {E : Type ℓ} (key_of : E → Str) where
  store-locate :
      (j : Str) (p : ℕ) (e f : E) (l : List (ℕ × E))
      → deref p l ≡ some f
      → key_of e ≡ key_of f
      → locate key_of j (store p e l) ≡ locate key_of j l
  unfolding deref store locate
  store-locate j p e f [] h k = cc
  store-locate j p e f ((r, g) ∷ l) h k = ground (arith, store-locate j p e f l)

  store-Apart :
      (j : Str) (q p : ℕ) (e f : E) (l : List (ℕ × E))
      → deref p l ≡ some f
      → key_of e ≡ key_of f
      → Apart key_of j q l
      → Apart key_of j q (store p e l)
  unfolding deref store
  store-Apart j q p e f [] h k a = tt
  store-Apart j q p e f ((r, g) ∷ l) h k a = ground (arith, store-Apart j q p e f l)

  store-Distinct :
      (p : ℕ) (e f : E) (l : List (ℕ × E))
      → deref p l ≡ some f
      → key_of e ≡ key_of f
      → Distinct key_of l
      → Distinct key_of (store p e l)
  unfolding deref store
  store-Distinct p e f [] h k d = tt
  store-Distinct p e f ((r, g) ∷ l) h k d =
      ground (arith, store-Distinct p e f l, store-Apart (key_of g) r p e f l)

  store-Below :
      (n p : ℕ) (e : E) (l : List (ℕ × E)) → Below key_of n l → Below key_of n (store p e l)
  unfolding store
  store-Below n p e [] b = tt
  store-Below n p e ((r, g) ∷ l) b = ground (arith, store-Below n p e l)

  seek_miss :
      (k : Str) (l : List (ℕ × E)) → locate key_of k l ≡ none → seek key_of k (contents l) ≡ none
  unfolding locate seek
  seek_miss k [] h = refl
  seek_miss k ((q, e) ∷ l) h = ground (arith, seek_miss k l)

  pub seek-drop_key_ne :
      (j k : Str) (l : List E) → k ≢ j → seek key_of j (drop_key key_of k l) ≡ seek key_of j l
  unfolding seek drop_key
  seek-drop_key_ne j k [] h = refl
  seek-drop_key_ne j k (e ∷ l) h = ground (arith, seek-drop_key_ne j k l h)

  seek_hit :
      (k : Str) (p : ℕ) (e : E) (l : List (ℕ × E))
      → Distinct key_of l
      → locate key_of k l ≡ some p
      → deref p l ≡ some e
      → seek key_of k (contents l) ≡ some e
  unfolding locate seek deref
  seek_hit k p e [] d h r = cc
  seek_hit k p e ((q, f) ∷ l) d h r = elim (dec_str k (key_of f)) [
    | yes same ↦ ground arith
    | no other ↦
        let (g, found, _) = locate-deref key_of k p l d.1 (ground arith) in
        ground (arith, seek_hit k p e l, Apart-deref key_of (key_of f) q l)
  ]

  pub contents-unlink :
      (p : ℕ) (e : E) (l : List (ℕ × E))
      → Distinct key_of l
      → deref p l ≡ some e
      → contents (unlink p l) ≡ drop_key key_of (key_of e) (contents l)
  unfolding deref unlink drop_key
  contents-unlink p e [] d h = cc
  contents-unlink p e ((q, f) ∷ l) d h = elim (ℕ_discrete p q) [
    | yes same ↦ ground arith
    | no other ↦ ground (arith, contents-unlink p e l, Apart-key key_of (key_of f) q p e l)
  ]

  pub back-deref :
      (p : ℕ) (e : E) (l : List (ℕ × E))
      → Distinct key_of l
      → back l ≡ some (p, e)
      → deref p l ≡ some e
  unfolding back deref
  back-deref p e [] d h = cc
  back-deref p e ((q, f) ∷ []) d h = ground arith
  back-deref p e ((q, f) ∷ n ∷ l) d h =
      let found = back-deref p e (n ∷ l) d.1 h in
      ground (arith, Apart-deref key_of (key_of f) q (n ∷ l) d.0)

  pub contents-unlink-back :
      (p : ℕ) (e : E) (l : List (ℕ × E))
      → Distinct key_of l
      → back l ≡ some (p, e)
      → contents (unlink p l) ≡ drop_last (contents l)
  unfolding back unlink drop_last
  contents-unlink-back p e [] d h = refl
  contents-unlink-back p e ((q, f) ∷ []) d h = ground arith
  contents-unlink-back p e ((q, f) ∷ n ∷ l) d h =
      let found = back-deref p e (n ∷ l) d.1 h in
      let rest = contents-unlink-back p e (n ∷ l) d.1 h in
      elim (ℕ_discrete p q) [
        | yes same ↦ absurd (ground (arith, Apart-deref key_of (key_of f) q (n ∷ l) d.0))
        | no other ↦ rw (if_neg (ℕ_discrete p q) other) (ap (◌∷◌ f) rest)
      ]

  module _ {m : List (Str × ℕ)} {l : List (ℕ × E)} {next : ℕ} (c : IsCoherent key_of m l next) where
    -- What the map says of a key, read off the list of entries.
    pub resolve :
        (k : Str)
        → ((lookup k m ≡ none) × (seek key_of k (contents l) ≡ none))
          ⊎ ((p : ℕ) × (e : E) × (lookup k m ≡ some p)
              × (deref p l ≡ some e)
              × (key_of e ≡ k)
              × (seek key_of k (contents l) ≡ some e))
    resolve k = elim (Option-cases (lookup k m)) [
      | inl miss ↦ inl (miss, seek_miss k l (sym (c.agrees k) ∙ miss))
      | inr (p, hit) ↦
          let at = sym (c.agrees k) ∙ hit in
          let (e, found, keyed) = locate-deref key_of k p l c.distinct at in
          inr (p, e, hit, found, keyed, seek_hit k p e l c.distinct at found)
    ]

    pub lookup-seek-none : (k : Str) → lookup k m ≡ none → seek key_of k (contents l) ≡ none
    lookup-seek-none k miss = seek_miss k l (sym (c.agrees k) ∙ miss)

    pub remove-IsCoherent :
        (p : ℕ) (e : E)
        → deref p l ≡ some e
        → IsCoherent key_of (delete (key_of e) m) (unlink p l) next
    remove-IsCoherent p e found = record {
      agrees = λ j. ground (
        arith,
        lookup-delete j (key_of e) m,
        locate-unlink key_of j p e l c.distinct found,
        c.agrees j,
      );
      distinct = unlink-Distinct key_of p l c.distinct;
      allocated = unlink-Below key_of next p l c.allocated;
    }

    pub front-IsCoherent :
        (p : ℕ) (e e' : E)
        → deref p l ≡ some e
        → key_of e' ≡ key_of e
        → IsCoherent key_of m ((p, e') ∷ unlink p l) next
    unfolding locate
    front-IsCoherent p e e' found keyed = record {
      agrees = λ j. ground (
        arith,
        locate-unlink key_of j p e l c.distinct found,
        deref-locate key_of p e l c.distinct found,
        c.agrees j,
        c.agrees (key_of e),
      );
      distinct = (
        rw keyed (unlink-Apart key_of p e l c.distinct found),
        unlink-Distinct key_of p l c.distinct,
      );
      allocated =
          (deref-lt key_of next p e l c.allocated found, unlink-Below key_of next p l c.allocated);
    }

    pub store-IsCoherent :
        (p : ℕ) (e e' : E)
        → deref p l ≡ some e
        → key_of e' ≡ key_of e
        → IsCoherent key_of m (store p e' l) next
    store-IsCoherent p e e' found keyed = record {
      agrees = λ j. c.agrees j ∙ sym (store-locate j p e' e l found keyed);
      distinct = store-Distinct p e' e l found keyed c.distinct;
      allocated = store-Below next p e' l c.allocated;
    }

    pub push-IsCoherent :
        (e : E)
        → lookup (key_of e) m ≡ none
        → IsCoherent key_of (assign (key_of e) next m) ((next, e) ∷ l) (next + 1)
    unfolding locate
    push-IsCoherent e miss = record {
      agrees = λ j. ground (arith, lookup-assign j (key_of e) next m, c.agrees j);
      distinct = (
        fresh-Apart key_of (key_of e) next l c.allocated (sym (c.agrees (key_of e)) ∙ miss),
        c.distinct,
      );
      allocated = (omega arith, Below-mono key_of next (next + 1) l (omega arith) c.allocated);
    }
