-- ===== src/Table/Laws.antt =====
-- How removal, insertion and writes change what the map and the list say of each key.
use go_cachex.Base.{
  ℕ, ◌≡◌, ◌<◌, ◌≤◌, ◌≢◌, refl, none, some, List, [], ◌∷◌, ite, if_pos, if_neg, ℕ_discrete, arith,
}
use go_cachex.Cache.{Str, dec_str}
use go_cachex.Table.Defs.{deref, unlink, locate, Apart, Distinct, Below}

module _ {ℓ} {E : Type ℓ} (key_of : E → Str) where
  pub Apart-locate :
      (k : Str) (p : ℕ) (l : List (ℕ × E)) → Apart key_of k p l → locate key_of k l ≡ none
  unfolding locate
  Apart-locate k p [] a = refl
  Apart-locate k p ((q, e) ∷ l) a = ground (arith, Apart-locate k p l)

  pub Apart-deref : (k : Str) (p : ℕ) (l : List (ℕ × E)) → Apart key_of k p l → deref p l ≡ none
  unfolding deref
  Apart-deref k p [] a = refl
  Apart-deref k p ((q, e) ∷ l) a = ground (arith, Apart-deref k p l)

  pub Apart-unlink :
      (k : Str) (p q : ℕ) (l : List (ℕ × E)) → Apart key_of k p l → Apart key_of k p (unlink q l)
  unfolding unlink
  Apart-unlink k p q [] a = tt
  Apart-unlink k p q ((r, e) ∷ l) a = ground (arith, Apart-unlink k p q l)

  pub unlink-Distinct :
      (q : ℕ) (l : List (ℕ × E)) → Distinct key_of l → Distinct key_of (unlink q l)
  unfolding unlink
  unlink-Distinct q [] d = tt
  unlink-Distinct q ((r, e) ∷ l) d =
      ground (arith, unlink-Distinct q l, Apart-unlink (key_of e) r q l)

  pub unlink-Below : (n q : ℕ) (l : List (ℕ × E)) → Below key_of n l → Below key_of n (unlink q l)
  unfolding unlink
  unlink-Below n q [] b = tt
  unlink-Below n q ((r, e) ∷ l) b = ground (arith, unlink-Below n q l)

  pub Below-mono : (n m : ℕ) (l : List (ℕ × E)) → n ≤ m → Below key_of n l → Below key_of m l
  Below-mono n m [] h b = tt
  Below-mono n m ((r, e) ∷ l) h b = (omega arith, Below-mono n m l h b.1)

  -- An element found behind an entry does not share the entry's key.
  pub Apart-key :
      (k : Str) (q p : ℕ) (e : E) (l : List (ℕ × E))
      → Apart key_of k q l
      → deref p l ≡ some e
      → k ≢ key_of e
  unfolding deref
  Apart-key k q p e [] a h = cc
  Apart-key k q p e ((r, f) ∷ l) a h = ground (arith, Apart-key k q p e l)

  -- In a list with distinct keys and pointers a removed element leaves no trace.
  pub unlink-Apart :
      (p : ℕ) (e : E) (l : List (ℕ × E))
      → Distinct key_of l
      → deref p l ≡ some e
      → Apart key_of (key_of e) p (unlink p l)
  unfolding unlink deref
  unlink-Apart p e [] d h = tt
  unlink-Apart p e ((q, f) ∷ l) d h = elim (ℕ_discrete p q) [
    | yes same ↦ ground arith
    | no other ↦ ground (arith, unlink-Apart p e l, Apart-key (key_of f) q p e l)
  ]

  -- The map's answer, if it agrees with the list, points to an element with that key.
  pub locate-deref :
      (k : Str) (p : ℕ) (l : List (ℕ × E))
      → Distinct key_of l
      → locate key_of k l ≡ some p
      → (e : E) × (deref p l ≡ some e) × (key_of e ≡ k)
  unfolding locate deref
  locate-deref k p [] d h = cc
  locate-deref k p ((q, e) ∷ l) d h = elim (dec_str k (key_of e)) [
    | yes same ↦ (e, ground arith, ground arith)
    | no other ↦
        let (f, found, keyed) = locate-deref k p l d.1 (ground arith) in
        (f, ground (arith, Apart-deref (key_of e) q l), keyed)
  ]

  pub locate-unlink :
      (j : Str) (p : ℕ) (e : E) (l : List (ℕ × E))
      → Distinct key_of l
      → deref p l ≡ some e
      → locate key_of j (unlink p l) ≡ ite (dec_str j (key_of e)) none (locate key_of j l)
  unfolding locate deref unlink
  locate-unlink j p e [] d h = cc
  locate-unlink j p e ((q, f) ∷ l) d h = elim (ℕ_discrete p q) [
    | yes same ↦
        rw (if_pos (ℕ_discrete p q) same)
          (ground (arith, Apart-locate j q l, Apart-locate (key_of f) q l))
    | no other ↦
        rw (if_neg (ℕ_discrete p q) other)
          (ground (arith, locate-unlink j p e l, Apart-key (key_of f) q p e l))
  ]

  pub deref-locate :
      (p : ℕ) (e : E) (l : List (ℕ × E))
      → Distinct key_of l
      → deref p l ≡ some e
      → locate key_of (key_of e) l ≡ some p
  unfolding locate deref
  deref-locate p e [] d h = cc
  deref-locate p e ((q, f) ∷ l) d h = elim (ℕ_discrete p q) [
    | yes same ↦ ground arith
    | no other ↦ ground (arith, deref-locate p e l, Apart-key (key_of f) q p e l)
  ]

  pub deref-lt :
      (n p : ℕ) (e : E) (l : List (ℕ × E)) → Below key_of n l → deref p l ≡ some e → p < n
  unfolding deref
  deref-lt n p e [] b h = cc
  deref-lt n p e ((q, f) ∷ l) b h = ground (arith, deref-lt n p e l)

  -- A new key and a new pointer are apart from the whole list.
  pub fresh-Apart :
      (k : Str) (n : ℕ) (l : List (ℕ × E))
      → Below key_of n l
      → locate key_of k l ≡ none
      → Apart key_of k n l
  unfolding locate
  fresh-Apart k n [] b h = tt
  fresh-Apart k n ((q, f) ∷ l) b h = elim (dec_str k (key_of f)) [
    | yes same ↦ absurd (ground arith)
    | no other ↦ (other, omega arith, fresh-Apart k n l b.1 (ground arith))
  ]
