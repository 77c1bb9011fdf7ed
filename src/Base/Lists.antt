-- ===== src/Base/Lists.antt =====
-- Lists with native lengths.
use Prim.Native.Nat.{ℕ, zero, suc, ◌+◌, ◌≤◌, ◌<◌}
use mathlib.Core.List.{List, [], ◌∷◌, ◌++◌}
use mathlib.Core.Path.{◌≡◌, refl, ap}
use native.Mathlib.Omega.{arith}

module _ {ℓ} {A : Type ℓ} where
  abbrev pub length : List A → ℕ
  length [] = 0
  length (x ∷ xs) = suc (length xs)

  pub length-append : (xs ys : List A) → length (xs ++ ys) ≡ length xs + length ys
  length-append [] ys = omega arith
  length-append (x ∷ xs) ys = omega (arith, length-append xs ys)

  -- The first `n` elements.
  abbrev pub take : ℕ → List A → List A
  take _ [] = []
  take zero (y ∷ l) = []
  take (suc n) (y ∷ l) = y ∷ take n l

  -- The rest.
  abbrev pub drop : ℕ → List A → List A
  drop zero l = l
  drop (suc n) [] = []
  drop (suc n) (x ∷ l) = drop n l

  pub drop-append : (xs ys : List A) → drop (length xs) (xs ++ ys) ≡ ys
  drop-append [] ys = refl
  drop-append (x ∷ xs) ys = drop-append xs ys

  pub take-append : (xs ys : List A) → take (length xs) (xs ++ ys) ≡ xs
  take-append [] [] = refl
  take-append [] (y ∷ ys) = refl
  take-append (x ∷ xs) ys = ap (◌∷◌ x) (take-append xs ys)

  pub take_of_length-le : (n : ℕ) (l : List A) → length l ≤ n → take n l ≡ l
  take_of_length-le n [] short = refl
  take_of_length-le zero (y ∷ l) short = absurd (omega arith)
  take_of_length-le (suc n) (y ∷ l) short = ap (◌∷◌ y) (take_of_length-le n l (omega arith))

  -- The list without its last entry.
  unfoldable pub drop_last : List A → List A
  drop_last [] = []
  drop_last (x ∷ []) = []
  drop_last (x ∷ y ∷ l) = x ∷ drop_last (y ∷ l)

  pub take-drop_last : (n : ℕ) (xs : List A) → length xs ≡ suc n → take n xs ≡ drop_last xs
  unfolding drop_last
  take-drop_last n [] h = absurd (omega arith)
  take-drop_last zero (x ∷ []) h = refl
  take-drop_last zero (x ∷ y ∷ xs) h = absurd (omega arith)
  take-drop_last (suc n) (x ∷ []) h = absurd (omega arith)
  take-drop_last (suc n) (x ∷ y ∷ xs) h = ap (◌∷◌ x) (take-drop_last n (y ∷ xs) (omega arith))

  -- A full list that takes one more at the front, cut back to its size.
  pub take-cons_full :
      (n : ℕ) (x : A) (xs : List A) → 0 < n → length xs ≡ n → take n (x ∷ xs) ≡ x ∷ drop_last xs
  take-cons_full zero x xs h e = absurd (omega arith)
  take-cons_full (suc n) x xs h e = ap (◌∷◌ x) (take-drop_last n xs e)
