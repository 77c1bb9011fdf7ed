-- ===== src/Table/Dict.antt =====
-- The laws of Go maps.
use go_cachex.Base.{◌≡◌, List, [], ◌∷◌, ite, none, some, arith}
use go_cachex.Cache.{Str, dec_str}
use go_cachex.Table.Defs.{lookup, delete, assign}

module _ {ℓ} {V : Type ℓ} where
  pub lookup-delete :
      (j k : Str) (m : List (Str × V)) → lookup j (delete k m) ≡ ite (dec_str j k) none (lookup j m)
  unfolding lookup delete
  lookup-delete j k [] = ground arith
  lookup-delete j k ((i, v) ∷ m) = ground (arith, lookup-delete j k m)

  pub lookup-assign :
      (j k : Str) (v : V) (m : List (Str × V))
      → lookup j (assign k v m) ≡ ite (dec_str j k) (some v) (lookup j m)
  unfolding lookup assign
  lookup-assign j k v m = ground (arith, lookup-delete j k m)
