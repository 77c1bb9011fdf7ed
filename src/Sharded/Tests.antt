-- ===== src/Sharded/Tests.antt =====
-- sharded.go over two `LRUHandler`s.
use go_cachex.Base.{ℕ, zero, suc, ◌≡◌, refl, some, [], ◌∷◌, pos, arith, some_eq}
use mathlib.Core.Path.{subst}
use go_cachex.Cache.{ok, Str}
use go_cachex.Lru.{Lru, new_lru}
use go_cachex.Lru.Refines.{new_lru-IsValid}
use go_cachex.Handler.LruHandler.{lru_handler, lru_reliable, IsOpen}
use go_cachex.Sharded.Defs.{Sharded, nth, get, set_forever}
use go_cachex.Sharded.Routing.{IsReady, set_forever-IsReady}

abbrev key_1 : Str
key_1 = 1 ∷ []

abbrev empty : Lru
empty = new_lru (pos 3)

abbrev pair : Sharded lru_handler
pair = record { shards = empty ∷ empty ∷ []; n = 2 }

empty-IsOpen : IsOpen empty
unfolding new_lru
empty-IsOpen = (new_lru-IsValid (pos 3), refl)

pair_each : (i : ℕ) (s : Lru) → nth pair.shards i ≡ some s → IsOpen s
pair_each zero s e = subst IsOpen (some_eq e) empty-IsOpen
pair_each (suc zero) s e = subst IsOpen (some_eq e) empty-IsOpen
pair_each (suc (suc i)) s e = cc

set_forever-IsReady_example :
    let x = set_forever lru_handler 8 (some key_1) (some (10 ∷ [])) pair in
    IsReady lru_handler lru_reliable x.0
    × (x.1 ≡ ok tt)
    × ((get lru_handler 9 (some key_1) x.0).1 ≡ ok (some (10 ∷ [])))
set_forever-IsReady_example =
    set_forever-IsReady lru_handler lru_reliable 8 9 key_1 (10 ∷ []) pair
      (record { counted = refl; positive = omega arith; small = omega arith; each = pair_each })
      (omega arith)
