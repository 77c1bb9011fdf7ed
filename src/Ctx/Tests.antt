-- ===== src/Ctx/Tests.antt =====
-- ctxcache.go over an `LRUHandler`.
use go_cachex.Base.{◌≡◌, refl, some, [], ◌∷◌, pos}
use go_cachex.Cache.{err, not_found, Str, validate_basic_op}
use go_cachex.Table.{lookup}
use go_cachex.Lru.{Lru, new_lru}
use go_cachex.Lru
use go_cachex.Lru.Refines.{new_lru-IsValid}
use go_cachex.Handler.LruHandler.{IsOpen}

abbrev key_1 : Str
key_1 = 1 ∷ []

abbrev empty : Lru
empty = new_lru (pos 3)

empty-IsOpen : IsOpen empty
unfolding new_lru
empty-IsOpen = (new_lru-IsValid (pos 3), refl)

empty_misses : Lru.get 9 (some key_1) empty ≡ (empty, err not_found)
unfolding new_lru Lru.get lookup validate_basic_op
empty_misses = refl

still-IsOpen : IsOpen (Lru.get 9 (some key_1) empty).0
still-IsOpen = rw empty_misses empty-IsOpen
