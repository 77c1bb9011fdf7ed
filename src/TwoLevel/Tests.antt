-- ===== src/TwoLevel/Tests.antt =====
-- twolevel.go over two `LRUHandler`s.
use go_cachex.Base.{◌≡◌, refl, Bool, true, false, none, some, List, [], ◌∷◌, pos, arith}
use go_cachex.Cache.{Result, ok, err, not_found, closed, Str, Slice, validate_basic_op}
use go_cachex.Table.{lookup}
use go_cachex.Lru.{Lru, new_lru}
use go_cachex.Lru
use go_cachex.Lru.Refines.{new_lru-IsValid}
use go_cachex.Handler.LruHandler.{lru_handler, lru_reliable, IsOpen}
use go_cachex.TwoLevel.Defs.{write_l2, TwoLevel, run_job, set_forever, get}
use go_cachex.TwoLevel.Reads.{set_forever_reordered}

abbrev key_1 : Str
key_1 = 1 ∷ []

abbrev empty : Lru
empty = new_lru (pos 3)

abbrev levels : Bool → TwoLevel lru_handler lru_handler
levels through = record { l1 = empty; l2 = empty; write_through = through; pending = [] }

empty-IsOpen : IsOpen empty
unfolding new_lru
empty-IsOpen = (new_lru-IsValid (pos 3), refl)

empty_misses : (Lru.get 9 (some key_1) empty).1 ≡ err not_found
unfolding new_lru Lru.get lookup validate_basic_op
empty_misses = refl

set_forever_reordered_example :
    let twice =
      (set_forever lru_handler lru_handler 8
        (some key_1)
        (some (20 ∷ []))
        (set_forever lru_handler lru_handler 8 (some key_1) (some (10 ∷ [])) (levels false)).0).0 in
    let late =
      run_job lru_handler lru_handler 8
        (write_l2 (some key_1) (some (10 ∷ [])))
        (run_job lru_handler lru_handler 8 (write_l2 (some key_1) (some (20 ∷ []))) twice) in
    (twice.pending
      ≡ write_l2 (some key_1) (some (20 ∷ [])) ∷ write_l2 (some key_1) (some (10 ∷ [])) ∷ [])
    × ((get lru_handler lru_handler 9 (some key_1) (record late { l1 = empty })).1
        ≡ ok (some (10 ∷ [])))
set_forever_reordered_example =
    set_forever_reordered lru_handler lru_handler lru_reliable lru_reliable 8 9 key_1 (10 ∷ [])
      (20 ∷ []) (levels false) empty not_found refl empty-IsOpen empty-IsOpen (omega arith)
      (omega arith) (omega arith) (omega arith) empty_misses

abbrev shut : TwoLevel lru_handler lru_handler
shut = record (levels true) { l1 = Lru.close empty }

shut_refuses : (Lru.set_forever 8 (some key_1) (some (10 ∷ [])) (Lru.close empty)).1 ≡ err closed
unfolding new_lru Lru.set_forever Lru.close
shut_refuses = refl

abbrev second_level : Slice → Result Slice
second_level key = err not_found

abbrev firsts : List (Result Slice)
firsts = ok (some (10 ∷ [])) ∷ err not_found ∷ []

abbrev asked : List Slice
asked = some key_1 ∷ none ∷ []
