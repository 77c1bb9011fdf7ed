-- ===== src/Optimized/Tests.antt =====
-- lru_optimized.go at concrete inputs.
use go_cachex.Base.{◌+◌, ◌<◌, ◌≡◌, refl, none, some, List, [], ◌∷◌, pos, length, arith, ℕ_discrete}
use go_cachex.Cache.{Str, dec_str}
use go_cachex.Table.{lookup, delete, assign, deref, unlink, back, store, move_to_front}
use go_cachex.Optimized.Defs.{
  Shard, new_shard, set_shard_value, evict, evict_victim, shrink, read_shard,
}
use go_cachex.Optimized.Handler.{new_optimized, shard_index, get_elem?, fast_hash}
use go_cachex.Optimized.Evict.{IsSound, IsValid, evict-IsSound}
use go_cachex.Optimized.Shards.{
  Section, reads, purges, sets, deletes, clears, perform_all, perform_all-new_shard,
}
use go_cachex.Optimized.Layout.{shard_index-in_range}

-- What a test has to compute with.
program : Unit {0}
unfolding perform_all new_shard set_shard_value shrink evict evict_victim read_shard lookup delete
    assign deref unlink back store move_to_front dec_str ℕ_discrete
program = tt

abbrev key_1 : Str
key_1 = 1 ∷ []

abbrev key_2 : Str
key_2 = 2 ∷ []

abbrev sections : List Section
sections = sets key_1 (10 ∷ []) 0 ∷ reads 5 key_1 ∷ []

abbrev one : Shard
one = perform_all sections (new_shard 1)

one-IsValid : IsValid one
one-IsValid = perform_all-new_shard 1 sections (omega arith)

-- The hash of "a", as the package `hash/fnv` gives it.
hash_of_a : fast_hash (b'a' ∷ []) ≡ 0xe40c292c
unfolding fast_hash
hash_of_a = refl

-- A new key is pushed out of a shard whose only entry has been read.
new_key_rejected : lookup key_2 (set_shard_value key_2 (20 ∷ []) 0 one).cache ≡ none
unfolding program
new_key_rejected = refl

perform_all-new_shard_example : IsValid (
    perform_all
      (sets key_2 (20 ∷ []) 0 ∷ purges 9 key_1 ∷ deletes key_2 ∷ clears ∷ sections)
      (new_shard 2))
perform_all-new_shard_example =
    perform_all-new_shard 2
      (sets key_2 (20 ∷ []) 0 ∷ purges 9 key_1 ∷ deletes key_2 ∷ clears ∷ sections) (omega arith)

evict-IsSound_example :
    IsSound (evict one)
    × (length (evict one).ll + 1 ≡ length one.ll)
    × ((evict one).capacity ≡ one.capacity)
unfolding program
evict-IsSound_example = evict-IsSound one one-IsValid.sound (omega arith)

shard_index-in_range_example :
    let h = new_optimized 4 (pos 5000) in
    (shard_index h key_1 < h.shard_count)
    × ((s : Shard) × (get_elem? h.shards (shard_index h key_1) ≡ some s))
shard_index-in_range_example = shard_index-in_range 4 (pos 5000) key_1
