-- ===== src/Lru/Tests.antt =====
-- lru.go at concrete inputs: a cache of two entries.
use go_cachex.Base.{
  zero, suc, ap, ℕ, ◌≡◌, ◌≢◌, refl, false, none, some, List, [], ◌∷◌, pos, negsuc, length,
  drop_last, ℕ_discrete, if◌then◌else◌,
}
use go_cachex.Cache.{ok, err, not_found, Str, dec_str, is_expired, validate_basic_op}
use go_cachex.Table.{lookup, delete, assign, deref, unlink, back, store, move_to_front, contents}
use go_cachex.Lru.Defs.{
  Lru, new_lru, get, set_with_ttl, del, copy_bytes, expiry_at, evict, push_new,
}
use go_cachex.Lru.Spec.{IsValid, Agrees, view}
use go_cachex.Lru.History.{Call, gets, sets, closes, run, spec_run, run-Agrees}
use go_cachex.Lru.Behaviour.{get-set_with_ttl, set_with_ttl-evicts_last, get-del}

-- What a test has to compute with.
program : Unit {0}
unfolding run lookup delete assign deref unlink back store move_to_front new_lru get set_with_ttl
    push_new evict expiry_at copy_bytes validate_basic_op dec_str ℕ_discrete
program = tt

abbrev key_1 : Str
key_1 = 1 ∷ []

abbrev key_2 : Str
key_2 = 2 ∷ []

abbrev calls : List Call
calls =
    sets 5_000_000_000 (some (1 ∷ [])) (some (10 ∷ [])) (negsuc 0)
    ∷ sets 5_000_000_000 (some (2 ∷ [])) (some (20 ∷ [])) (pos 1000)
    ∷ gets 5_000_000_500 (some (1 ∷ []))
    ∷ []

abbrev two : Lru
two = (run calls (new_lru (pos 2))).0

two-IsValid : IsValid two
two-IsValid = (run-Agrees (pos 2) calls).0

two_keys :
    (lookup (1 ∷ []) two.cache ≡ some 0) × (lookup (3 ∷ []) two.cache ≡ none) × (length two.ll ≡ 2)
unfolding program
two_keys = (refl, refl, refl)

-- The third key evicts the second, which the `Get` left behind.
evicts_second :
    lookup
      (2 ∷ [])
      (set_with_ttl 5_000_000_600 (some (3 ∷ [])) (some (30 ∷ [])) (negsuc 0) two).0.cache
    ≡ none
unfolding program
evicts_second = refl

two_open : two.is_closed ≡ false
unfolding program
two_open = refl

run-Agrees_example :
    Agrees
      (run (closes ∷ gets 1 none ∷ calls) (new_lru (negsuc 4)))
      (spec_run (closes ∷ gets 1 none ∷ calls) (view (new_lru (negsuc 4))))
run-Agrees_example = run-Agrees (negsuc 4) (closes ∷ gets 1 none ∷ calls)

get-set_with_ttl_example :
    let after_set = set_with_ttl 6_000_000_000 (some (3 ∷ [])) (some (30 ∷ [])) (pos 5) two in
    (after_set.1 ≡ ok tt)
    × ((get 6_000_000_009 (some (3 ∷ [])) after_set.0).1 ≡ (
        if is_expired (expiry_at 6_000_000_000 (pos 5)) 6_000_000_009
        then err not_found
        else ok (copy_bytes (some (30 ∷ [])))))
get-set_with_ttl_example =
    get-set_with_ttl 6_000_000_000 6_000_000_009 (3 ∷ []) (30 ∷ []) (pos 5) two two-IsValid two_open
      refl

set_with_ttl-evicts_last_example :
    contents (set_with_ttl 6_000_000_000 (some (3 ∷ [])) (some (30 ∷ [])) (pos 5) two).0.ll
    ≡ record {
      key = 3 ∷ [];
      value = copy_bytes (some (30 ∷ []));
      expiry = expiry_at 6_000_000_000 (pos 5);
    }
      ∷ drop_last (contents two.ll)
unfolding program
set_with_ttl-evicts_last_example =
    set_with_ttl-evicts_last 6_000_000_000 (3 ∷ []) (30 ∷ []) (pos 5) two two-IsValid two_open refl
      refl refl

get-del_example :
    let after_del = del (some (1 ∷ [])) two in
    (after_del.1 ≡ ok tt)
    × ((get 6_000_000_000 (some (1 ∷ [])) after_del.0).1 ≡ err not_found)
    × (key_1 ≢ key_2
        → (get 6_000_000_000 (some (2 ∷ [])) after_del.0).1
          ≡ (get 6_000_000_000 (some (2 ∷ [])) two).1)
get-del_example = get-del 6_000_000_000 (1 ∷ []) (2 ∷ []) two two-IsValid two_open

zeros : ℕ → Str
zeros zero = []
zeros (suc n) = 0 ∷ zeros n

length-zeros : (n : ℕ) → length (zeros n) ≡ n
unfolding zeros
length-zeros zero = refl
length-zeros (suc n) = ap suc (length-zeros n)
