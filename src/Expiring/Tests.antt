-- ===== src/Expiring/Tests.antt =====
-- expiring.go at concrete inputs.
use go_cachex.Base.{
  ℕ, ◌≤◌, ◌≡◌, refl, false, none, some, [], ◌∷◌, pos, map, ℕ_discrete, arith, if◌then◌else◌,
}
use go_cachex.Cache.{
  ok, err, not_found, Str, dec_str, is_expired, validate_basic_op, validate_write_with_ttl_op,
}
use go_cachex.Table.{lookup, delete, assign}
use go_cachex.Expiring.Defs.{
  Item, Expiring, Round, new_expiring, set_with_ttl, get, item_expiry, sweep_incremental,
  sweep_max_rounds, get_or_compute, compute_read,
}
use go_cachex.Expiring.Sweep.{visible, sweep_incremental-visible}
use go_cachex.Expiring.Reads.{HasValues, set_with_ttl-HasValues, kept_ttl, get_or_compute-stores}

-- What a test has to compute with.
program : Unit {0}
unfolding lookup delete assign set_with_ttl get compute_read validate_basic_op
    validate_write_with_ttl_op dec_str ℕ_discrete new_expiring visible
program = tt

abbrev key_1 : Str
key_1 = 1 ∷ []

abbrev key_2 : Str
key_2 = 2 ∷ []

abbrev one : Expiring
one = (set_with_ttl 5_000_000_000 (some key_1) (some (10 ∷ [])) (pos 100) new_expiring).0

abbrev quiet : Expiring → Expiring
quiet h = h

one_open : one.is_closed ≡ false
unfolding program
one_open = refl

one-HasValues : HasValues one
unfolding new_expiring lookup
one-HasValues =
    set_with_ttl-HasValues 5_000_000_000 (some key_1) (some (10 ∷ [])) (pos 100) new_expiring
      (λ k it e. cc)

get_or_compute-stores_example :
    let r =
      get_or_compute 5_000_000_060 5_000_000_070
        (some key_2)
        (pos 9)
        none
        (ok (some (20 ∷ [])))
        quiet
        one in
    (r.1 ≡ ok (some (20 ∷ [])))
    × ((get 5_000_000_071 5_000_000_072 quiet (some key_2) r.0).1 ≡ (
        if is_expired (item_expiry 5_000_000_070 (kept_ttl (pos 9))) 5_000_000_071
        then err not_found
        else ok (some (20 ∷ []))))
unfolding program
get_or_compute-stores_example =
    get_or_compute-stores 5_000_000_060 5_000_000_070 5_000_000_071 5_000_000_072 2 [] (20 ∷ [])
      (pos 9) quiet quiet one one_open one_open refl

abbrev item_1 : Item
item_1 = record { val = some (10 ∷ []); expiry = 5_000_000_100 }

abbrev rounds : ℕ → Round
rounds n = record {
  start = 5_000_000_200;
  check = 5_000_000_300;
  order = map (λ e. e.0);
  others = λ m. m;
}

sweep_incremental-visible_example :
    (visible 5_000_000_400 key_1 (sweep_incremental 5_000_000_200 rounds one.items).0
      ≡ visible 5_000_000_400 key_1 one.items)
    × ((sweep_incremental 5_000_000_200 rounds one.items).1 ≤ sweep_max_rounds)
sweep_incremental-visible_example =
    sweep_incremental-visible 5_000_000_200 5_000_000_400 rounds key_1 one.items (λ n. omega arith)
      (λ n g. refl)
