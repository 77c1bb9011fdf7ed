-- ===== src/Flight/Tests.antt =====
-- ctxcache.go with two goroutines on one key: the first leads, the second joins. In one run the loader
-- panics then, and a third goroutine joins.
use go_cachex.Base.{ℕ, ◌≡◌, refl, [], ◌∷◌, ℕ_discrete}
use go_cachex.Cache.{Str, dec_str}
use go_cachex.Table.{lookup, assign, delete}
use go_cachex.Flight.Defs.{
  idle, waiting, Group, new_flight_group, lead, move_to, leads, joins, Reach, start, later,
}
use go_cachex.Flight.Invariant.{Served, one_load, waits-Served}

-- What a test has to compute with.
program : Unit {0}
unfolding lead move_to new_flight_group lookup assign delete dec_str ℕ_discrete
program = tt

abbrev key_1 : Str
key_1 = 1 ∷ []

abbrev led : Group
led = lead 0 key_1 new_flight_group

abbrev joined : Group
joined = move_to 1 (waiting 0) led

joined-Reach : Reach joined
unfolding program
joined-Reach = later (later start (leads 0 key_1 refl refl)) (joins 1 key_1 0 refl refl)

one_load_example : ◌≡◌ {A = ℕ} 0 0
unfolding program
one_load_example = one_load joined-Reach 0 0 0 0 key_1 refl refl

waits-Served_example : Served joined 0
unfolding program joined-Reach
waits-Served_example = waits-Served joined-Reach ((tt, tt), tt) 1 0 refl

abbrev panicked : Group
panicked = move_to 0 idle joined

abbrev third : Group
third = move_to 2 (waiting 0) panicked
