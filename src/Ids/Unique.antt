-- ===== src/Ids/Unique.antt =====
-- id_generator.go: two calls of `GenerateID` for one time give two identifiers.
use go_cachex.Base.{
  ℕ, ◌+◌, ◌*◌, ◌≤◌, ◌≡◌, ◌≢◌, refl, sym, ap, ◌∙◌, Bool, true, false, some, some_eq, arith,
  if◌then◌else◌, not, ◌/◌,
}
use go_cachex.Cache.{Str, second}
use go_cachex.Redis.{Turn, Net, delivered, refused, cut, good, bad, outcome_of}
use go_cachex.Ids.Server.{Counters, IsCounters}
use go_cachex.Ids.Defs.{
  IdGenerator, no_client, init_key, next_script, generate_id, get_redis_key, format_id, start_of,
  mapped,
}
use go_cachex.Ids.Format.{format_id_inj}

module _ (r : Counters) (laws : IsCounters r) where
  -- The number that the script returns is the one that the key then counts.
  next_script-count :
      (now : ℕ) (k : Str) (expire start : ℕ) (s : r.State)
      → let x = next_script r now k expire start s in r.count now k x.0 ≡ some x.1
  unfolding next_script
  next_script-count now k expire start s =
      let s' = init_key r now k expire start s in
      let t = (r.incr_by now k 1 s').0 in
      ground (
        arith,
        laws.count-incr_by now k 1 s',
        laws.incr_by_lem now k 1 s',
        laws.count-expire now k (expire * second) t,
      )

  next_script_live :
      (now : ℕ) (k : Str) (expire start n : ℕ) (s : r.State)
      → r.count now k s ≡ some n
      → (next_script r now k expire start s).1 ≡ n + 1
  unfolding next_script
  next_script_live now k expire start n s live = ground (arith, laws.incr_by_lem now k 1 s)

  generated :
      (n : Net) (g : IdGenerator) (time_prefix id : Str) (s : r.State) (p : r.State × ℕ)
      → mapped r (format_id g time_prefix) (outcome_of n s p).1 ≡ good id
      → ((outcome_of n s p).0 ≡ p.0) × (id ≡ format_id g time_prefix p.1)
  generated delivered g time_prefix id s p h = (refl, cc)
  generated (refused e) g time_prefix id s p h = cc
  generated (cut e) g time_prefix id s p h = cc

  generated_if :
      (b : Bool) (n : Net) (g : IdGenerator) (time_prefix id : Str) (s : r.State)
      → (p : r.State × ℕ)
      → (if b then bad no_client else mapped r (format_id g time_prefix) (outcome_of n s p).1)
        ≡ good id
      → ((if b then s else (outcome_of n s p).0) ≡ p.0) × (id ≡ format_id g time_prefix p.1)
  generated_if true n g time_prefix id s p h = cc
  generated_if false n g time_prefix id s p h = generated n g time_prefix id s p h

  generate_id_good :
      (turn : Turn) (time_prefix id : Str) (g : IdGenerator) (s : r.State)
      → (generate_id r turn time_prefix g s).1 ≡ good id
      → let k = get_redis_key g time_prefix in
        let x = next_script r turn.at k (g.expire / second) (start_of g) s in
        ((generate_id r turn time_prefix g s).0 ≡ x.0) × (id ≡ format_id g time_prefix x.1)
  unfolding generate_id
  generate_id_good turn time_prefix id g s h =
      let k = get_redis_key g time_prefix in
      let x = next_script r turn.at k (g.expire / second) (start_of g) s in
      let (same, shown) =
        generated_if (not g.has_client) turn.net g time_prefix id s x (ground arith) in
      (ground arith, shown)

  -- Two calls of `GenerateID` for the same time that succeed give different identifiers, if since the
  -- first the key has lived on and has only been counted up, by whatever clients.
  pub generate_id_unique :
      (first next : Turn) (time_prefix id id' : Str) (g : IdGenerator) (s s' : r.State) (n n' : ℕ)
      → (generate_id r first time_prefix g s).1 ≡ good id
      → r.count first.at (get_redis_key g time_prefix) (generate_id r first time_prefix g s).0
        ≡ some n
      → r.count next.at (get_redis_key g time_prefix) s' ≡ some n'
      → n ≤ n'
      → (generate_id r next time_prefix g s').1 ≡ good id'
      → id ≢ id'
  generate_id_unique first next time_prefix id id' g s s' n n' got counted live up got' same =
      let k = get_redis_key g time_prefix in
      let (left, shown) = generate_id_good first time_prefix id g s got in
      let (_, shown') = generate_id_good next time_prefix id' g s' got' in
      let x = next_script r first.at k (g.expire / second) (start_of g) s in
      let x' = next_script r next.at k (g.expire / second) (start_of g) s' in
      let numbered = next_script-count first.at k (g.expire / second) (start_of g) s in
      let later = next_script_live next.at k (g.expire / second) (start_of g) n' s' live in
      let equal : x.1 ≡ x'.1 = format_id_inj g time_prefix x.1 x'.1 (sym shown ∙ same ∙ shown') in
      let old : some n ≡ some x.1 = sym counted ∙ ap (r.count first.at k) left ∙ numbered in
      absurd (omega (arith, some_eq old, equal, later))
