-- ===== src/Expiring/Sweep.antt =====
-- The incremental sweep of expiring.go: nobody can see it, and it is bounded.
use go_cachex.Base.{
  ℕ, zero, suc, ◌+◌, ◌≤◌, ◌≡◌, refl, ap, ◌∙◌, Option, none, some, List, [], ◌∷◌, if◌then◌else◌,
  length, arith, ◌⊎◌, inl, inr,
}
use go_cachex.Cache.{Str, is_expired}
use go_cachex.Table.{lookup, lookup-delete}
use go_cachex.Expiring.Defs.{
  Item, Round, sweep_key, sweep_sample, sweep_rounds, sweep_incremental, sweep_sample_size,
  sweep_max_rounds, sweep_budget,
}

-- What a reader at the time `now` can see under a key: an entry that has not expired.
abbrev pub alive : ℕ → Option Item → Option Item
alive now none = none
alive now (some it) = if is_expired it.expiry now then none else some it

unfoldable pub visible : ℕ → Str → List (Str × Item) → Option Item
visible now k m = alive now (lookup k m)

sweep_key-visible :
    (now t : ℕ) (k j : Str) (m : List (Str × Item))
    → now ≤ t
    → visible t j (sweep_key now k m).0 ≡ visible t j m
unfolding visible sweep_key
sweep_key-visible now t k j m h = ground (arith, lookup-delete j k m)

-- A sample deletes no entry that a reader at the time of the sample, or later, could see: whatever
-- the limit and the order of iteration, every key reads as before.
pub sweep_sample-visible :
    (limit now t : ℕ) (order : List Str) (j : Str) (m : List (Str × Item))
    → now ≤ t
    → visible t j (sweep_sample limit now order m).0 ≡ visible t j m
unfolding sweep_sample
sweep_sample-visible zero now t order j m h = refl
sweep_sample-visible (suc limit) now t [] j m h = refl
sweep_sample-visible (suc limit) now t (k ∷ order) j m h =
    sweep_sample-visible limit now t order j (sweep_key now k m).0 h
    ∙ sweep_key-visible now t k j m h

-- A sample scans at most `limit` keys, and no more than there are, and deletes at most those.
pub sweep_sample_bounds :
    (limit now : ℕ) (order : List Str) (m : List (Str × Item))
    → let r = sweep_sample limit now order m in (r.1 ≤ limit) × (r.1 ≤ length order) × (r.2 ≤ r.1)
unfolding sweep_sample sweep_key
sweep_sample_bounds zero now order m = omega arith
sweep_sample_bounds (suc limit) now [] m = omega arith
sweep_sample_bounds (suc limit) now (k ∷ order) m =
    ground (arith, sweep_sample_bounds limit now order (sweep_key now k m).0)

sweep_rounds-visible :
    (left deadline i t : ℕ) (env : ℕ → Round) (j : Str) (m : List (Str × Item))
    → ((n : ℕ) → (env n).start ≤ t)
    → ((n : ℕ) (g : List (Str × Item)) → visible t j ((env n).others g) ≡ visible t j g)
    → visible t j (sweep_rounds left deadline i env m).0 ≡ visible t j m
unfolding sweep_rounds
sweep_rounds-visible zero deadline i t env j m before quiet = refl
sweep_rounds-visible (suc left) deadline i t env j m before quiet =
    let once =
      sweep_sample-visible sweep_sample_size (env i).start t ((env i).order m) j m (before i) in
    let swept = sweep_sample sweep_sample_size (env i).start ((env i).order m) m in
    let rest =
      sweep_rounds-visible left deadline (i + 1) t env j ((env i).others swept.0) before quiet in
    ground (arith, once, rest, quiet i swept.0)

sweep_rounds_bound :
    (left deadline i : ℕ) (env : ℕ → Round) (m : List (Str × Item))
    → (sweep_rounds left deadline i env m).1 ≤ i + left
unfolding sweep_rounds
sweep_rounds_bound zero deadline i env m = omega arith
sweep_rounds_bound (suc left) deadline i env m =
    let swept = sweep_sample sweep_sample_size (env i).start ((env i).order m) m in
    ground (arith, sweep_rounds_bound left deadline (i + 1) env ((env i).others swept.0))

-- One tick makes at most 16 rounds. At a time that no round's clock has passed, and if the other
-- goroutines that run between the rounds leave what a key reads at this time as it is, the whole
-- sweep leaves it as it is.
pub sweep_incremental-visible :
    (now t : ℕ) (env : ℕ → Round) (j : Str) (m : List (Str × Item))
    → ((n : ℕ) → (env n).start ≤ t)
    → ((n : ℕ) (g : List (Str × Item)) → visible t j ((env n).others g) ≡ visible t j g)
    → (visible t j (sweep_incremental now env m).0 ≡ visible t j m)
      × ((sweep_incremental now env m).1 ≤ sweep_max_rounds)
unfolding sweep_incremental
sweep_incremental-visible now t env j m before quiet = (
  sweep_rounds-visible sweep_max_rounds (now + sweep_budget) 0 t env j m before quiet,
  omega (arith, sweep_rounds_bound sweep_max_rounds (now + sweep_budget) 0 env m),
)

abbrev pub In : Str → List Str → Type 0
In k [] = ⊥
In k (j ∷ order) = (k ≡ j) ⊎ In k order

sweep_sample-none :
    (limit now : ℕ) (order : List Str) (k : Str) (m : List (Str × Item))
    → lookup k m ≡ none
    → lookup k (sweep_sample limit now order m).0 ≡ none
unfolding sweep_sample sweep_key
sweep_sample-none zero now order k m h = h
sweep_sample-none (suc limit) now [] k m h = h
sweep_sample-none (suc limit) now (j ∷ order) k m h =
    sweep_sample-none limit now order k (sweep_key now j m).0 (ground (arith, lookup-delete k j m))

swept_none :
    (now : ℕ) (j k : Str) (m : List (Str × Item))
    → k ≡ j
    → visible now k m ≡ none
    → lookup k (sweep_key now j m).0 ≡ none
unfolding visible sweep_key
swept_none now j k m here dead =
    rw here (ground (arith, lookup-delete j j m, ap (λ x. lookup x m) here))

-- A sample whose limit covers the iteration deletes every expired entry that the iteration visits.
pub sweep_sample-collects :
    (limit now : ℕ) (order : List Str) (k : Str) (m : List (Str × Item))
    → length order ≤ limit
    → In k order
    → visible now k m ≡ none
    → lookup k (sweep_sample limit now order m).0 ≡ none
unfolding sweep_sample visible
sweep_sample-collects limit now [] k m fits at dead = elim at [ ]
sweep_sample-collects zero now (j ∷ order) k m fits at dead = absurd (omega arith)
sweep_sample-collects (suc limit) now (j ∷ order) k m fits (inl here) dead =
    sweep_sample-none limit now order k (sweep_key now j m).0 (swept_none now j k m here dead)
sweep_sample-collects (suc limit) now (j ∷ order) k m fits (inr there) dead =
    sweep_sample-collects limit now order k (sweep_key now j m).0 (omega arith) there
      (sweep_key-visible now now j k m (omega arith) ∙ dead)
