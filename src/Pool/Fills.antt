-- ===== src/Pool/Fills.antt =====
-- object_pool.go: how full a pool gets.
use go_cachex.Base.{
  ℕ, zero, suc, ◌+◌, ◌-◌, ◌≤◌, ◌<◌, ◌≡◌, refl, true, false, Option, some, List, [], ◌∷◌, ◌++◌,
  length, length-append, arith, inl, inr, ◌⊎◌, leb, ap, ◌∙◌, dec_lt, pos, if◌then◌else◌,
}
use go_cachex.Lru.{if_le_zero}
use go_cachex.Pool.Defs.{
  ObjectPoolConfig, ObjectPoolManager, Settings, derive_config, new_pool, try_get, send, keep_made,
  fill, refill_task, start, smaller,
}

small_threshold :
    (c : Settings) (config : ObjectPoolConfig)
    → derive_config c ≡ some config
    → c.min_threshold ≡ pos 0
    → config.capacity ≤ 2
    → config.min_threshold ≡ 0
unfolding derive_config if_le_zero
small_threshold c config derived unset small = ground arith

module _ (T : Type 0) where
  -- The pool holds at most its capacity, and every object that was made is in it or has been handed out.
  pub record IsExact (m : ObjectPoolManager T) : Type 0 where
    pub bounded : length m.pool ≤ m.config.capacity
    pub counted : m.served + length m.pool ≡ m.generated

  -- The pool after so many calls of `TryGet`.
  unfoldable pub takes : ℕ → ObjectPoolManager T → ObjectPoolManager T
  takes zero m = m
  takes (suc n) m = takes n (try_get T m).0

  -- What a call of `TryGet` leaves as it is.
  Same : ObjectPoolManager T → ObjectPoolManager T → Type 0
  Same m m' =
      (m'.config ≡ m.config)
      × (m'.stopped ≡ m.stopped)
      × (m'.generated ≡ m.generated)
      × (length m'.pool ≤ length m.pool)

  try_get-IsExact :
      (m : ObjectPoolManager T) → IsExact m → IsExact (try_get T m).0 × Same m (try_get T m).0
  unfolding try_get Same
  try_get-IsExact m h = elim (List-cases m.pool) [
    | inl empty ↦ (
      record { bounded = ground (arith, h.bounded); counted = ground (arith, h.counted) },
      (ground arith, ground arith, ground arith, ground arith),
    )
    | inr (v, rest, full) ↦
        let longer = ap length full in
        (
          record {
            bounded = ground (arith, h.bounded, longer);
            counted = ground (arith, h.counted, longer);
          },
          (ground arith, ground arith, ground arith, ground (arith, longer)),
        )
  ]
    where
      List-cases : (l : List T) → (l ≡ []) ⊎ ((v : T) × (rest : List T) × (l ≡ v ∷ rest))
      List-cases [] = inl refl
      List-cases (v ∷ rest) = inr (v, rest, refl)

  takes-IsExact :
      (n : ℕ) (m : ObjectPoolManager T) → IsExact m → IsExact (takes n m) × Same m (takes n m)
  unfolding takes Same
  takes-IsExact zero m h = (h, (refl, refl, refl, omega arith))
  takes-IsExact (suc n) m h =
      let (h', (config, stopped, generated, fewer)) = try_get-IsExact m h in
      let (h'', (config', stopped', generated', fewer')) = takes-IsExact n (try_get T m).0 h' in
      (h'', (config' ∙ config, stopped' ∙ stopped, generated' ∙ generated, omega arith))

  -- After consumers have taken, the object that was made has room.
  keep_made-IsExact :
      (k : ℕ) (v : T) (m : ObjectPoolManager T)
      → IsExact m
      → length m.pool < m.config.capacity
      → let x = keep_made T (takes k) v m in
        IsExact x.0
        × (x.1 ≡ true)
        × (x.0.config ≡ m.config)
        × (x.0.stopped ≡ m.stopped)
        × (x.0.generated ≡ m.generated + 1)
  unfolding keep_made send Same
  keep_made-IsExact k v m h room =
      let g = takes k m in
      let (h', (config, stopped, generated, fewer)) = takes-IsExact k m h in
      let longer = length-append g.pool (v ∷ []) in
      let cap = ap (λ (c : ObjectPoolConfig). c.capacity) config in
      (
        record {
          bounded = ground (arith, longer, cap);
          counted = ground (arith, longer, cap, h'.counted);
        },
        ground (arith, cap),
        ground (arith, cap, config),
        ground (arith, cap, stopped),
        ground (arith, cap, generated),
      )

  module _ (factory : ℕ → Option T) (others : ℕ → ObjectPoolManager T → ObjectPoolManager T) (n : ℕ)
      (m : ObjectPoolManager T) where
    fill_full : m.config.capacity ≤ length m.pool → fill T factory others (suc n) m ≡ m
    unfolding fill
    fill_full h = ground arith

    fill_sends :
        (v : T)
        → m.stopped ≡ false
        → length m.pool < m.config.capacity
        → factory n ≡ some v
        → (keep_made T (others n) v m).1 ≡ true
        → fill T factory others (suc n) m ≡ fill T factory others n (keep_made T (others n) v m).0
    unfolding fill
    fill_sends v goes room made sent = ground arith

  -- A fill of a running pool by a factory that does not fail, while consumers take any number of objects during
  -- each call of the factory: afterwards the pool is within its capacity, every object that was made is
  -- in the pool or has been handed out, and the fill has made an object in each round, unless it has
  -- ended early with a full pool.
  pub fill-IsExact :
      (factory : ℕ → Option T) (taken : ℕ → ℕ) (n : ℕ) (m : ObjectPoolManager T)
      → ((i : ℕ) → (v : T) × (factory i ≡ some v))
      → m.stopped ≡ false
      → IsExact m
      → let m' = fill T factory (λ i. takes (taken i)) n m in
        IsExact m'
        × ((m'.generated ≡ m.generated + n)
            ⊎ ((length m'.pool ≡ m.config.capacity) × (m'.generated ≤ m.generated + n)))
  fill-IsExact factory taken zero m works goes h = unfold fill in (h, inl (omega arith))
  fill-IsExact factory taken (suc n) m works goes h =
      let others = λ (i : ℕ). takes (taken i) in
      elim (dec_lt (length m.pool) m.config.capacity) [
        | no full ↦
            rw (fill_full factory others n m (omega arith))
              (h, inr (omega (arith, h.bounded), omega arith))
        | yes room ↦
            let (v, made) = works n in
            let (h', sent, config, stopped, generated) = keep_made-IsExact (taken n) v m h room in
            let m' = (keep_made T (takes (taken n)) v m).0 in
            let (exact, rounds) = fill-IsExact factory taken n m' works (stopped ∙ goes) h' in
            let cap = ap (λ (c : ObjectPoolConfig). c.capacity) config in
            rw (fill_sends factory others n m v goes room made sent) (
              exact,
              elim rounds [
                | inl all ↦ inl (omega (arith, all, generated))
                | inr (full, most) ↦ inr (full ∙ cap, omega (arith, most, generated))
              ],
            )
      ]

  abbrev pub alone : ℕ → ObjectPoolManager T → ObjectPoolManager T
  alone i m = m

  keep_made-alone :
      (n : ℕ) (v : T) (m : ObjectPoolManager T)
      → length m.pool < m.config.capacity
      → keep_made T (alone n) v m
        ≡ (record m { pool = m.pool ++ v ∷ []; generated = m.generated + 1 }, true)
  unfolding keep_made send
  keep_made-alone n v m room = ground arith

  -- With a factory that does not fail, and alone, a fill of a running pool makes as many objects as fit.
  fill-alone :
      (factory : ℕ → Option T) (n : ℕ) (m : ObjectPoolManager T)
      → ((i : ℕ) → (v : T) × (factory i ≡ some v))
      → m.stopped ≡ false
      → length m.pool ≤ m.config.capacity
      → let m' = fill T factory alone n m in
        (length m'.pool ≡ smaller m.config.capacity (length m.pool + n))
        × (m'.config ≡ m.config)
        × (m'.stopped ≡ false)
  fill-alone factory zero m works goes fits = unfold fill in (ground arith, refl, goes)
  fill-alone factory (suc n) m works goes fits =
      let (v, made) = works n in
      elim (dec_lt (length m.pool) m.config.capacity) [
        | no full ↦ rw (fill_full factory alone n m (omega arith)) (ground arith, refl, goes)
        | yes room ↦
            let kept = keep_made-alone n v m room in
            let next : ObjectPoolManager T = record m {
              pool = m.pool ++ v ∷ [];
              generated = m.generated + 1;
            } in
            let longer = length-append m.pool (v ∷ []) in
            let (filled, same, still) =
              fill-alone factory n next works goes (omega (arith, longer)) in
            let step : fill T factory alone (suc n) m ≡ fill T factory alone n next =
              fill_sends factory alone n m v goes room made (ap (λ x. x.1) kept)
              ∙ ap (λ x. fill T factory alone n x.0) kept in
            rw step (ground (arith, filled, longer), same, still)
      ]

  -- A new pool is full after its start and the fill in the background, if the factory does not fail and
  -- nobody takes objects meanwhile, whatever the number of objects of the cold start.
  pub start-fills :
      (factory factory' : ℕ → Option T) (config : ObjectPoolConfig)
      → ((i : ℕ) → (v : T) × (factory i ≡ some v))
      → ((i : ℕ) → (v : T) × (factory' i ≡ some v))
      → let (m, rest) = start T factory alone (new_pool T config) in
        length (fill T factory' alone rest m).pool ≡ config.capacity
  unfolding start
  start-fills factory factory' config works works' =
      let m : ObjectPoolManager T = record (new_pool T config) { started = true } in
      let (cold, same, goes) =
        fill-alone factory config.cold_start_count m works refl (omega arith) in
      let m' = fill T factory alone config.cold_start_count m in
      let capacity = ap (λ (x : ObjectPoolConfig). x.capacity) same in
      let (full, _, _) =
        fill-alone factory' (config.capacity - config.cold_start_count) m' works' goes
          (ground (arith, cold, capacity)) in
      ground (arith, full, cold, capacity)

  -- A round of the refill, alone and with a factory that does not fail, leaves a running pool as it is
  -- from the threshold on; below it, it adds a batch, or what fits.
  pub refill_task_lem :
      (factory : ℕ → Option T) (m : ObjectPoolManager T)
      → ((i : ℕ) → (v : T) × (factory i ≡ some v))
      → m.stopped ≡ false
      → length m.pool ≤ m.config.capacity
      → length (refill_task T factory alone m).pool ≡ (
          if leb m.config.min_threshold (length m.pool)
          then length m.pool
          else smaller m.config.capacity (length m.pool + m.config.batch_size))
  unfolding refill_task
  refill_task_lem factory m works goes fits =
      let n = smaller (m.config.capacity - length m.pool) m.config.batch_size in
      let (filled, _, _) = fill-alone factory n m works goes fits in ground (arith, filled)

  -- A pool of one or two objects whose threshold is not set is never refilled: the threshold comes to 0.
  pub refill_task-small :
      (c : Settings) (config : ObjectPoolConfig) (factory : ℕ → Option T)
      → (others : ℕ → ObjectPoolManager T → ObjectPoolManager T) (m : ObjectPoolManager T)
      → derive_config c ≡ some config
      → c.min_threshold ≡ pos 0
      → config.capacity ≤ 2
      → m.config ≡ config
      → refill_task T factory others m ≡ m
  unfolding refill_task
  refill_task-small c config factory others m derived unset small mine =
      let low = small_threshold c config derived unset small in
      ground (arith, ap (λ (x : ObjectPoolConfig). x.min_threshold) mine)
