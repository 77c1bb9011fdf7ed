-- ===== src/Delay/Others.antt =====
-- delay_queue.go: the commands and scripts for one task leave every other task as it is.
use go_cachex.Base.{ℕ, ◌≡◌, ◌≢◌, ◌∙◌, inl, inr, arith, Bool-cases, ltb}
use go_cachex.Cache.{Str}
use go_cachex.Delay.Server.{Server, IsServer}
use go_cachex.Delay.Scripts.{enqueue_script, ack_script, cancel_script}
use go_cachex.Delay.Moves.{Alive, Leased, same_other}

module _ (r : Server) where
  -- The member `k` has the same scores and contents in both states.
  abbrev pub SameAt : Str → r.State → r.State → Type 0
  SameAt k s s' =
      ((j : Str) → r.score j k s' ≡ r.score j k s) × ((j : Str) → r.field j k s' ≡ r.field j k s)

  pub SameAt-trans : (k : Str) (s t u : r.State) → SameAt k s t → SameAt k t u → SameAt k s u
  SameAt-trans k s t u (a, b) (a', b') = (λ j. a' j ∙ a j, λ j. b' j ∙ b j)

  pub SameAt-Alive :
      (zkey pkey hkey k d : Str) (s t : r.State)
      → SameAt k s t
      → Alive r zkey pkey hkey k d s
      → Alive r zkey pkey hkey k d t
  SameAt-Alive zkey pkey hkey k d s t (a, b) (held, inl (n, at)) =
      (b hkey ∙ held, inl (n, a zkey ∙ at))
  SameAt-Alive zkey pkey hkey k d s t (a, b) (held, inr (n, at)) =
      (b hkey ∙ held, inr (n, a pkey ∙ at))

  pub SameAt-Leased :
      (zkey pkey k : Str) (until : ℕ) (s t : r.State)
      → SameAt k s t
      → Leased r zkey pkey k until s
      → Leased r zkey pkey k until t
  SameAt-Leased zkey pkey k until s t (a, b) (runs, gone) = (a pkey ∙ runs, a zkey ∙ gone)

  module _ (laws : IsServer r) (k m : Str) (other : k ≢ m) where
    zadd-SameAt : (j : Str) (n : ℕ) (s : r.State) → SameAt k s (r.zadd j n m s)
    zadd-SameAt j n s = (
      λ i. ground (arith, laws.score-zadd i j n k m s, same_other k m other),
      λ i. laws.field-zadd i j n k m s,
    )

    zrem-SameAt : (j : Str) (s : r.State) → SameAt k s (r.zrem j m s).0
    zrem-SameAt j s = (
      λ i. ground (arith, laws.score-zrem i j k m s, same_other k m other),
      λ i. laws.field-zrem i j k m s,
    )

    hset-SameAt : (j d : Str) (s : r.State) → SameAt k s (r.hset j m d s)
    hset-SameAt j d s = (
      λ i. laws.score-hset i j k m d s,
      λ i. ground (arith, laws.field-hset i j k m d s, same_other k m other),
    )

    hdel-SameAt : (j : Str) (s : r.State) → SameAt k s (r.hdel j m s)
    hdel-SameAt j s = (
      λ i. laws.score-hdel i j k m s,
      λ i. ground (arith, laws.field-hdel i j k m s, same_other k m other),
    )

    pub enqueue_script-SameAt :
        (zkey hkey d : Str) (n : ℕ) (s : r.State) → SameAt k s (enqueue_script r zkey hkey n m d s)
    unfolding enqueue_script
    enqueue_script-SameAt zkey hkey d n s =
        SameAt-trans k s (r.zadd zkey n m s) _ (zadd-SameAt zkey n s)
          (hset-SameAt hkey d (r.zadd zkey n m s))

    pub ack_script-SameAt :
        (pkey hkey : Str) (s : r.State) → SameAt k s (ack_script r pkey hkey m s).0
    unfolding ack_script
    ack_script-SameAt pkey hkey s =
        let s' = (r.zrem pkey m s).0 in
        elim (Bool-cases (ltb 0 (r.zrem pkey m s).1)) [
          | inl some_ ↦ rw some_ (SameAt-trans k s s' _ (zrem-SameAt pkey s) (hdel-SameAt hkey s'))
          | inr none_ ↦ rw none_ (zrem-SameAt pkey s)
        ]

    pub cancel_script-SameAt :
        (zkey pkey hkey : Str) (s : r.State) → SameAt k s (cancel_script r zkey pkey hkey m s).0
    unfolding cancel_script
    cancel_script-SameAt zkey pkey hkey s =
        let s' = (r.zrem zkey m s).0 in
        let s'' = (r.zrem pkey m s').0 in
        SameAt-trans k s s'' _ (SameAt-trans k s s' s'' (zrem-SameAt zkey s) (zrem-SameAt pkey s'))
          (hdel-SameAt hkey s'')
