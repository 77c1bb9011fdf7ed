-- ===== src/Delay/Moves.antt =====
-- delay_queue.go: what the loops of the scripts do to one task.
use go_cachex.Base.{
  ℕ, ◌<◌, ◌≡◌, ◌≢◌, sym, ap, ◌∙◌, true, false, ◌&&◌, none, some, List, [], ◌∷◌, ◌⊎◌, inl, inr,
  arith, some_eq, if◌then◌else◌,
}
use go_cachex.Cache.{Str, dec_str}
use go_cachex.Delay.Server.{Server, IsServer, AllDue, same}
use go_cachex.Delay.Scripts.{
  enqueue_script, take_each, requeue_each, poll_script, dequeue_script, requeue_script,
}
use go_cachex.Delay.Polls.{poll_script_lem}

pub same_self : (j : Str) → same j j ≡ true
same_self j = ground arith

pub same_other : (j k : Str) → j ≢ k → same j k ≡ false
same_other j k h = ground arith

module _ (r : Server) where
  -- The task has its contents and waits, or is being worked on.
  abbrev pub Alive : Str → Str → Str → Str → Str → r.State → Type 0
  Alive zkey pkey hkey k d s =
      (r.field hkey k s ≡ some d)
      × (((t : ℕ) × (r.score zkey k s ≡ some t)) ⊎ ((t : ℕ) × (r.score pkey k s ≡ some t)))

  -- The task is being worked on, and nobody else gets it before `until`.
  abbrev pub Leased : Str → Str → Str → ℕ → r.State → Type 0
  Leased zkey pkey k until s = (r.score pkey k s ≡ some until) × (r.score zkey k s ≡ none)

module _ (r : Server) (laws : IsServer r) where
  -- One round of a loop: the member `m` moves from one sorted set to another.
  abbrev pub moved : Str → Str → ℕ → Str → r.State → r.State
  moved from to n m s = r.zadd to n m (r.zrem from m s).0

  pub field-moved :
      (from to : Str) (n : ℕ) (m j k : Str) (s : r.State)
      → r.field j k (moved from to n m s) ≡ r.field j k s
  field-moved from to n m j k s =
      laws.field-zadd j to n k m (r.zrem from m s).0 ∙ laws.field-zrem j from k m s

  pub score-moved :
      (from to : Str) (n : ℕ) (m j k : Str) (s : r.State)
      → r.score j k (moved from to n m s) ≡ (
          if same j to && same k m
          then some n
          else if same j from && same k m
          then none
          else r.score j k s)
  score-moved from to n m j k s =
      ground (arith, laws.score-zadd j to n k m (r.zrem from m s).0, laws.score-zrem j from k m s)

  pub score-moved_other :
      (from to : Str) (n : ℕ) (m j k : Str) (s : r.State)
      → k ≢ m
      → r.score j k (moved from to n m s) ≡ r.score j k s
  score-moved_other from to n m j k s h =
      ground (arith, score-moved from to n m j k s, same_other k m h)

  pub score-moved_self :
      (from to : Str) (n : ℕ) (m : Str) (s : r.State) → r.score to m (moved from to n m s) ≡ some n
  score-moved_self from to n m s =
      ground (arith, score-moved from to n m to m s, same_self to, same_self m)

  pub score-moved_from :
      (from to : Str) (n : ℕ) (m : Str) (s : r.State)
      → from ≢ to
      → r.score from m (moved from to n m s) ≡ none
  score-moved_from from to n m s h =
      ground
        (arith, score-moved from to n m from m s, same_other from to h, same_self from, same_self m)

  module _ (zkey pkey hkey k d : Str) where
    out-Alive :
        (n : ℕ) (m : Str) (s : r.State)
        → Alive r zkey pkey hkey k d s
        → Alive r zkey pkey hkey k d (moved zkey pkey n m s)
    out-Alive n m s (held, where_) = (
      field-moved zkey pkey n m hkey k s ∙ held,
      elim (dec_str k m) [
        | yes e ↦ inr (n, rw e (score-moved_self zkey pkey n m s))
        | no e ↦ elim where_ [
          | inl (t, waits) ↦ inl (t, score-moved_other zkey pkey n m zkey k s e ∙ waits)
          | inr (t, runs) ↦ inr (t, score-moved_other zkey pkey n m pkey k s e ∙ runs)
        ]
      ],
    )

  pub swap-Alive :
      (zkey pkey hkey k d : Str) (s : r.State)
      → Alive r zkey pkey hkey k d s
      → Alive r pkey zkey hkey k d s
  swap-Alive zkey pkey hkey k d s (held, inl waits) = (held, inr waits)
  swap-Alive zkey pkey hkey k d s (held, inr runs) = (held, inl runs)

  pub take_each-Alive :
      (zkey pkey hkey k d : Str) (visible : ℕ) (ms : List Str) (s : r.State)
      → Alive r zkey pkey hkey k d s
      → Alive r zkey pkey hkey k d (take_each r zkey pkey hkey visible ms s).0
  unfolding take_each
  take_each-Alive zkey pkey hkey k d visible [] s h = h
  take_each-Alive zkey pkey hkey k d visible (m ∷ ms) s h =
      take_each-Alive zkey pkey hkey k d visible ms (moved zkey pkey visible m s)
        (out-Alive zkey pkey hkey k d visible m s h)

  pub requeue_each-Alive :
      (zkey pkey hkey k d : Str) (now : ℕ) (ms : List Str) (s : r.State)
      → Alive r zkey pkey hkey k d s
      → Alive r zkey pkey hkey k d (requeue_each r pkey zkey now ms s)
  unfolding requeue_each
  requeue_each-Alive zkey pkey hkey k d now [] s h = h
  requeue_each-Alive zkey pkey hkey k d now (m ∷ ms) s h =
      requeue_each-Alive zkey pkey hkey k d now ms (moved pkey zkey now m s) (
        swap-Alive pkey zkey hkey k d _
          (out-Alive pkey zkey hkey k d now m s (swap-Alive zkey pkey hkey k d s h)))

  pub poll_script-Alive :
      (zkey pkey hkey k d : Str) (now batch visible : ℕ) (s : r.State)
      → Alive r zkey pkey hkey k d s
      → Alive r zkey pkey hkey k d (poll_script r zkey pkey hkey now batch visible s).0
  poll_script-Alive zkey pkey hkey k d now batch visible s h =
      let s' = requeue_each r pkey zkey now (r.due pkey now batch s) s in
      rw (poll_script_lem r zkey pkey hkey now batch visible s) (
        take_each-Alive zkey pkey hkey k d visible (r.due zkey now batch s') s'
          (requeue_each-Alive zkey pkey hkey k d now (r.due pkey now batch s) s h))

  pub dequeue_script-Alive :
      (zkey pkey hkey k d : Str) (now batch visible : ℕ) (s : r.State)
      → Alive r zkey pkey hkey k d s
      → Alive r zkey pkey hkey k d (dequeue_script r zkey pkey hkey now batch visible s).0
  unfolding dequeue_script
  dequeue_script-Alive zkey pkey hkey k d now batch visible s h =
      take_each-Alive zkey pkey hkey k d visible (r.due zkey now batch s) s h

  pub requeue_script-Alive :
      (zkey pkey hkey k d : Str) (now batch : ℕ) (s : r.State)
      → Alive r zkey pkey hkey k d s
      → Alive r zkey pkey hkey k d (requeue_script r pkey zkey now batch s).0
  unfolding requeue_script
  requeue_script-Alive zkey pkey hkey k d now batch s h =
      requeue_each-Alive zkey pkey hkey k d now (r.due pkey now batch s) s h

  pub enqueue_script-Alive :
      (zkey pkey hkey k d : Str) (n : ℕ) (s : r.State)
      → Alive r zkey pkey hkey k d (enqueue_script r zkey hkey n k d s)
  unfolding enqueue_script
  enqueue_script-Alive zkey pkey hkey k d n s =
      let s' = r.zadd zkey n k s in
      (
        ground (arith, laws.field-hset hkey hkey k k d s', same_self hkey, same_self k),
        inl (
          n,
          ground (
            arith,
            laws.score-hset zkey hkey k k d s',
            laws.score-zadd zkey zkey n k k s,
            same_self zkey,
            same_self k,
          ),
        ),
      )

  -- A leased task is none of those that are due.
  pub Leased-IsOther :
      (zkey pkey k m : Str) (until t : ℕ) (s : r.State)
      → Leased r zkey pkey k until s
      → r.score zkey m s ≡ some t
      → k ≢ m
  Leased-IsOther zkey pkey k m until t s (_, gone) at e = cc

  pub Leased-IsOther_later :
      (zkey pkey k m : Str) (until t : ℕ) (s : r.State)
      → Leased r zkey pkey k until s
      → r.score pkey m s ≡ some t
      → t < until
      → k ≢ m
  Leased-IsOther_later zkey pkey k m until t s (runs, _) at early e =
      let same_time : until ≡ t = some_eq (sym runs ∙ ap (λ x. r.score pkey x s) e ∙ at) in
      absurd (omega arith)

  -- The members are all other ones than `k`.
  abbrev pub AllOther : Str → List Str → Type 0
  AllOther k [] = Unit
  AllOther k (m ∷ ms) = (k ≢ m) × AllOther k ms

  pub ready-AllOther :
      (zkey pkey k : Str) (until now : ℕ) (ms : List Str) (s : r.State)
      → Leased r zkey pkey k until s
      → AllDue r zkey now ms s
      → AllOther k ms
  ready-AllOther zkey pkey k until now [] s h due = tt
  ready-AllOther zkey pkey k until now (m ∷ ms) s h ((t, at, _), due) =
      (Leased-IsOther zkey pkey k m until t s h at, ready-AllOther zkey pkey k until now ms s h due)

  pub stale-AllOther :
      (zkey pkey k : Str) (until now : ℕ) (ms : List Str) (s : r.State)
      → Leased r zkey pkey k until s
      → now < until
      → AllDue r pkey now ms s
      → AllOther k ms
  stale-AllOther zkey pkey k until now [] s h early due = tt
  stale-AllOther zkey pkey k until now (m ∷ ms) s h early ((t, at, old), due) = (
    Leased-IsOther_later zkey pkey k m until t s h at (omega arith),
    stale-AllOther zkey pkey k until now ms s h early due,
  )

  moved-Leased :
      (from to zkey pkey : Str) (n : ℕ) (m k : Str) (until : ℕ) (s : r.State)
      → k ≢ m
      → Leased r zkey pkey k until s
      → Leased r zkey pkey k until (moved from to n m s)
  moved-Leased from to zkey pkey n m k until s other (runs, gone) = (
    score-moved_other from to n m pkey k s other ∙ runs,
    score-moved_other from to n m zkey k s other ∙ gone,
  )

  pub requeue_each-Leased :
      (zkey pkey k : Str) (until now : ℕ) (ms : List Str) (s : r.State)
      → Leased r zkey pkey k until s
      → AllOther k ms
      → Leased r zkey pkey k until (requeue_each r pkey zkey now ms s)
  unfolding requeue_each
  requeue_each-Leased zkey pkey k until now [] s h others = h
  requeue_each-Leased zkey pkey k until now (m ∷ ms) s h (other, others) =
      requeue_each-Leased zkey pkey k until now ms (moved pkey zkey now m s)
        (moved-Leased pkey zkey zkey pkey now m k until s other h) others

  -- Members that move to the processing set until `visible` are leased until then, and the others that
  -- are leased stay so.
  pub take_each-Leased :
      (zkey pkey hkey k : Str) (until visible : ℕ) (ms : List Str) (s : r.State)
      → Leased r zkey pkey k until s
      → AllOther k ms
      → Leased r zkey pkey k until (take_each r zkey pkey hkey visible ms s).0
  unfolding take_each
  take_each-Leased zkey pkey hkey k until visible [] s h others = h
  take_each-Leased zkey pkey hkey k until visible (m ∷ ms) s h (other, others) =
      take_each-Leased zkey pkey hkey k until visible ms (moved zkey pkey visible m s)
        (moved-Leased zkey pkey zkey pkey visible m k until s other h) others

  pub take_each-Leased_again :
      (zkey pkey hkey k : Str) (visible : ℕ) (ms : List Str) (s : r.State)
      → zkey ≢ pkey
      → Leased r zkey pkey k visible s
      → Leased r zkey pkey k visible (take_each r zkey pkey hkey visible ms s).0
  unfolding take_each
  take_each-Leased_again zkey pkey hkey k visible [] s apart h = h
  take_each-Leased_again zkey pkey hkey k visible (m ∷ ms) s apart h =
      let s' = moved zkey pkey visible m s in
      let next : Leased r zkey pkey k visible s' = elim (dec_str k m) [
        | yes e ↦
            rw e
              (score-moved_self zkey pkey visible m s, score-moved_from zkey pkey visible m s apart)
        | no e ↦ moved-Leased zkey pkey zkey pkey visible m k visible s e h
      ] in
      take_each-Leased_again zkey pkey hkey k visible ms s' apart next
