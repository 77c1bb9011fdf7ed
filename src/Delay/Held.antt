-- ===== src/Delay/Held.antt =====
-- delay_queue.go: the history of one task that a poll has handed out.
use go_cachex.Base.{
  ℕ, ◌+◌, ◌≡◌, sym, ◌∙◌, true, false, ◌||◌, none, some, List, [], ◌∷◌, ◌++◌, Bool-cases, inl, inr,
  ltb,
}
use go_cachex.Cache.{Str, is_zero}
use go_cachex.Redis.{Turn, Net, delivered, refused, cut, good, outcome_of}
use go_cachex.Delay.Server.{Server, IsServer}
use go_cachex.Delay.Scripts.{take_each, requeue_each, ack_script, cancel_script, or_false}
use go_cachex.Delay.Defs.{
  DelayQueue, DelayTask, Codec, fault_of, enqueue_at, cancel, zset_key, hash_key, processing_key,
  unix_milli,
}
use go_cachex.Delay.Tasks.{poll_expired, ack, move_to_dead, decode_all, tasks_of}
use go_cachex.Delay.Polls.{poll_script_lem}
use go_cachex.Delay.Moves.{Leased}
use go_cachex.Delay.Others.{SameAt-Leased}
use go_cachex.Delay.Safety.{enqueue_at-SameAt, cancel-SameAt, ack-SameAt, move_to_dead-SameAt}
use go_cachex.Delay.Leases.{
  Coded, AllOf, NoneFor, AllLeased, take_each-AllLeased, requeue_each-Coded, keys_apart,
}
use go_cachex.Delay.Exclusive.{
  AllEarly, Early, Fine, Kept, enqueue_script-Coded, hdel-Coded, zrem-Coded, take_each-Coded,
  poll_expired-Kept, dequeue_expired-Kept, requeue_stale-Kept,
}
use go_cachex.Delay.Calls.{
  IsCodec, outcome_of-state, Call, enqueues, cancels, acks, polls, dequeues, requeues, buries,
  handed, perform, perform_all, Spares, AllSpare,
}

module _ (r : Server) (laws : IsServer r) (D : Type 0) (c : Codec D) (codec : IsCodec D c)
    (q : DelayQueue) (name : Str) where
  abbrev Good : r.State → Type 0
  Good = Fine r laws D c codec q name

  pub enqueue_at-Coded :
      (turn : Turn) (task : DelayTask D) (s : r.State)
      → Good s
      → Good (enqueue_at r D c q turn name (some task) s).0
  unfolding enqueue_at
  enqueue_at-Coded turn task s fine =
      let wrong = elim task.key [ [] ↦ true | _ ∷ _ ↦ false ] || is_zero task.execute_at in
      elim (Bool-cases q.closed) [
        | inl shut ↦ rw shut fine
        | inr open_ ↦ rw open_ (elim (Bool-cases wrong) [
          | inl bad_ ↦ rw bad_ fine
          | inr right ↦
              rw (right, codec.marshal_lem task)
                (outcome_of-state Good turn.net s _ fine (
                  enqueue_script-Coded r laws D c codec q name (unix_milli task.execute_at) task s
                    fine))
        ])
      ]

  ack-Coded : (turn : Turn) (m : Str) (s : r.State) → Good s → Good (ack r D c q turn name m s).0
  unfolding ack ack_script
  ack-Coded turn m s fine =
      let s' = (r.zrem (processing_key q name) m s).0 in
      let fine' : Good s' = zrem-Coded r laws D c codec q name (processing_key q name) m s fine in
      let next : Good (ack_script r (processing_key q name) (hash_key q name) m s).0 =
        elim (Bool-cases (ltb 0 (r.zrem (processing_key q name) m s).1)) [
          | inl some_ ↦ rw some_ (hdel-Coded r laws D c codec q name m s' fine')
          | inr none_ ↦ rw none_ fine'
        ] in
      outcome_of-state Good turn.net s (ack_script r (processing_key q name) (hash_key q name) m s)
        fine next

  cancel-Coded :
      (turn : Turn) (m : Str) (s : r.State) → Good s → Good (cancel r D c q turn name m s).0
  unfolding cancel cancel_script
  cancel-Coded turn m s fine =
      let s' = (r.zrem (zset_key q name) m s).0 in
      let s'' = (r.zrem (processing_key q name) m s').0 in
      let fine' = zrem-Coded r laws D c codec q name (zset_key q name) m s fine in
      let fine'' = zrem-Coded r laws D c codec q name (processing_key q name) m s' fine' in
      elim (Bool-cases q.closed) [
        | inl shut ↦ rw shut fine
        | inr open_ ↦ rw open_ (
            outcome_of-state Good turn.net s _ fine
              (hdel-Coded r laws D c codec q name m s'' fine''))
      ]

  move_to_dead-Coded :
      (turn : Turn) (task : DelayTask D) (s : r.State)
      → Good s
      → Good (move_to_dead r D c q turn name task s)
  unfolding move_to_dead
  move_to_dead-Coded turn task s fine =
      rw (codec.marshal_lem task, move_to_dead)
        (outcome_of-state Good turn.net s _ fine
          (λ j d at. fine j d (sym (laws.field-lpush (hash_key q name) _ j _ s) ∙ at)))

  module _ (k : Str) (until : ℕ) where
    perform-Kept :
        (x : Call D) (s : r.State)
        → Spares k x
        → Early r laws D c codec q name until x
        → Kept r laws D c codec q name k until s
        → let y = perform r D c q name x s in
          Kept r laws D c codec q name k until y.0 × NoneFor r laws D c codec q k y.1
    unfolding perform
    perform-Kept (enqueues turn task) s other early (fine, leased) = (
      (
        enqueue_at-Coded turn task s fine,
        SameAt-Leased r _ _ k until s _ (enqueue_at-SameAt r laws D c q name k turn task s other)
            leased,
      ),
      tt,
    )
    perform-Kept (cancels turn m) s other early (fine, leased) = (
      (
        cancel-Coded turn m s fine,
        SameAt-Leased r _ _ k until s _ (cancel-SameAt r laws D c q name k turn m s other) leased,
      ),
      tt,
    )
    perform-Kept (acks turn m) s other early (fine, leased) = (
      (
        ack-Coded turn m s fine,
        SameAt-Leased r _ _ k until s _ (ack-SameAt r laws D c q name k turn m s other) leased,
      ),
      tt,
    )
    perform-Kept (polls turn clock clock') s other early kept =
        poll_expired-Kept r laws D c codec q name k until turn clock clock' s kept early
    perform-Kept (dequeues turn clock clock') s other early kept =
        dequeue_expired-Kept r laws D c codec q name k until turn clock clock' s kept
    perform-Kept (requeues turn clock) s other early kept =
        (requeue_stale-Kept r laws D c codec q name k until turn clock s kept early, tt)
    perform-Kept (buries turn task) s other early (fine, leased) = (
      (
        move_to_dead-Coded turn task s fine,
        SameAt-Leased r _ _ k until s _ (move_to_dead-SameAt r laws D c q name k turn task s)
            leased,
      ),
      tt,
    )

    NoneFor-append :
        (ts us : List (DelayTask D))
        → NoneFor r laws D c codec q k ts
        → NoneFor r laws D c codec q k us
        → NoneFor r laws D c codec q k (ts ++ us)
    NoneFor-append [] us h h' = h'
    NoneFor-append (t ∷ ts) us (other, h) h' = (other, NoneFor-append ts us h h')

    perform_all-Kept :
        (xs : List (Call D)) (s : r.State)
        → AllSpare k xs
        → AllEarly r laws D c codec q name until xs
        → Kept r laws D c codec q name k until s
        → let y = perform_all r D c q name xs s in
          Kept r laws D c codec q name k until y.0 × NoneFor r laws D c codec q k y.1
    unfolding perform_all
    perform_all-Kept [] s others early kept = (kept, tt)
    perform_all-Kept (x ∷ xs) s (other, others) (early, earlies) kept =
        let (kept', none_) = perform-Kept x s other early kept in
        let (kept'', nones) =
          perform_all-Kept xs (perform r D c q name x s).0 others earlies kept' in
        (kept'', NoneFor-append _ _ none_ nones)

  handed-AllLeased :
      (n : Net) (until : ℕ) (s s' : r.State) (ds : List Str)
      → AllLeased r laws D c codec q
          (zset_key q name)
          (processing_key q name)
          until
          (decode_all r D c q ds)
          s'
      → let x = outcome_of n s (s', or_false ds) in
        AllLeased r laws D c codec q
          (zset_key q name)
          (processing_key q name)
          until
          (handed (tasks_of r D c q (fault_of r D c q x.1)))
          x.0
  unfolding tasks_of
  handed-AllLeased delivered until s s' [] all = tt
  handed-AllLeased delivered until s s' (d ∷ ds) all = all
  handed-AllLeased (refused e) until s s' ds all = tt
  handed-AllLeased (cut e) until s s' ds all = tt

  poll_expired-AllLeased :
      (turn : Turn) (clock clock' : ℕ) (s : r.State)
      → Good s
      → let x = poll_expired r D c q turn clock clock' name s in
        Good x.0
        × AllLeased r laws D c codec q
            (zset_key q name)
            (processing_key q name)
            (unix_milli (clock' + q.config.visibility_timeout))
            (handed x.1)
            x.0
  unfolding poll_expired
  poll_expired-AllLeased turn clock clock' s fine =
      let z = zset_key q name in
      let p = processing_key q name in
      let h = hash_key q name in
      let now = unix_milli clock in
      let visible = unix_milli (clock' + q.config.visibility_timeout) in
      let stale = r.due p now q.config.batch_size s in
      let s' = requeue_each r p z now stale s in
      let ready = r.due z now q.config.batch_size s' in
      let taken = take_each r z p h visible ready s' in
      let fine' : Good s' = requeue_each-Coded r laws D c codec q h p z now stale s fine in
      rw (poll_script_lem r z p h now q.config.batch_size visible s) (
        outcome_of-state Good turn.net s (taken.0, or_false taken.1) fine
            (take_each-Coded r laws D c codec q name visible ready s' fine'),
        handed-AllLeased turn.net visible s taken.0 taken.1 (
            take_each-AllLeased r laws D c codec q z p h visible ready s'
              (keys_apart r laws D c codec q name) fine'),
      )

  one_of_AllOf :
      (P : DelayTask D → Type 0) (ts : List (DelayTask D)) (t : DelayTask D)
      (us : List (DelayTask D))
      → AllOf r laws D c codec q P (ts ++ t ∷ us)
      → P t
  one_of_AllOf P [] t us (fits, _) = fits
  one_of_AllOf P (x ∷ ts) t us (_, all) = one_of_AllOf P ts t us all

  -- Two instances do not work on one task at once: a task that a poll returns is returned by no later
  -- call, in any order and whichever of them fail, that takes tasks back before the visibility timeout
  -- of the poll has passed, as long as nobody enqueues, cancels or acknowledges this task. It
  -- stays in the processing set, and out of the ready set.
  pub poll_expired-excludes :
      (turn : Turn) (clock clock' : ℕ) (s : r.State) (ts : List (DelayTask D)) (t : DelayTask D)
      → (us : List (DelayTask D)) (xs : List (Call D))
      → Coded r laws D c codec q (hash_key q name) s
      → (poll_expired r D c q turn clock clock' name s).1 ≡ good (ts ++ t ∷ us)
      → AllSpare t.key xs
      → AllEarly r laws D c codec q name (unix_milli (clock' + q.config.visibility_timeout)) xs
      → let y = perform_all r D c q name xs (poll_expired r D c q turn clock clock' name s).0 in
        NoneFor r laws D c codec q t.key y.1
        × (r.score (processing_key q name) t.key y.0
            ≡ some (unix_milli (clock' + q.config.visibility_timeout)))
        × (r.score (zset_key q name) t.key y.0 ≡ none)
  poll_expired-excludes turn clock clock' s ts t us xs fine got others early =
      let until = unix_milli (clock' + q.config.visibility_timeout) in
      let s' = (poll_expired r D c q turn clock clock' name s).0 in
      let (fine', all) = poll_expired-AllLeased turn clock clock' s fine in
      let mine =
        one_of_AllOf (λ x. Leased r (zset_key q name) (processing_key q name) x.key until s') ts t
          us (rw got at all) in
      let ((_, (runs, gone)), nones) =
        perform_all-Kept t.key until xs s' others early (fine', mine) in
      (nones, runs, gone)
