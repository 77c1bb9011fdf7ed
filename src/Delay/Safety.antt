-- ===== src/Delay/Safety.antt =====
-- delay_queue.go: a task that has been enqueued is not lost, whatever the instances do to other tasks and
-- whichever of them stop before they acknowledge it.
use go_cachex.Base.{
  ℕ, ◌+◌, ◌≡◌, ◌≢◌, refl, true, false, some, List, [], ◌∷◌, ◌⊎◌, inl, inr, arith, Bool-cases,
  Option-cases, ◌||◌,
}
use go_cachex.Cache.{Str, is_zero}
use go_cachex.Redis.{Turn, delivered, good}
use go_cachex.Delay.Server.{Server, IsServer}
use go_cachex.Delay.Scripts.{enqueue_script, dequeue_script, requeue_script, poll_script}
use go_cachex.Delay.Defs.{
  DelayQueue, DelayTask, Codec, enqueue_at, cancel, zset_key, hash_key, processing_key, unix_milli,
}
use go_cachex.Delay.Tasks.{
  poll_expired, dequeue_expired, requeue_stale, ack, move_to_dead, get_task,
}
use go_cachex.Delay.Moves.{
  Alive, enqueue_script-Alive, poll_script-Alive, dequeue_script-Alive, requeue_script-Alive,
}
use go_cachex.Delay.Others.{
  SameAt, SameAt-Alive, enqueue_script-SameAt, ack_script-SameAt, cancel_script-SameAt,
}
use go_cachex.Delay.Calls.{
  IsCodec, outcome_of-state, outcome_of-good, Call, enqueues, cancels, acks, polls, dequeues,
  requeues, buries, perform, perform_all, Spares, AllSpare,
}

module _ (r : Server) (laws : IsServer r) (D : Type 0) (c : Codec D) (q : DelayQueue)
    (name k : Str) where
  SameAt-refl : (s : r.State) → SameAt r k s s
  SameAt-refl s = (λ j. refl, λ j. refl)

  pub enqueue_at-SameAt :
      (turn : Turn) (task : DelayTask D) (s : r.State)
      → k ≢ task.key
      → SameAt r k s (enqueue_at r D c q turn name (some task) s).0
  unfolding enqueue_at
  enqueue_at-SameAt turn task s other = elim (Bool-cases q.closed) [
    | inl shut ↦ rw shut (SameAt-refl s)
    | inr open_ ↦
        rw open_
          (elim (Bool-cases
            (elim task.key [ [] ↦ true | _ ∷ _ ↦ false ] || is_zero task.execute_at)) [
              | inl wrong ↦ rw wrong (SameAt-refl s)
              | inr right ↦ rw right (elim (Option-cases (c.marshal task)) [
                | inl lost ↦ rw lost (SameAt-refl s)
                | inr (d, text) ↦ rw text (
                    outcome_of-state (λ t. SameAt r k s t) turn.net s _ (SameAt-refl s)
                      (enqueue_script-SameAt r laws k task.key other (zset_key q name)
                        (hash_key q name) d (unix_milli task.execute_at) s))
              ])
            ])
  ]

  pub cancel-SameAt :
      (turn : Turn) (m : Str) (s : r.State) → k ≢ m → SameAt r k s (cancel r D c q turn name m s).0
  unfolding cancel
  cancel-SameAt turn m s other = elim (Bool-cases q.closed) [
    | inl shut ↦ rw shut (SameAt-refl s)
    | inr open_ ↦ rw open_ (
        outcome_of-state (λ t. SameAt r k s t) turn.net s _ (SameAt-refl s)
          (cancel_script-SameAt r laws k m other (zset_key q name) (processing_key q name)
            (hash_key q name) s))
  ]

  pub ack-SameAt :
      (turn : Turn) (m : Str) (s : r.State) → k ≢ m → SameAt r k s (ack r D c q turn name m s).0
  unfolding ack
  ack-SameAt turn m s other =
      outcome_of-state (λ t. SameAt r k s t) turn.net s _ (SameAt-refl s)
        (ack_script-SameAt r laws k m other (processing_key q name) (hash_key q name) s)

  pub move_to_dead-SameAt :
      (turn : Turn) (task : DelayTask D) (s : r.State)
      → SameAt r k s (move_to_dead r D c q turn name task s)
  unfolding move_to_dead
  move_to_dead-SameAt turn task s = elim (Option-cases (c.marshal task)) [
    | inl lost ↦ rw (lost, move_to_dead) (SameAt-refl s)
    | inr (d, text) ↦
        rw (text, move_to_dead)
          (outcome_of-state (λ t. SameAt r k s t) turn.net s _ (SameAt-refl s)
            (λ j. laws.score-lpush j _ k d s, λ j. laws.field-lpush j _ k d s))
  ]

  module _ (d : Str) where
    abbrev Here : r.State → Type 0
    Here = Alive r (zset_key q name) (processing_key q name) (hash_key q name) k d

    poll_expired-Alive :
        (turn : Turn) (clock clock' : ℕ) (s : r.State)
        → Here s
        → Here (poll_expired r D c q turn clock clock' name s).0
    unfolding poll_expired
    poll_expired-Alive turn clock clock' s h =
        let visible = unix_milli (clock' + q.config.visibility_timeout) in
        outcome_of-state Here turn.net s
          (poll_script r (zset_key q name) (processing_key q name) (hash_key q name)
            (unix_milli clock) q.config.batch_size visible s)
          h
          (poll_script-Alive r laws (zset_key q name) (processing_key q name) (hash_key q name) k d
            (unix_milli clock) q.config.batch_size visible s h)

    dequeue_expired-Alive :
        (turn : Turn) (clock clock' : ℕ) (s : r.State)
        → Here s
        → Here (dequeue_expired r D c q turn clock clock' name s).0
    unfolding dequeue_expired
    dequeue_expired-Alive turn clock clock' s h =
        let visible = unix_milli (clock' + q.config.visibility_timeout) in
        outcome_of-state Here turn.net s
          (dequeue_script r (zset_key q name) (processing_key q name) (hash_key q name)
            (unix_milli clock) q.config.batch_size visible s)
          h
          (dequeue_script-Alive r laws (zset_key q name) (processing_key q name) (hash_key q name) k
            d (unix_milli clock) q.config.batch_size visible s h)

    requeue_stale-Alive :
        (turn : Turn) (clock : ℕ) (s : r.State)
        → Here s
        → Here (requeue_stale r D c q turn clock name s).0
    unfolding requeue_stale
    requeue_stale-Alive turn clock s h =
        outcome_of-state Here turn.net s
          (requeue_script r (processing_key q name) (zset_key q name) (unix_milli clock)
            q.config.batch_size s)
          h
          (requeue_script-Alive r laws (zset_key q name) (processing_key q name) (hash_key q name) k
            d (unix_milli clock) q.config.batch_size s h)

    perform-Alive :
        (x : Call D) (s : r.State) → Spares k x → Here s → Here (perform r D c q name x s).0
    unfolding perform
    perform-Alive (enqueues turn task) s other h =
        SameAt-Alive r _ _ _ k d s _ (enqueue_at-SameAt turn task s other) h
    perform-Alive (cancels turn m) s other h =
        SameAt-Alive r _ _ _ k d s _ (cancel-SameAt turn m s other) h
    perform-Alive (acks turn m) s other h =
        SameAt-Alive r _ _ _ k d s _ (ack-SameAt turn m s other) h
    perform-Alive (polls turn clock clock') s other h = poll_expired-Alive turn clock clock' s h
    perform-Alive (dequeues turn clock clock') s other h =
        dequeue_expired-Alive turn clock clock' s h
    perform-Alive (requeues turn clock) s other h = requeue_stale-Alive turn clock s h
    perform-Alive (buries turn task) s other h =
        SameAt-Alive r _ _ _ k d s _ (move_to_dead-SameAt turn task s) h

    perform_all-Alive :
        (xs : List (Call D)) (s : r.State)
        → AllSpare k xs
        → Here s
        → Here (perform_all r D c q name xs s).0
    unfolding perform_all
    perform_all-Alive [] s others h = h
    perform_all-Alive (x ∷ xs) s (other, others) h =
        perform_all-Alive xs (perform r D c q name x s).0 others (perform-Alive x s other h)

module _ (r : Server) (laws : IsServer r) (D : Type 0) (c : Codec D) (codec : IsCodec D c)
    (q : DelayQueue) (name : Str) where
  pub enqueue_at-good :
      (turn : Turn) (task : DelayTask D) (s : r.State)
      → (enqueue_at r D c q turn name (some task) s).1 ≡ good tt
      → (enqueue_at r D c q turn name (some task) s).0
        ≡ enqueue_script r
            (zset_key q name)
            (hash_key q name)
            (unix_milli task.execute_at)
            task.key
            (codec.encode task)
            s
  unfolding enqueue_at
  enqueue_at-good turn task s h =
      let s' =
        enqueue_script r (zset_key q name) (hash_key q name) (unix_milli task.execute_at) task.key
          (codec.encode task) s in
      ground (arith, codec.marshal_lem task, outcome_of-good r D c q turn.net s (s', tt) tt)

  -- No task is lost: after an enqueue that reports success, whatever calls the instances make that
  -- enqueue, cancel or acknowledge no task with its key, in any order, at any times and whichever
  -- of them fail, the task reads back as it was, and it waits or is being worked on.
  pub enqueue_at-kept :
      (turn turn' : Turn) (task : DelayTask D) (xs : List (Call D)) (s : r.State)
      → (enqueue_at r D c q turn name (some task) s).1 ≡ good tt
      → AllSpare task.key xs
      → turn'.net ≡ delivered
      → let s' = (perform_all r D c q name xs (enqueue_at r D c q turn name (some task) s).0).0 in
        (get_task r D c q turn' name task.key s' ≡ good task)
        × (((t : ℕ) × (r.score (zset_key q name) task.key s' ≡ some t))
            ⊎ ((t : ℕ) × (r.score (processing_key q name) task.key s' ≡ some t)))
  unfolding get_task
  enqueue_at-kept turn turn' task xs s stored others served =
      let k = task.key in
      let d = codec.encode task in
      let z = zset_key q name in
      let p = processing_key q name in
      let start : Alive r z p (hash_key q name) k d (enqueue_at r D c q turn name (some task) s).0 =
        rw (enqueue_at-good turn task s stored)
          (enqueue_script-Alive r laws z p (hash_key q name) k d (unix_milli task.execute_at) s) in
      let (held, at) =
        perform_all-Alive r laws D c q name k d xs (enqueue_at r D c q turn name (some task) s).0
          others start in
      (ground (arith, codec.unmarshal_lem task), at)
