-- ===== src/Delay/Losses.antt =====
-- delay_queue.go: the combined poll, and two ways in which a task is lost.
use go_cachex.Base.{ℕ, ◌+◌, ◌<◌, ◌≡◌, ◌≢◌, refl, sym, ◌∙◌, Bool, true, false, none, some, arith}
use go_cachex.Cache.{Str}
use go_cachex.Redis.{Turn, delivered, good, bad}
use go_cachex.Delay.Server.{Server, IsServer}
use go_cachex.Delay.Scripts.{enqueue_script, requeue_script, dequeue_script, ack_script}
use go_cachex.Delay.Defs.{
  DelayQueue, DelayTask, Codec, task_not_found, enqueue_at, enqueue_with_delay, zset_key, hash_key,
  processing_key, dead_key, unix_milli,
}
use go_cachex.Delay.Tasks.{
  poll_expired, dequeue_expired, requeue_stale, ack, get_task, re_enqueue_with_delay,
}
use go_cachex.Delay.Consumer.{Moment, handle_task}
use go_cachex.Delay.Polls.{poll_script_lem}
use go_cachex.Delay.Moves.{same_self, same_other}
use go_cachex.Delay.Safety.{enqueue_at-good}
use go_cachex.Delay.Leases.{keys_apart}
use go_cachex.Delay.Calls.{IsCodec}

module _ (r : Server) (D : Type 0) (c : Codec D) (q : DelayQueue) (name : Str) where
  -- The combined script does what the two scripts do one after the other: a served poll gives the state
  -- and the tasks of a served dequeue after a served return of stale tasks.
  pub poll_expired_splits :
      (turn : Turn) (clock clock' : ℕ) (s : r.State)
      → turn.net ≡ delivered
      → poll_expired r D c q turn clock clock' name s
        ≡ dequeue_expired r D c q turn clock clock' name (requeue_stale r D c q turn clock name s).0
  unfolding poll_expired dequeue_expired requeue_stale dequeue_script requeue_script
  poll_expired_splits turn clock clock' s served =
      let visible = unix_milli (clock' + q.config.visibility_timeout) in
      let shown =
        poll_script_lem r (zset_key q name) (processing_key q name) (hash_key q name)
          (unix_milli clock) q.config.batch_size visible s in
      rw shown (ground arith)

module _ (r : Server) (laws : IsServer r) where
  ack_script_shown :
      (pkey hkey k : Str) (t : ℕ) (s : r.State)
      → r.score pkey k s ≡ some t
      → (ack_script r pkey hkey k s).0 ≡ r.hdel hkey k (r.zrem pkey k s).0
  unfolding ack_script
  ack_script_shown pkey hkey k t s runs = ground (arith, laws.zrem_count pkey k s)

  -- An acknowledgement of a task that is being worked on takes it out of the processing set and the hash,
  -- and leaves the ready set and the lists alone.
  ack_script_running :
      (zkey pkey hkey k : Str) (t : ℕ) (s : r.State)
      → zkey ≢ pkey
      → r.score pkey k s ≡ some t
      → let s' = (ack_script r pkey hkey k s).0 in
        (r.score pkey k s' ≡ none)
        × (r.field hkey k s' ≡ none)
        × (r.score zkey k s' ≡ r.score zkey k s)
        × ((j : Str) → r.items j s' ≡ r.items j s)
  ack_script_running zkey pkey hkey k t s apart runs =
      let s' = (r.zrem pkey k s).0 in
      let shown = ack_script_shown pkey hkey k t s runs in
      (
        rw shown (
            ground (
              arith,
              laws.score-hdel pkey hkey k k s',
              laws.score-zrem pkey pkey k k s,
              same_self pkey,
              same_self k,
            )),
        rw shown (ground (arith, laws.field-hdel hkey hkey k k s', same_self hkey, same_self k)),
        rw shown (
            ground (
              arith,
              laws.score-hdel zkey hkey k k s',
              laws.score-zrem zkey pkey k k s,
              same_other zkey pkey apart,
            )),
        λ j. rw shown (laws.items-hdel j hkey k s' ∙ laws.items-zrem j pkey k s),
      )

  module _ (D : Type 0) (c : Codec D) (codec : IsCodec D c) (q : DelayQueue) (name : Str) where
    -- A task that is enqueued again while it is being worked on is lost by the acknowledgement of the
    -- work: afterwards its key still waits in the ready set for its new time, but its contents are
    -- gone, and GetTask does not find it.
    pub ack-loses_rescheduled :
        (turn turn' turn'' : Turn) (task : DelayTask D) (t : ℕ) (s : r.State)
        → r.score (processing_key q name) task.key s ≡ some t
        → (enqueue_at r D c q turn name (some task) s).1 ≡ good tt
        → turn'.net ≡ delivered
        → turn''.net ≡ delivered
        → let s' =
            (ack r D c q turn' name task.key (enqueue_at r D c q turn name (some task) s).0).0 in
          (r.score (zset_key q name) task.key s' ≡ some (unix_milli task.execute_at))
          × (r.field (hash_key q name) task.key s' ≡ none)
          × (get_task r D c q turn'' name task.key s' ≡ bad task_not_found)
    unfolding ack get_task enqueue_script
    ack-loses_rescheduled turn turn' turn'' task t s runs stored served served' =
        let z = zset_key q name in
        let p = processing_key q name in
        let h = hash_key q name in
        let k = task.key in
        let d = codec.encode task in
        let n = unix_milli task.execute_at in
        let apart = keys_apart r laws D c codec q name in
        let s0 = enqueue_script r z h n k d s in
        let shown = enqueue_at-good r laws D c codec q name turn task s stored in
        let runs' : r.score p k s0 ≡ some t = ground (
          arith,
          laws.score-hset p h k k d (r.zadd z n k s),
          laws.score-zadd p z n k k s,
          same_other p z (λ e. apart (sym e)),
        ) in
        let waits : r.score z k s0 ≡ some n = ground (
          arith,
          laws.score-hset z h k k d (r.zadd z n k s),
          laws.score-zadd z z n k k s,
          same_self z,
          same_self k,
        ) in
        let (_, lost, same_score, _) = ack_script_running z p h k t s0 apart runs' in
        rw (shown, served) (same_score ∙ waits, lost, rw (served', lost) refl)

    handle_task_closed :
        (m : Moment r D c q) (handler : DelayTask D → DelayTask D × Bool)
        (max_retries retry_delay : ℕ)
        → (task : DelayTask D) (s : r.State) → q.closed ≡ true
        → m.first.net ≡ delivered
        → ((g : r.State) → m.others g ≡ g)
        → (handler task).1 ≡ false
        → (handler task).0.retry_count < max_retries
        → handle_task r D c q m name handler max_retries retry_delay task s
          ≡ (ack_script r (processing_key q name) (hash_key q name) (handler task).0.key s).0
    unfolding handle_task ack re_enqueue_with_delay enqueue_with_delay enqueue_at
    handle_task_closed m handler max_retries retry_delay task s shut served alone fails left =
        ground (
          arith,
          alone (ack_script r (processing_key q name) (hash_key q name) (handler task).0.key s).0,
        )

    -- A task whose handler fails after Stop is lost, though it has retries left: its acknowledgement is
    -- served, and the queue then refuses to take the task back. It neither waits nor is worked on,
    -- its contents are gone, and it is not in the list of dead tasks.
    pub handle_task-closed_loses :
        (m : Moment r D c q) (handler : DelayTask D → DelayTask D × Bool)
        (max_retries retry_delay t : ℕ)
        → (task : DelayTask D) (s : r.State) → q.closed ≡ true
        → m.first.net ≡ delivered
        → ((g : r.State) → m.others g ≡ g)
        → (handler task).1 ≡ false
        → (handler task).0.retry_count < max_retries
        → r.score (processing_key q name) (handler task).0.key s ≡ some t
        → r.score (zset_key q name) (handler task).0.key s ≡ none
        → let s' = handle_task r D c q m name handler max_retries retry_delay task s in
          let k = (handler task).0.key in
          (r.score (processing_key q name) k s' ≡ none)
          × (r.score (zset_key q name) k s' ≡ none)
          × (r.field (hash_key q name) k s' ≡ none)
          × (r.items (dead_key q name) s' ≡ r.items (dead_key q name) s)
    handle_task-closed_loses m handler max_retries retry_delay t task s shut served alone fails left
          runs away =
        let k = (handler task).0.key in
        let (stopped, lost, same_score, same_lists) =
          ack_script_running (zset_key q name) (processing_key q name) (hash_key q name) k t s
            (keys_apart r laws D c codec q name) runs in
        rw
          (handle_task_closed m handler max_retries retry_delay task s shut served alone fails left)
          (stopped, same_score ∙ away, lost, same_lists (dead_key q name))
