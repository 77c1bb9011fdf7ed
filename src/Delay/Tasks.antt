-- ===== src/Delay/Tasks.antt =====
-- delay_queue.go: the methods that read tasks, hand them out, acknowledge them and take them back.
use go_cachex.Base.{ℕ, ◌+◌, ◌*◌, ◌^◌, Option, none, some, List, [], ◌∷◌, length, ℤ}
use go_cachex.Cache.{Str}
use go_cachex.Lru.{if_le_zero}
use go_cachex.Redis.{Turn, Outcome, good, bad}
use go_cachex.Delay.Server.{Server}
use go_cachex.Delay.Scripts.{dequeue_script, requeue_script, poll_script, ack_script}
use go_cachex.Delay.Defs.{
  DelayQueue, DelayTask, Codec, DelayError, task_not_found, unmarshal_failed, zset_key, hash_key,
  processing_key, dead_key, unix_milli, to_int64, call, enqueue_at, enqueue_with_delay,
}

module _ (r : Server) (D : Type 0) (c : Codec D) (q : DelayQueue) where
  unfoldable pub dead_length : Turn → Str → r.State → Outcome DelayError ℕ
  unfolding dead_key
  dead_length turn name s = (call r D c q turn s (s, length (r.items (dead_key q name) s))).1

  unfoldable pub task_of : Outcome DelayError (Option Str) → Outcome DelayError (DelayTask D)
  task_of (bad e) = bad e
  task_of (good none) = bad task_not_found
  task_of (good (some d)) = elim (c.unmarshal d) [ none ↦ bad unmarshal_failed | some t ↦ good t ]

  unfoldable pub get_task : Turn → Str → Str → r.State → Outcome DelayError (DelayTask D)
  unfolding task_of hash_key
  get_task turn name key s = task_of (call r D c q turn s (s, r.field (hash_key q name) key s)).1

  -- What does not unmarshal is skipped.
  unfoldable pub decode_all : List Str → List (DelayTask D)
  decode_all [] = []
  decode_all (d ∷ ds) =
      let rest = decode_all ds in elim (c.unmarshal d) [ none ↦ rest | some t ↦ t ∷ rest ]

  unfoldable pub get_dead_tasks :
      Turn → Str → ℕ → ℤ → r.State → Outcome DelayError (List (DelayTask D))
  unfolding decode_all dead_key if_le_zero
  get_dead_tasks turn name offset limit s =
      elim (call r D c q turn s (s, r.lrange (dead_key q name) offset (if_le_zero limit 50) s)).1 [
        | bad e ↦ bad e
        | good ds ↦ good (decode_all ds)
      ]

  -- The reply of a script; nil is no task.
  unfoldable pub tasks_of :
      Outcome DelayError (Option (List Str)) → Outcome DelayError (List (DelayTask D))
  unfolding decode_all
  tasks_of (bad e) = bad e
  tasks_of (good none) = good []
  tasks_of (good (some ds)) = good (decode_all ds)

  -- `clock` and `clock'` are the two readings of the clock.
  unfoldable pub dequeue_expired :
      Turn → ℕ → ℕ → Str → r.State → r.State × Outcome DelayError (List (DelayTask D))
  unfolding tasks_of dequeue_script zset_key processing_key hash_key
  dequeue_expired turn clock clock' name s =
      let (s', o) = call r D c q turn s (
        dequeue_script r (zset_key q name) (processing_key q name) (hash_key q name)
          (unix_milli clock) q.config.batch_size (unix_milli (clock' + q.config.visibility_timeout))
          s) in
      (s', tasks_of o)

  unfoldable pub poll_expired :
      Turn → ℕ → ℕ → Str → r.State → r.State × Outcome DelayError (List (DelayTask D))
  unfolding tasks_of poll_script zset_key processing_key hash_key
  poll_expired turn clock clock' name s =
      let (s', o) = call r D c q turn s (
        poll_script r (zset_key q name) (processing_key q name) (hash_key q name) (unix_milli clock)
          q.config.batch_size (unix_milli (clock' + q.config.visibility_timeout)) s) in
      (s', tasks_of o)

  -- A task that is not there any more is no error.
  unfoldable pub ack : Turn → Str → Str → r.State → r.State × Outcome DelayError (Unit {0})
  unfolding ack_script processing_key hash_key
  ack turn name key s =
      let (s', o) =
        call r D c q turn s (ack_script r (processing_key q name) (hash_key q name) key s) in
      (s', elim o [ bad e ↦ bad e | good _ ↦ good tt ])

  unfoldable pub requeue_stale : Turn → ℕ → Str → r.State → r.State × Outcome DelayError ℕ
  unfolding requeue_script processing_key zset_key
  requeue_stale turn clock name s = call r D c q turn s (
      requeue_script r (processing_key q name) (zset_key q name) (unix_milli clock)
        q.config.batch_size s)

  -- The methods change the task, which is the caller's own from here on.
  unfoldable pub re_enqueue :
      Turn → ℕ → Str → DelayTask D → r.State → r.State × Outcome DelayError (Unit {0})
  unfolding enqueue_at
  re_enqueue turn clock name task s =
      enqueue_at r D c q turn name (some (record task { execute_at = clock })) s

  unfoldable pub re_enqueue_with_delay :
      Turn → ℕ → Str → DelayTask D → ℤ → r.State → r.State × Outcome DelayError (Unit {0})
  unfolding enqueue_with_delay
  re_enqueue_with_delay turn clock name task delay s =
      let (s', _, o) = enqueue_with_delay r D c q turn clock name (some task) delay s in (s', o)

  -- `retryDelay * time.Duration(1<<uint(retries))`, which wraps around.
  unfoldable pub backoff : ℕ → ℕ → ℤ
  unfolding to_int64
  backoff retry_delay retries = to_int64 (retry_delay * 2 ^ retries)

  -- Errors are only logged.
  unfoldable pub move_to_dead : Turn → Str → DelayTask D → r.State → r.State
  unfolding dead_key
  move_to_dead turn name task s = elim (c.marshal task) [
    | none ↦ s
    | some d ↦ (call r D c q turn s (r.lpush (dead_key q name) d s, tt)).0
  ]
