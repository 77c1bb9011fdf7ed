-- ===== src/Delay/Consumer.antt =====
-- delay_queue.go: the consumers, one round of polling, and what becomes of a task.
use go_cachex.Base.{
  ℕ, suc, Bool, true, false, Option, none, some, List, [], ◌∷◌, ◌++◌, map, ltb, leb, if◌then◌else◌,
  ℤ, pos, negsuc,
}
use go_cachex.Cache.{Str}
use go_cachex.Lru.{if_le_zero}
use go_cachex.Redis.{Turn, good, bad}
use go_cachex.Table.{lookup, assign, delete}
use go_cachex.Delay.Server.{Server}
use go_cachex.Delay.Defs.{
  DelayQueue, DelayTask, Codec, DelayError, queue_closed, running, ready_length,
}
use go_cachex.Delay.Tasks.{
  poll_expired, ack, re_enqueue, re_enqueue_with_delay, backoff, move_to_dead,
}

unfoldable pub may_start : Str → DelayQueue → Option DelayError
unfolding lookup
may_start name q =
    if q.closed
    then some queue_closed
    else elim (lookup name q.consumers) [ none ↦ none | some _ ↦ some running ]

-- The second critical section of `StartConsumer`; `me` is the new consumer.
unfoldable pub enter : ℕ → Str → DelayQueue → DelayQueue × Option DelayError
unfolding assign
enter me name q =
    if q.closed
    then (record q { cancelled = me ∷ q.cancelled }, some queue_closed)
    else (record q { consumers = assign name me q.consumers }, none)

-- `others` is what runs between the two critical sections.
unfoldable pub start_consumer :
    (DelayQueue → DelayQueue) → ℕ → Str → DelayQueue → DelayQueue × Option DelayError
unfolding may_start enter
start_consumer others me name q = elim (may_start name q) [
  | some e ↦ (q, some e)
  | none ↦ enter me name (others q)
]

-- The limits of a consumer: an option above 0, or else the configuration.
unfoldable pub override : Option ℤ → ℕ → ℕ
unfolding if_le_zero
override none d = d
override (some n) d = if_le_zero n d

-- What the goroutine of a consumer does to the map when it ends.
unfoldable pub leave : Str → DelayQueue → DelayQueue
unfolding delete
leave name q = record q { consumers = delete name q.consumers }

unfoldable pub stop_consumer : Str → DelayQueue → DelayQueue
unfolding lookup delete
stop_consumer name q = elim (lookup name q.consumers) [
  | none ↦ q
  | some me ↦ record q { consumers = delete name q.consumers; cancelled = me ∷ q.cancelled }
]

-- Before the wait for the goroutines.
unfoldable pub stop : DelayQueue → DelayQueue
stop q = if q.closed then q else record q {
  closed = true;
  consumers = [];
  cancelled = map (λ e. e.1) q.consumers ++ q.cancelled;
}

module _ (r : Server) (D : Type 0) (c : Codec D) (q : DelayQueue) where
  -- The circumstances of one task: the two calls and the clock, what others do between the calls, whether
  -- the worker pool takes the task and whether the context has ended.
  pub record Moment : Type 0 where
    pub first : Turn
    pub next : Turn
    pub clock : ℕ
    pub others : r.State → r.State
    pub accepted : Bool
    pub ended : Bool

  -- The handler may change the task; the flag says that it returned no error.
  unfoldable pub handle_task :
      Moment → Str → (DelayTask D → DelayTask D × Bool) → ℕ → ℕ → DelayTask D → r.State → r.State
  unfolding ack re_enqueue_with_delay move_to_dead backoff
  handle_task m name handler max_retries retry_delay task s =
      let (done, fine) = handler task in
      let acked = (ack r D c q m.first name done.key s).0 in
      if fine
      then acked
      else if leb max_retries done.retry_count
      then move_to_dead r D c q m.next name done (m.others acked)
      else (let again : DelayTask D = record done { retry_count = suc done.retry_count } in
          (re_enqueue_with_delay r D c q m.next m.clock name again
            (backoff r D c q retry_delay (suc done.retry_count)) (m.others acked)).0)

  -- The tasks one after the other, until the context ends.
  unfoldable pub handle_in_order :
      (ℕ → Moment)
      → Str
      → (DelayTask D → DelayTask D × Bool)
      → ℕ
      → ℕ
      → List (DelayTask D)
      → r.State
      → r.State
  unfolding handle_task
  handle_in_order m name handler max_retries retry_delay [] s = s
  handle_in_order m name handler max_retries retry_delay (t ∷ ts) s = elim (m 0).ended [
    | true ↦ s
    | false ↦
        handle_in_order (λ n. m (suc n)) name handler max_retries retry_delay ts
          (handle_task (m 0) name handler max_retries retry_delay t s)
  ]

  -- The tasks that the worker pool takes are jobs, which run later; another one goes back at once.
  unfoldable pub submit_each :
      (ℕ → Moment) → Str → List (DelayTask D) → r.State → r.State × List (DelayTask D)
  unfolding ack re_enqueue
  submit_each m name [] s = (s, [])
  submit_each m name (t ∷ ts) s =
      let returned = (m 0).others (ack r D c q (m 0).first name t.key s).0 in
      let s' =
        if (m 0).accepted
        then s
        else (re_enqueue r D c q (m 0).next (m 0).clock name t returned).0 in
      let (s'', jobs) = submit_each (λ n. m (suc n)) name ts s' in
      (s'', if (m 0).accepted then t ∷ jobs else jobs)

  -- Whether the warning on the backlog is logged.
  unfoldable pub backlog : Turn → Str → r.State → Bool
  unfolding ready_length
  backlog turn name s = elim q.config.max_ready_size [
    | negsuc _ ↦ false
    | pos limit ↦
        if ltb 0 limit
        then elim (ready_length r D c q turn name s) [ bad _ ↦ false | good n ↦ ltb limit n ]
        else false
  ]

  -- The new state, the jobs of the worker pool, and the warning.
  unfoldable pub poll_once :
      Turn
      → Turn
      → ℕ
      → ℕ
      → (ℕ → Moment)
      → Str
      → (DelayTask D → DelayTask D × Bool)
      → ℕ
      → ℕ
      → r.State
      → r.State × List (DelayTask D) × Bool
  unfolding poll_expired handle_in_order submit_each backlog
  poll_once first next clock clock' m name handler max_retries retry_delay s =
      let warned = backlog first name s in
      let (s', o) = poll_expired r D c q next clock clock' name s in
      elim o [
        | bad e ↦ (s', [], warned)
        | good tasks ↦
            if q.config.ordered
            then (handle_in_order m name handler max_retries retry_delay tasks s', [], warned)
            else (let (s'', jobs) = submit_each m name tasks s' in (s'', jobs, warned))
      ]
