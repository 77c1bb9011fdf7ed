-- ===== src/Delay/Defs.antt =====
-- delay_queue.go: `DelayQueue` and its methods apart from the consumers.
use go_cachex.Base.{
  ℕ, zero, suc, ◌+◌, ◌-◌, ◌*◌, ◌/◌, ◌%◌, ◌^◌, Bool, true, false, ◌||◌, Option, none, some, List, [],
  ◌∷◌, ◌++◌, ltb, if◌then◌else◌, ℤ, pos, negsuc, codes,
}
use go_cachex.Cache.{Str, second, is_zero}
use go_cachex.Lru.{if_le_zero}
use go_cachex.Lock.{if_not_zero, if_not_empty}
use go_cachex.Redis.{Turn, Fault, Outcome, good, bad, outcome_of, ms}
use go_cachex.Delay.Server.{Server}
use go_cachex.Delay.Scripts.{enqueue_script, cancel_script}

pub data DelayError : Type 0 where
  queue_closed running invalid_task task_not_found marshal_failed unmarshal_failed : DelayError
  failed : Fault → DelayError

-- Durations are in nanoseconds; those of the configuration are not negative.
pub record DelayQueueConfig : Type 0 where
  pub namespace : Str
  pub poll_interval : ℕ
  pub batch_size : ℕ
  pub concurrency : ℕ
  pub max_retries : ℕ
  pub retry_delay : ℕ
  pub visibility_timeout : ℕ
  pub ordered : Bool
  pub max_ready_size : ℤ

abbrev pub default_delay_queue_config : DelayQueueConfig
default_delay_queue_config = record {
  namespace = codes "delayq";
  poll_interval = second;
  batch_size = 10;
  concurrency = 5;
  max_retries = 3;
  retry_delay = 5 * second;
  visibility_timeout = 300 * second;
  ordered = false;
  max_ready_size = pos 10000;
}

-- A consumer is the number that it gets when it is started, which stands for its cancel function.
pub record DelayQueue : Type 0 where
  pub config : DelayQueueConfig
  pub closed : Bool
  pub consumers : List (Str × ℕ)
  pub cancelled : List ℕ

-- What a caller passes: numbers that may be 0 or negative.
pub record Wanted : Type 0 where
  pub namespace : Str
  pub poll_interval : ℕ
  pub batch_size : ℤ
  pub concurrency : ℤ
  pub max_retries : ℤ
  pub retry_delay : ℕ
  pub visibility_timeout : ℕ
  pub ordered : Bool
  pub max_ready_size : ℤ

abbrev pub non_zero : ℤ → ℤ → ℤ
non_zero (pos zero) d = d
non_zero (pos (suc n)) d = pos (suc n)
non_zero (negsuc n) d = negsuc n

unfoldable pub merge_config : Wanted → DelayQueueConfig → DelayQueueConfig
unfolding if_le_zero
merge_config c d = record {
  namespace = if_not_empty c.namespace d.namespace;
  poll_interval = if_not_zero c.poll_interval d.poll_interval;
  batch_size = if_le_zero c.batch_size d.batch_size;
  concurrency = if_le_zero c.concurrency d.concurrency;
  max_retries = if_le_zero c.max_retries d.max_retries;
  retry_delay = if_not_zero c.retry_delay d.retry_delay;
  visibility_timeout = if_not_zero c.visibility_timeout d.visibility_timeout;
  ordered = c.ordered;
  max_ready_size = non_zero c.max_ready_size d.max_ready_size;
}

abbrev pub config_from : Option Wanted → DelayQueueConfig
config_from none = default_delay_queue_config
config_from (some c) = merge_config c default_delay_queue_config

unfoldable pub new_delay_queue : Option Wanted → DelayQueue
unfolding merge_config
new_delay_queue wanted = record {
  config = config_from wanted;
  closed = false;
  consumers = [];
  cancelled = [];
}

unfoldable pub zset_key : DelayQueue → Str → Str
zset_key q name = q.config.namespace ++ (codes ":zset:" ++ name)

unfoldable pub hash_key : DelayQueue → Str → Str
hash_key q name = q.config.namespace ++ (codes ":hash:" ++ name)

unfoldable pub dead_key : DelayQueue → Str → Str
dead_key q name = q.config.namespace ++ (codes ":dead:" ++ name)

unfoldable pub processing_key : DelayQueue → Str → Str
processing_key q name = q.config.namespace ++ (codes ":processing:" ++ name)

-- `UnixMilli`, counted from Go's zero time: all scores are shifted by the same number.
abbrev pub unix_milli : ℕ → ℕ
unix_milli t = t / ms

-- `t.Add(d)`; a time before Go's zero time does not occur.
abbrev pub add_duration : ℕ → ℤ → ℕ
add_duration t (pos n) = t + n
add_duration t (negsuc n) = t - suc n

-- The int64 with the bit pattern `n % 2^64`.
unfoldable pub to_int64 : ℕ → ℤ
to_int64 n =
    let bits = n % 2 ^ 64 in if ltb bits (2 ^ 63) then pos bits else negsuc (2 ^ 64 - 1 - bits)

module _ (D : Type 0) where
  pub record DelayTask : Type 0 where
    pub key : Str
    pub content : D
    pub execute_at : ℕ
    pub retry_count : ℕ

  -- `json.Marshal` and `json.Unmarshal` of the envelope, which has the fields of the task.
  pub record Codec : Type 0 where
    pub marshal : DelayTask → Option Str
    pub unmarshal : Str → Option DelayTask

module _ (r : Server) (D : Type 0) (c : Codec D) (q : DelayQueue) where
  abbrev pub fault_of : {A : Type 0} → Outcome Fault A → Outcome DelayError A
  fault_of (good a) = good a
  fault_of (bad e) = bad (failed e)

  abbrev pub call : {A : Type 0} → Turn → r.State → r.State × A → r.State × Outcome DelayError A
  call turn s x = let (s', o) = outcome_of turn.net s x in (s', fault_of o)

  unfoldable pub enqueue_at :
      Turn → Str → Option (DelayTask D) → r.State → r.State × Outcome DelayError (Unit {0})
  unfolding enqueue_script zset_key hash_key
  enqueue_at turn name none s = (s, bad (if q.closed then queue_closed else invalid_task))
  enqueue_at turn name (some task) s =
      if q.closed
      then (s, bad queue_closed)
      else if elim task.key [ [] ↦ true | _ ∷ _ ↦ false ] || is_zero task.execute_at
      then (s, bad invalid_task)
      else elim (c.marshal task) [
        | none ↦ (s, bad marshal_failed)
        | some d ↦ call turn s (
          enqueue_script r (zset_key q name) (hash_key q name) (unix_milli task.execute_at) task.key
              d s,
          tt,
        )
      ]

  -- The task is changed in place: it is the second part of the result.
  unfoldable pub enqueue_with_delay :
      Turn
      → ℕ
      → Str
      → Option (DelayTask D)
      → ℤ
      → r.State
      → r.State × Option (DelayTask D) × Outcome DelayError (Unit {0})
  unfolding enqueue_at
  enqueue_with_delay turn clock name none delay s = (s, none, bad invalid_task)
  enqueue_with_delay turn clock name (some task) delay s =
      let later : DelayTask D = record task { execute_at = add_duration clock delay } in
      let (s', o) = enqueue_at turn name (some later) s in (s', some later, o)

  unfoldable pub removed_some : Outcome DelayError ℕ → Outcome DelayError Bool
  removed_some (bad e) = bad e
  removed_some (good n) = good (ltb 0 n)

  unfoldable pub cancel : Turn → Str → Str → r.State → r.State × Outcome DelayError Bool
  unfolding cancel_script removed_some zset_key processing_key hash_key
  cancel turn name key s =
      if q.closed
      then (s, bad queue_closed)
      else (let (s', o) =
            call turn s
              (cancel_script r (zset_key q name) (processing_key q name) (hash_key q name) key s) in
          (s', removed_some o))

  -- `Length` is the same method.
  unfoldable pub ready_length : Turn → Str → r.State → Outcome DelayError ℕ
  unfolding zset_key
  ready_length turn name s = (call turn s (s, r.zcard (zset_key q name) s)).1

  unfoldable pub processing_length : Turn → Str → r.State → Outcome DelayError ℕ
  unfolding processing_key
  processing_length turn name s = (call turn s (s, r.zcard (processing_key q name) s)).1
