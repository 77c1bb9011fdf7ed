-- ===== src/Delay/Tests.antt =====
-- delay_queue.go over a server in memory, with tasks whose text is their time, their count and their key.
use go_cachex.Base.{
  ℕ, ◌≡◌, ◌≢◌, ◌⊎◌, ◌+◌, ◌*◌, refl, ap, true, false, none, some, Option, List, [], ◌∷◌, arith,
}
use go_cachex.Cache.{Str, dec_str, head_of}
use go_cachex.Table.{lookup, delete, assign}
use go_cachex.Redis.{Turn, delivered, good, bad, ms}
use go_cachex.Delay.Memory.{Store, empty_store, memory, memory_server, due_members, is_known}
use go_cachex.Delay.Defs.{
  DelayQueue, DelayTask, Codec, new_delay_queue, task_not_found, zset_key, hash_key, processing_key,
  dead_key, enqueue_at, unix_milli,
}
use go_cachex.Delay.Tasks.{poll_expired, dequeue_expired, requeue_stale, ack, get_task}
use go_cachex.Delay.Consumer.{Moment, handle_task, start_consumer, stop_consumer, stop}
use go_cachex.Delay.Calls.{IsCodec, Call, enqueues, acks, polls, requeues, perform_all}
use go_cachex.Delay.Safety.{enqueue_at-kept}
use go_cachex.Delay.Leases.{Coded, NoneFor}
use go_cachex.Delay.Held.{enqueue_at-Coded, poll_expired-excludes}
use go_cachex.Delay.Losses.{poll_expired_splits, ack-loses_rescheduled, handle_task-closed_loses}
use go_cachex.Delay.Starts.{start_consumer_twice}

-- What a test has to compute with.
program : Unit {0}
unfolding new_delay_queue zset_key hash_key processing_key dead_key enqueue_at poll_expired
    start_consumer stop due_members is_known lookup delete assign dec_str
program = tt

abbrev task_of : Str → ℕ → DelayTask (Unit {0})
task_of k t = record { key = k; content = tt; execute_at = t; retry_count = 0 }

abbrev write : DelayTask (Unit {0}) → Str
write t = t.execute_at ∷ t.retry_count ∷ t.key

abbrev read : Str → Option (DelayTask (Unit {0}))
read (a ∷ n ∷ k) = some (record { key = k; content = tt; execute_at = a; retry_count = n })
read _ = none

abbrev codec : Codec (Unit {0})
codec = record { marshal = λ t. some (write t); unmarshal = read }

abbrev codec-IsCodec : IsCodec (Unit {0}) codec
codec-IsCodec = record { encode = write; marshal_lem = λ t. refl; unmarshal_lem = λ t. refl }

abbrev queue : DelayQueue
queue = new_delay_queue none

abbrev name : Str
name = 5 ∷ []

abbrev served : Turn
served = record { net = delivered; at = 0 }

abbrev task_1 : DelayTask (Unit {0})
task_1 = task_of (1 ∷ []) (7 * ms)

abbrev task_2 : DelayTask (Unit {0})
task_2 = task_of (2 ∷ []) (8 * ms)

abbrev start : Store
start = (enqueue_at memory (Unit {0}) codec queue served name (some task_1) empty_store).0

abbrev calls : List (Call (Unit {0}))
calls =
    polls served (9 * ms) (9 * ms)
    ∷ enqueues served task_2
    ∷ acks served (2 ∷ [])
    ∷ requeues served (10 * ms)
    ∷ []

stored_1 :
    (enqueue_at memory (Unit {0}) codec queue served name (some task_1) empty_store).1 ≡ good tt
unfolding program
stored_1 = refl

other_key : task_1.key ≢ task_2.key
other_key e = absurd (omega (arith, ap (head_of 0) e))

enqueue_at-kept_example :
    let s' = (perform_all memory (Unit {0}) codec queue name calls start).0 in
    (get_task memory (Unit {0}) codec queue served name (1 ∷ []) s' ≡ good task_1)
    × (((t : ℕ) × (memory.score (zset_key queue name) (1 ∷ []) s' ≡ some t))
        ⊎ ((t : ℕ) × (memory.score (processing_key queue name) (1 ∷ []) s' ≡ some t)))
enqueue_at-kept_example =
    enqueue_at-kept memory memory_server (Unit {0}) codec codec-IsCodec queue name served served
      task_1 calls empty_store stored_1 (tt, (other_key, (other_key, (tt, tt)))) refl

start-Coded :
    Coded memory memory_server (Unit {0}) codec codec-IsCodec queue (hash_key queue name) start
start-Coded =
    enqueue_at-Coded memory memory_server (Unit {0}) codec codec-IsCodec queue name served task_1
      empty_store (λ m d at. absurd (cc at))

polled :
    (poll_expired memory (Unit {0}) codec queue served (9 * ms) (9 * ms) name start).1
    ≡ good (task_1 ∷ [])
unfolding program
polled = refl

abbrev later_calls : List (Call (Unit {0}))
later_calls = polls served (300_000 * ms) (300_000 * ms) ∷ requeues served (10 * ms) ∷ []

poll_expired-excludes_example :
    let x = poll_expired memory (Unit {0}) codec queue served (9 * ms) (9 * ms) name start in
    let y = perform_all memory (Unit {0}) codec queue name later_calls x.0 in
    let until = unix_milli (9 * ms + queue.config.visibility_timeout) in
    NoneFor memory memory_server (Unit {0}) codec codec-IsCodec queue (1 ∷ []) y.1
    × (memory.score (processing_key queue name) (1 ∷ []) y.0 ≡ some until)
    × (memory.score (zset_key queue name) (1 ∷ []) y.0 ≡ none)
unfolding program
poll_expired-excludes_example =
    poll_expired-excludes memory memory_server (Unit {0}) codec codec-IsCodec queue name served
      (9 * ms) (9 * ms) start [] task_1 [] later_calls start-Coded polled (tt, (tt, tt))
      (omega arith, (omega arith, tt))

poll_expired_splits_example :
    poll_expired memory (Unit {0}) codec queue served (9 * ms) (9 * ms) name start
    ≡ dequeue_expired memory
        (Unit {0})
        codec
        queue
        served
        (9 * ms)
        (9 * ms)
        name
        (requeue_stale memory (Unit {0}) codec queue served (9 * ms) name start).0
poll_expired_splits_example =
    poll_expired_splits memory (Unit {0}) codec queue name served (9 * ms) (9 * ms) start refl

abbrev working : Store
working = (poll_expired memory (Unit {0}) codec queue served (9 * ms) (9 * ms) name start).0

runs_1 :
    memory.score (processing_key queue name) (1 ∷ []) working
    ≡ some (unix_milli (9 * ms + queue.config.visibility_timeout))
unfolding program
runs_1 = refl

again : (enqueue_at memory (Unit {0}) codec queue served name (some task_1) working).1 ≡ good tt
unfolding program
again = refl

ack-loses_rescheduled_example :
    let s = (enqueue_at memory (Unit {0}) codec queue served name (some task_1) working).0 in
    let s' = (ack memory (Unit {0}) codec queue served name (1 ∷ []) s).0 in
    (memory.score (zset_key queue name) (1 ∷ []) s' ≡ some (unix_milli task_1.execute_at))
    × (memory.field (hash_key queue name) (1 ∷ []) s' ≡ none)
    × (get_task memory (Unit {0}) codec queue served name (1 ∷ []) s' ≡ bad task_not_found)
ack-loses_rescheduled_example =
    ack-loses_rescheduled memory memory_server (Unit {0}) codec codec-IsCodec queue name served
      served served task_1 (unix_milli (9 * ms + queue.config.visibility_timeout)) working runs_1
      again refl refl

abbrev stopped : DelayQueue
stopped = stop queue

abbrev moment : Moment memory (Unit {0}) codec stopped
moment = record {
  first = served;
  next = served;
  clock = 9 * ms;
  others = λ s. s;
  accepted = true;
  ended = false;
}

away_1 : memory.score (zset_key stopped name) (1 ∷ []) working ≡ none
unfolding program
away_1 = refl

runs_stopped :
    memory.score (processing_key stopped name) (1 ∷ []) working
    ≡ some (unix_milli (9 * ms + queue.config.visibility_timeout))
unfolding program
runs_stopped = refl

closed_1 : stopped.closed ≡ true
unfolding program
closed_1 = refl

handle_task-closed_loses_example :
    let s' =
      handle_task memory
        (Unit {0})
        codec
        stopped
        moment
        name
        (λ t. (t, false))
        3
        5
        task_1
        working in
    (memory.score (processing_key stopped name) (1 ∷ []) s' ≡ none)
    × (memory.score (zset_key stopped name) (1 ∷ []) s' ≡ none)
    × (memory.field (hash_key stopped name) (1 ∷ []) s' ≡ none)
    × (memory.items (dead_key stopped name) s' ≡ memory.items (dead_key stopped name) working)
handle_task-closed_loses_example =
    handle_task-closed_loses memory memory_server (Unit {0}) codec codec-IsCodec stopped name moment
      (λ t. (t, false)) 3 5 (unix_milli (9 * ms + queue.config.visibility_timeout)) task_1 working
      closed_1 refl (λ g. refl) refl (omega arith) runs_stopped away_1

free : lookup name queue.consumers ≡ none
unfolding program
free = refl

open_queue : queue.closed ≡ false
unfolding program
open_queue = refl

start_consumer_twice_example :
    let rival = λ (g : DelayQueue). start_consumer (λ g'. g') 2 name g in
    let x = start_consumer (λ g. (rival g).0) 1 name queue in
    ((rival queue).1 ≡ none)
    × (x.1 ≡ none)
    × (lookup name x.0.consumers ≡ some 1)
    × ((stop_consumer name x.0).cancelled ≡ 1 ∷ queue.cancelled)
start_consumer_twice_example = start_consumer_twice 1 2 name queue open_queue free
