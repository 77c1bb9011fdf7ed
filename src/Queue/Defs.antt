-- ===== src/Queue/Defs.antt =====
-- queue.go: `QueueHandler`, over any server and any way to marshal an item.
use go_cachex.Base.{
  ℕ, zero, suc, ◌+◌, ◌*◌, Option, none, some, List, [], ◌∷◌, ◌++◌, ltb, if◌then◌else◌, ℤ, codes,
}
use go_cachex.Cache.{Str, second}
use go_cachex.Lru.{if_le_zero}
use go_cachex.Lock.{if_not_zero, if_not_empty}
use go_cachex.Redis.{Turn, Fault, Outcome, good, bad, outcome_of}
use go_cachex.Queue.Server.{Server}

pub data QueueType : Type 0 where
  fifo lifo priority_queue delayed : QueueType
  other : Str → QueueType

pub data QueueError : Type 0 where
  marshal_failed unmarshal_failed unsupported : QueueError
  failed : Fault → QueueError

-- Durations are in nanoseconds.
pub record QueueConfig : Type 0 where
  pub max_retries : ℕ
  pub retry_delay : ℕ
  pub batch_size : ℕ

pub record QueueHandler : Type 0 where
  pub config : QueueConfig
  pub namespace : Str

-- `NewQueueHandler`, for the part of the configuration that the model has.
unfoldable pub new_queue_handler : Str → ℤ → ℤ → ℤ → QueueHandler
unfolding if_le_zero
new_queue_handler namespace max_retries retry_delay batch_size = record {
  config = record {
    max_retries = if_le_zero max_retries 3;
    retry_delay = if_le_zero retry_delay 5_000_000_000;
    batch_size = if_le_zero batch_size 10;
  };
  namespace = if_not_empty namespace (codes "queue");
}

abbrev pub type_name : QueueType → Str
type_name fifo = codes "fifo"
type_name lifo = codes "lifo"
type_name priority_queue = codes "priority"
type_name delayed = codes "delayed"
type_name (other s) = s

unfoldable pub queue_key : QueueHandler → Str → QueueType → Str
queue_key q name kind = q.namespace ++ (codes ":queue:" ++ (type_name kind ++ (b':' ∷ name)))

unfoldable pub delay_key : QueueHandler → Str → Str
delay_key q name = q.namespace ++ (codes ":delay:" ++ name)

unfoldable pub failed_key : QueueHandler → Str → Str
failed_key q name = q.namespace ++ (codes ":failed:" ++ name)

module _ (r : Server) (D : Type 0) where
  pub record Item : Type 0 where
    pub id : Str
    pub content : D
    pub priority : r.Score
    pub delay_time : ℕ
    pub created_at : ℕ
    pub retry_count : ℕ

  -- `json.Marshal` and `json.Unmarshal` of an item.
  pub record Codec : Type 0 where
    pub marshal : Item → Option Str
    pub unmarshal : Str → Option Item

module _ (r : Server) (D : Type 0) (c : Codec r D) (q : QueueHandler) where
  abbrev pub fault_of : {A : Type 0} → Outcome Fault A → Outcome QueueError A
  fault_of (good a) = good a
  fault_of (bad e) = bad (failed e)

  -- A call with no result.
  abbrev pub call : Turn → r.State → r.State → r.State × Outcome QueueError (Unit {0})
  call turn s s' = let (t, o) = outcome_of turn.net s (s', tt) in (t, fault_of o)

  -- A call that only reads.
  abbrev pub ask : {A : Type 0} → Turn → r.State → A → Outcome QueueError A
  ask turn s a = fault_of (outcome_of turn.net s (s, a)).1

  -- `fresh` is the number that the snowflake generator gives, `now` the clock in seconds.
  unfoldable pub fill : Str → ℕ → Item r D → Item r D
  fill fresh now item = record item {
    id = if_not_empty item.id fresh;
    created_at = if_not_zero item.created_at now;
  }

  unfoldable pub push :
      Turn
      → ℕ
      → Str
      → QueueType
      → Item r D
      → Str
      → r.State
      → r.State × Outcome QueueError (Unit {0})
  unfolding queue_key delay_key
  push turn now name fifo item d s = call turn s (r.rpush (queue_key q name fifo) d s)
  push turn now name lifo item d s = call turn s (r.lpush (queue_key q name lifo) d s)
  push turn now name priority_queue item d s =
      call turn s (r.zadd (queue_key q name priority_queue) item.priority d s)
  push turn now name delayed item d s =
      call turn s (r.zadd (delay_key q name) (r.of_seconds (now + item.delay_time)) d s)
  push turn now name (other kind) item d s = (s, bad unsupported)

  -- The item is changed in place: it is the second part of the result.
  unfoldable pub enqueue :
      Turn
      → Str
      → ℕ
      → Str
      → QueueType
      → Item r D
      → r.State
      → r.State × Item r D × Outcome QueueError (Unit {0})
  unfolding fill push
  enqueue turn fresh now name kind item s =
      let item' = fill fresh now item in
      elim (c.marshal item') [
        | none ↦ (s, item', bad marshal_failed)
        | some d ↦ let (s', o) = push turn now name kind item' d s in (s', item', o)
      ]

  unfoldable pub decode : Option Str → Outcome QueueError (Option (Item r D))
  decode none = good none
  decode (some d) = elim (c.unmarshal d) [
    | none ↦ bad unmarshal_failed
    | some item ↦ good (some item)
  ]

  unfoldable pub decoded : Outcome QueueError (Option Str) → Outcome QueueError (Option (Item r D))
  unfolding decode
  decoded (bad e) = bad e
  decoded (good o) = decode o

  -- `BLPop` with a timeout, or `LPop`; `waited` is what happens while the call blocks.
  unfoldable pub pop :
      Turn
      → ℕ
      → (r.State → r.State)
      → Str
      → r.State
      → r.State × Outcome QueueError (Option (Item r D))
  unfolding decoded
  pop turn timeout waited k s =
      let start = if ltb 0 timeout then waited s else s in
      let (s', o) = outcome_of turn.net start (r.lpop k start) in (s', decoded (fault_of o))

  -- The removal of the item that was read; its error is dropped.
  unfoldable pub take_due :
      Turn
      → (r.State → r.State)
      → Str
      → Outcome QueueError (Option Str)
      → r.State
      → r.State × Outcome QueueError (Option (Item r D))
  unfolding decode
  take_due turn others k (bad e) s = (s, bad e)
  take_due turn others k (good none) s = (s, good none)
  take_due turn others k (good (some d)) s =
      let s' = others s in ((call turn s' (r.zrem k d s')).0, decode (some d))

  -- `others` is what other consumers do between the two calls.
  unfoldable pub process_delayed :
      Turn
      → Turn
      → (r.State → r.State)
      → ℕ
      → Str
      → r.State
      → r.State × Outcome QueueError (Option (Item r D))
  unfolding delay_key take_due
  process_delayed first next others now name s =
      take_due next others (delay_key q name) (ask first s (r.first_due (delay_key q name) now s)) s

  -- The environment of one dequeue: its calls, the clock, and the other clients.
  pub record Moment : Type 0 where
    pub first : Turn
    pub next : Turn
    pub now : ℕ
    pub others : r.State → r.State

  unfoldable pub dequeue_with_timeout :
      Moment → ℕ → Str → QueueType → r.State → r.State × Outcome QueueError (Option (Item r D))
  unfolding pop process_delayed decoded queue_key
  dequeue_with_timeout m timeout name fifo s =
      pop m.first timeout m.others (queue_key q name fifo) s
  dequeue_with_timeout m timeout name lifo s =
      pop m.first timeout m.others (queue_key q name lifo) s
  dequeue_with_timeout m timeout name priority_queue s =
      let (s', o) = outcome_of m.first.net s (r.zpop_max (queue_key q name priority_queue) s) in
      (s', decoded (fault_of o))
  dequeue_with_timeout m timeout name delayed s =
      process_delayed m.first m.next m.others m.now name s
  dequeue_with_timeout m timeout name (other kind) s = (s, bad unsupported)

  unfoldable pub dequeue :
      Moment → Str → QueueType → r.State → r.State × Outcome QueueError (Option (Item r D))
  unfolding dequeue_with_timeout
  dequeue m name kind s = dequeue_with_timeout m (5 * second) name kind s

  unfoldable pub dequeue_non_blocking :
      Moment → Str → QueueType → r.State → r.State × Outcome QueueError (Option (Item r D))
  unfolding dequeue_with_timeout
  dequeue_non_blocking m name kind s = dequeue_with_timeout m 0 name kind s

  -- The script of `batchDequeueLua`: at most `count` pops, until the list is empty.
  unfoldable pub pop_script : ℕ → Str → r.State → r.State × List Str
  pop_script zero k s = (s, [])
  pop_script (suc count) k s =
      let (s', o) = r.lpop k s in
      elim o [ none ↦ (s', []) | some d ↦ let (s'', ds) = pop_script count k s' in (s'', d ∷ ds) ]

  -- Data that does not unmarshal is skipped.
  unfoldable pub decode_all : List Str → List (Item r D)
  decode_all [] = []
  decode_all (d ∷ ds) =
      let rest = decode_all ds in elim (c.unmarshal d) [ none ↦ rest | some item ↦ item ∷ rest ]

  unfoldable pub decoded_all : Outcome QueueError (List Str) → Outcome QueueError (List (Item r D))
  unfolding decode_all
  decoded_all (bad e) = bad e
  decoded_all (good ds) = good (decode_all ds)

  unfoldable pub batch_dequeue_lua :
      Turn → Str → ℕ → r.State → r.State × Outcome QueueError (List (Item r D))
  unfolding pop_script decoded_all
  batch_dequeue_lua turn k count s =
      let (s', o) = outcome_of turn.net s (pop_script count k s) in (s', decoded_all (fault_of o))

  -- The loop for the other kinds: the items so far come back beside an error.
  unfoldable pub batch_loop :
      (ℕ → Moment) → ℕ → Str → QueueType → r.State → r.State × List (Item r D) × Option QueueError
  unfolding dequeue_non_blocking
  batch_loop m zero name kind s = (s, [], none)
  batch_loop m (suc count) name kind s =
      let (s', o) = dequeue_non_blocking (m count) name kind s in
      elim o [
        | bad e ↦ (s', [], some e)
        | good found ↦ elim found [
          | none ↦ (s', [], none)
          | some item ↦
              let (s'', items, e) = batch_loop m count name kind s' in (s'', item ∷ items, e)
        ]
      ]
