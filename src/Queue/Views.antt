-- ===== src/Queue/Views.antt =====
-- queue.go: `BatchDequeue`, the methods that look at a queue, `Clear`, and the retries.
use go_cachex.Base.{
  ℕ, ◌+◌, ◌/◌, Bool, true, false, Option, none, some, List, [], ◌∷◌, ite, ltb, leb, ◌==◌,
  if◌then◌else◌, ℤ,
}
use go_cachex.Cache.{Str, dec_str, second}
use go_cachex.Lru.{if_le_zero}
use go_cachex.Redis.{Turn, Outcome, good, bad}
use go_cachex.Queue.Server.{Server}
use go_cachex.Queue.Defs.{
  QueueType, fifo, lifo, priority_queue, delayed, other, QueueError, unsupported, QueueHandler,
  Item, Codec, Moment, queue_key, delay_key, failed_key, call, ask, enqueue, batch_dequeue_lua,
  batch_loop, decoded_all,
}

-- `itemID == item.ID` for one of the items.
unfoldable pub has_id : {r : Server} {D : Type 0} → Str → List (Item r D) → Bool
has_id k [] = false
has_id k (item ∷ items) = ite (dec_str item.id k) true (has_id k items)

abbrev pub max_contains : ℕ
max_contains = 1000

module _ (r : Server) (D : Type 0) (c : Codec r D) (q : QueueHandler) where
  -- An empty read of the failed items; `json.Marshal` of an item that cannot be marshalled is empty.
  abbrev pub marshalled : Item r D → Str
  marshalled item = elim (c.marshal item) [ none ↦ [] | some d ↦ d ]

  -- The items, and the error that stopped the loop.
  unfoldable pub lua_result :
      r.State × Outcome QueueError (List (Item r D)) → r.State × List (Item r D) × Option QueueError
  lua_result (s, good items) = (s, items, none)
  lua_result (s, bad e) = (s, [], some e)

  unfoldable pub batch_dequeue :
      Turn
      → (ℕ → Moment r D c q)
      → Str
      → QueueType
      → ℤ
      → r.State
      → r.State × List (Item r D) × Option QueueError
  unfolding lua_result batch_dequeue_lua batch_loop queue_key if_le_zero
  batch_dequeue turn m name fifo count s = lua_result (
      batch_dequeue_lua r D c q turn (queue_key q name fifo) (if_le_zero count q.config.batch_size)
        s)
  batch_dequeue turn m name lifo count s = lua_result (
      batch_dequeue_lua r D c q turn (queue_key q name lifo) (if_le_zero count q.config.batch_size)
        s)
  batch_dequeue turn m name priority_queue count s =
      batch_loop r D c q m (if_le_zero count q.config.batch_size) name priority_queue s
  batch_dequeue turn m name delayed count s =
      batch_loop r D c q m (if_le_zero count q.config.batch_size) name delayed s
  batch_dequeue turn m name (other kind) count s =
      batch_loop r D c q m (if_le_zero count q.config.batch_size) name (other kind) s

  unfoldable pub queue_length : Turn → Str → QueueType → r.State → Outcome QueueError ℕ
  unfolding queue_key delay_key
  queue_length turn name fifo s = ask r D c q turn s (r.llen (queue_key q name fifo) s)
  queue_length turn name lifo s = ask r D c q turn s (r.llen (queue_key q name lifo) s)
  queue_length turn name priority_queue s =
      ask r D c q turn s (r.zcard (queue_key q name priority_queue) s)
  queue_length turn name delayed s = ask r D c q turn s (r.zcard (delay_key q name) s)
  queue_length turn name (other kind) s = bad unsupported

  -- What `Peek` reads of the server.
  unfoldable pub peek_raw : Turn → Str → QueueType → ℕ → r.State → Outcome QueueError (List Str)
  unfolding queue_key delay_key
  peek_raw turn name fifo n s = ask r D c q turn s (r.lrange (queue_key q name fifo) n s)
  peek_raw turn name lifo n s = ask r D c q turn s (r.lrange (queue_key q name lifo) n s)
  peek_raw turn name priority_queue n s =
      ask r D c q turn s (r.zrev_range (queue_key q name priority_queue) n s)
  peek_raw turn name delayed n s = ask r D c q turn s (r.zrange (delay_key q name) n s)
  peek_raw turn name (other kind) n s = bad unsupported

  unfoldable pub peek : Turn → Str → QueueType → ℤ → r.State → Outcome QueueError (List (Item r D))
  unfolding peek_raw decoded_all if_le_zero
  peek turn name kind count s = decoded_all r D c q (peek_raw turn name kind (if_le_zero count 1) s)

  unfoldable pub clear : Turn → Str → QueueType → r.State → r.State × Outcome QueueError (Unit {0})
  unfolding queue_key delay_key
  clear turn name fifo s = call r D c q turn s (r.del (queue_key q name fifo) s)
  clear turn name lifo s = call r D c q turn s (r.del (queue_key q name lifo) s)
  clear turn name priority_queue s = call r D c q turn s (r.del (queue_key q name priority_queue) s)
  clear turn name delayed s =
      call r D c q turn s (r.del (delay_key q name) (r.del (queue_key q name delayed) s))
  clear turn name (other kind) s = call r D c q turn s (r.del (queue_key q name (other kind)) s)

  unfoldable pub contains_among :
      Str → Outcome QueueError (List (Item r D)) → Outcome QueueError Bool
  unfolding has_id
  contains_among k (bad e) = bad e
  contains_among k (good items) = good (has_id k items)

  -- `Contains`; other clients may act between the two calls, so each has its state.
  unfoldable pub contains :
      Turn → Turn → Str → QueueType → Str → r.State → r.State → Outcome QueueError Bool
  unfolding queue_length peek_raw contains_among decoded_all
  contains first next name kind k s later = elim (queue_length first name kind s) [
    | bad e ↦ bad e
    | good n ↦
        if n == 0
        then good false
        else contains_among k (
            decoded_all r D c q
              (peek_raw next name kind (if ltb max_contains n then max_contains else n) later))
  ]

  -- The item is changed in place: it is the second part of the result.
  unfoldable pub retry_failed :
      Turn
      → Str
      → ℕ
      → Str
      → QueueType
      → Item r D
      → r.State
      → r.State × Item r D × Outcome QueueError (Unit {0})
  unfolding enqueue failed_key
  retry_failed turn fresh now name kind item s =
      if leb q.config.max_retries item.retry_count
      then (let (s', o) = call r D c q turn s (r.lpush (failed_key q name) (marshalled item) s) in
          (s', item, o))
      else enqueue r D c q turn fresh now name delayed
          (record item {
            retry_count = item.retry_count + 1;
            delay_time = q.config.retry_delay / second;
          })
          s
