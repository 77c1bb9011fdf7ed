-- ===== src/DeadLetters/Defs.antt =====
-- dead_letter_queue.go: `deadLetterQueueImpl`, over a `QueueHandler`. The thresholds are shares of the
-- greatest size as floats; the numbers that they come to are given here.
use go_cachex.Base.{
  ℕ, zero, suc, ◌-◌, Bool, not, Option, none, some, List, [], ◌∷◌, ltb, leb, if◌then◌else◌, ℤ, pos,
  negsuc,
}
use go_cachex.Cache.{Str}
use go_cachex.Lru.{if_le_zero}
use go_cachex.Redis.{Turn, Outcome, good, bad}
use go_cachex.Queue.Server.{Server}
use go_cachex.Queue.Defs.{Item, Codec, Moment, QueueHandler, QueueError, fifo, enqueue, dequeue}
use go_cachex.Queue.Views.{queue_length, batch_dequeue, peek}
use go_cachex.Queue.Views

pub data AlertLevel : Type 0 where
  info warning error critical : AlertLevel

-- Without the message and the time.
pub record AlertEvent : Type 0 where
  pub level : AlertLevel
  pub queue_key : Str
  pub length : ℕ
  pub max_size : ℕ
  pub threshold : ℕ

pub record DeadLetterQueue : Type 0 where
  pub queue_handler : QueueHandler
  pub max_size : ℕ
  pub has_callback : Bool
  pub warning_threshold : ℕ
  pub error_threshold : ℕ
  pub critical_threshold : ℕ

-- `scaled` gives `int64(float64(maxSize) * pct)` for the share of each level, which is its default where
-- the configured share is not positive.
unfoldable pub new_dead_letter_queue :
    QueueHandler → ℤ → Bool → (AlertLevel → ℕ → ℕ) → DeadLetterQueue
unfolding if_le_zero
new_dead_letter_queue q max_size has_callback scaled =
    let n = if_le_zero max_size 1000 in
    record {
      queue_handler = q;
      max_size = n;
      has_callback = has_callback;
      warning_threshold = scaled warning n;
      error_threshold = scaled error n;
      critical_threshold = scaled critical n;
    }

unfoldable pub set_alert_callback : Bool → DeadLetterQueue → DeadLetterQueue
set_alert_callback has_callback d = record d { has_callback = has_callback }

-- A share that is not between 0 and 1 is `none`, and leaves its threshold.
unfoldable pub set_alert_thresholds :
    Option ℕ → Option ℕ → Option ℕ → DeadLetterQueue → DeadLetterQueue
set_alert_thresholds w e c d = record d {
  warning_threshold = elim w [ none ↦ d.warning_threshold | some n ↦ n ];
  error_threshold = elim e [ none ↦ d.error_threshold | some n ↦ n ];
  critical_threshold = elim c [ none ↦ d.critical_threshold | some n ↦ n ];
}

-- The event that `checkAndAlert` hands to the callback, if any.
unfoldable pub check_and_alert : Str → ℕ → DeadLetterQueue → Option AlertEvent
check_and_alert key n d =
    let event = λ (level : AlertLevel) (threshold : ℕ).
      let e : AlertEvent = record {
        level = level;
        queue_key = key;
        length = n;
        max_size = d.max_size;
        threshold = threshold;
      } in
      some e in
    if not d.has_callback
    then none
    else if leb d.critical_threshold n
    then event critical d.critical_threshold
    else if leb d.error_threshold n
    then event error d.error_threshold
    else if leb d.warning_threshold n
    then event warning d.warning_threshold
    else none

pub data DeadLetterError : Type 0 where
  data_is_nil : DeadLetterError
  failed : QueueError → DeadLetterError

module _ (r : Server) (D : Type 0) (c : Codec r D) (d : DeadLetterQueue) where
  -- The removals of the oldest items; their results are dropped.
  unfoldable pub drop_oldest : (ℕ → Moment r D c d.queue_handler) → ℕ → Str → r.State → r.State
  drop_oldest m zero key s = s
  drop_oldest m (suc n) key s =
      drop_oldest m n key (dequeue r D c d.queue_handler (m n) key fifo s).0

  -- The check of the length and the alert, after the item has been stored.
  unfoldable pub keep_size :
      (ℕ → Moment r D c d.queue_handler)
      → Str
      → Outcome QueueError ℕ
      → r.State
      → r.State × Option AlertEvent × Outcome DeadLetterError (Unit {0})
  unfolding drop_oldest check_and_alert
  keep_size m key (bad e) s = (s, none, bad (failed e))
  keep_size m key (good n) s = (
    if ltb d.max_size n then drop_oldest m (n - d.max_size) key s else s,
    check_and_alert key n d,
    good tt,
  )

  -- The item that `Push` makes; `fresh` is the identifier, `now` the clock in seconds.
  unfoldable pub wrap : Str → ℕ → r.Score → D → Item r D
  wrap fresh now zero_score content = record {
    id = fresh;
    content = content;
    priority = zero_score;
    delay_time = 0;
    created_at = now;
    retry_count = 0;
  }

  -- `first` and `next` are the calls of `Enqueue` and `Length`, and `others` is what other clients do
  -- between them.
  unfoldable pub push :
      Turn
      → Turn
      → (r.State → r.State)
      → (ℕ → Moment r D c d.queue_handler)
      → Bool
      → Str
      → ℕ
      → r.Score
      → D
      → Str
      → r.State
      → r.State × Option AlertEvent × Outcome DeadLetterError (Unit {0})
  unfolding keep_size wrap
  push first next others m is_nil fresh now zero_score content key s =
      if is_nil
      then (s, none, bad data_is_nil)
      else (let (s', _, o) =
            enqueue r D c d.queue_handler first fresh now key fifo
              (wrap fresh now zero_score content) s in
          elim o [
            | bad e ↦ (s', none, bad (failed e))
            | good _ ↦
                let t = others s' in
                keep_size m key (queue_length r D c d.queue_handler next key fifo t) t
          ])

  -- `as_type` is the type assertion, or the way through JSON; what does not fit is skipped.
  unfoldable pub contents_of : {T : Type 0} → (D → Option T) → List (Item r D) → List T
  contents_of as_type [] = []
  contents_of as_type (i ∷ l) =
      let rest = contents_of as_type l in
      elim (as_type i.content) [ none ↦ rest | some t ↦ t ∷ rest ]

  unfoldable pub get_items :
      {T : Type 0} → (D → Option T) → Turn → Str → ℤ → r.State → Outcome DeadLetterError (List T)
  unfolding contents_of if_le_zero
  get_items as_type turn key count s =
      elim (peek r D c d.queue_handler turn key fifo (pos (if_le_zero count 10)) s) [
        | bad e ↦ bad (failed e)
        | good l ↦ good (contents_of as_type l)
      ]

  unfoldable pub get_length : Turn → Str → r.State → Outcome DeadLetterError ℕ
  get_length turn key s = elim (queue_length r D c d.queue_handler turn key fifo s) [
    | bad e ↦ bad (failed e)
    | good n ↦ good n
  ]

  unfoldable pub remove :
      Turn
      → (ℕ → Moment r D c d.queue_handler)
      → Str
      → ℤ
      → r.State
      → r.State × Outcome DeadLetterError (Unit {0})
  remove turn m key (negsuc n) s = (s, good tt)
  remove turn m key (pos zero) s = (s, good tt)
  remove turn m key (pos (suc n)) s =
      let (s', _, e) = batch_dequeue r D c d.queue_handler turn m key fifo (pos (suc n)) s in
      (s', elim e [ none ↦ good tt | some x ↦ bad (failed x) ])

  unfoldable pub clear : Turn → Str → r.State → r.State × Outcome DeadLetterError (Unit {0})
  clear turn key s =
      let (s', o) = Views.clear r D c d.queue_handler turn key fifo s in
      (s', elim o [ good _ ↦ good tt | bad e ↦ bad (failed e) ])
