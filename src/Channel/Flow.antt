-- ===== src/Channel/Flow.antt =====
-- durable_channel.go: the methods of `DurableChannel` that reach Redis, the worker and the recovery.
use go_cachex.Base.{
  ℕ, zero, suc, ◌+◌, Bool, true, false, ◌&&◌, Option, none, some, [], ◌∷◌, ◌++◌, length, leb,
  if◌then◌else◌,
}
use go_cachex.Cache.{Str}
use go_cachex.Redis.{Turn, Fault, Outcome, good, bad, outcome_of}
use go_cachex.Channel.Server.{Lists}
use go_cachex.Channel.Defs.{
  PersistMode, persist_sync, persist_async, persist_hybrid, unknown_mode, ChannelError,
  channel_closed, context_done, compress_failed, decompress_failed, unknown_persist_mode, no_data,
  blocked, persist_failed, pull_failed, length_failed, Codec, DurableChannel, DurableChannelConfig,
  has_room, put, make_channel, starts_worker,
}

-- What a `select` takes, of the cases that are ready.
pub data Choice : Type 0 where
  buffers channel_ends caller_ends : Choice

-- What becomes of a round of a worker: it goes on, it ends, or it waits for room with a message.
pub data Round (T : Type 0) : Type 0 where
  goes_on ends : Round T
  waits : T → Round T

abbrev pub with_error :
    {A : Type 0} → (Fault → ChannelError) → Outcome Fault A → Outcome ChannelError A
with_error f (good a) = good a
with_error f (bad e) = bad (f e)

abbrev pub smaller : ℕ → ℕ → ℕ
smaller a b = if leb a b then a else b

module _ (r : Lists) (T : Type 0) (z : Codec T) where
  -- The pipeline of the push and of the expiry. The flag says whether its context is one that has ended; what
  -- becomes of the context of a caller or of a job is in the turn.
  unfoldable pub persist_to_redis :
      Turn → Bool → T → DurableChannel T → r.State → r.State × Outcome ChannelError (Unit {0})
  persist_to_redis turn ended x d s = elim (z.compress x) [
    | none ↦ (s, bad compress_failed)
    | some v ↦
        let stored = r.expire d.queue_key d.settings.ttl (r.rpush d.queue_key v s) in
        let net = if ended then r.after_end turn.net else turn.net in
        let (s', o) = outcome_of net s (stored, tt) in (s', with_error persist_failed o)
  ]

  unfoldable pub unpack : Outcome Fault (Option Str) → Outcome ChannelError T
  unpack (bad e) = bad (pull_failed e)
  unpack (good none) = bad no_data
  unpack (good (some v)) = elim (z.decompress v) [ none ↦ bad decompress_failed | some x ↦ good x ]

  -- `BLPop`, as it finds the list when it returns, or `LPop`.
  unfoldable pub pull_from_redis :
      Turn → DurableChannel T → r.State → r.State × Outcome ChannelError T
  unfolding unpack
  pull_from_redis turn d s =
      let (s', o) = outcome_of turn.net s (r.lpop d.queue_key s) in (s', unpack o)

  -- The `select` of `PersistAsync`, which waits until a case is ready; `accepted` says whether the pool
  -- takes the message, to persist it later.
  unfoldable pub send_async :
      Choice → Bool → T → DurableChannel T → DurableChannel T × Outcome ChannelError (Unit {0})
  unfolding has_room put
  send_async buffers accepted x d =
      if has_room T d
      then (record (put T x d) { jobs = if accepted then d.jobs ++ x ∷ [] else d.jobs }, good tt)
      else (d, bad blocked)
  send_async channel_ends accepted x d = (d, bad (if d.cancelled then channel_closed else blocked))
  send_async caller_ends accepted x d = (d, bad context_done)

  -- The `select` of `PersistHybrid`, which does not wait; `ends` prefers the end of the channel.
  unfoldable pub send_memory :
      Bool → T → DurableChannel T → DurableChannel T × Outcome ChannelError (Unit {0})
  unfolding has_room put
  send_memory prefers_end x d =
      if d.closed
      then (d, bad channel_closed)
      else if d.cancelled && prefers_end
      then (d, bad channel_closed)
      else if has_room T d
      then (put T x d, good tt)
      else (d, if d.cancelled then bad channel_closed else good tt)

  -- `others` is what happens to the channel while Redis is asked or the lock is waited for.
  unfoldable pub send_by :
      PersistMode
      → Turn
      → (DurableChannel T → DurableChannel T)
      → Choice
      → Bool
      → T
      → DurableChannel T
      → r.State
      → DurableChannel T × r.State × Outcome ChannelError (Unit {0})
  unfolding persist_to_redis send_async send_memory
  send_by persist_sync turn others choice flag x d s =
      let (s', o) = persist_to_redis turn false x d s in (others d, s', o)
  send_by persist_async turn others choice flag x d s =
      let g = others d in
      if g.closed
      then (g, s, bad channel_closed)
      else (let (d', o) = send_async choice flag x g in (d', s, o))
  send_by persist_hybrid turn others choice flag x d s =
      let (s', o) = persist_to_redis turn false x d s in
      elim o [
        | bad e ↦ (others d, s', bad e)
        | good _ ↦ let (d', o') = send_memory flag x (others d) in (d', s', o')
      ]
  send_by unknown_mode turn others choice flag x d s = (d, s, bad unknown_persist_mode)

  unfoldable pub send :
      Turn
      → (DurableChannel T → DurableChannel T)
      → Choice
      → Bool
      → T
      → DurableChannel T
      → r.State
      → DurableChannel T × r.State × Outcome ChannelError (Unit {0})
  unfolding send_by
  send turn others choice flag x d s =
      if d.closed then (d, s, bad channel_closed) else send_by d.mode turn others choice flag x d s

  -- A job of the persistence pool; its error is logged.
  unfoldable pub run_job : Turn → DurableChannel T → r.State → DurableChannel T × r.State
  unfolding persist_to_redis
  run_job turn d s = elim d.jobs [
    | [] ↦ (d, s)
    | x ∷ rest ↦ (record d { jobs = rest }, (persist_to_redis turn false x d s).0)
  ]

  -- The second half of a round: the message goes to the buffer, or back to Redis at the end, by a call that
  -- carries the context of the channel.
  unfoldable pub offer :
      Turn → Bool → T → DurableChannel T → r.State → DurableChannel T × r.State × Round T
  unfolding has_room put persist_to_redis
  offer turn prefers_end x d s =
      if d.cancelled && prefers_end
      then (d, (persist_to_redis turn d.cancelled x d s).0, ends)
      else if has_room T d
      then (put T x d, s, goes_on)
      else if d.cancelled
      then (d, (persist_to_redis turn d.cancelled x d s).0, ends)
      else (d, s, waits x)

  -- One round of `startWorker`; `others` is what happens to the channel while the worker waits.
  unfoldable pub worker_round :
      Turn
      → Turn
      → (DurableChannel T → DurableChannel T)
      → Bool
      → DurableChannel T
      → r.State
      → DurableChannel T × r.State × Round T
  unfolding pull_from_redis offer
  worker_round pulls returns others prefers_end d s =
      if d.cancelled
      then (d, s, ends)
      else (let (s', o) = pull_from_redis pulls d s in
          let g = others d in
          elim o [
            | bad no_data ↦ (g, s', goes_on)
            | bad _ ↦ (g, s', if g.cancelled then ends else goes_on)
            | good x ↦ offer returns prefers_end x g s'
          ])

  -- The loop of the recovery, for the rounds that are left; the calls are counted down.
  unfoldable pub recover_loop :
      (ℕ → Turn × Turn) → ℕ → DurableChannel T → r.State → DurableChannel T × r.State
  unfolding pull_from_redis has_room put persist_to_redis
  recover_loop turns zero d s = (d, s)
  recover_loop turns (suc n) d s =
      let (s', o) = pull_from_redis (turns n).0 d s in
      elim o [
        | bad _ ↦ (d, s')
        | good x ↦ elim (has_room T d) [
          | true ↦ recover_loop turns n (put T x d) s'
          | false ↦ (d, (persist_to_redis (turns n).1 d.cancelled x d s').0)
        ]
      ]

  unfoldable pub recover_messages :
      Turn → (ℕ → Turn × Turn) → DurableChannel T → r.State → DurableChannel T × r.State
  unfolding recover_loop
  recover_messages asks turns d s =
      if d.cancelled then (d, s) else elim (outcome_of asks.net s (s, r.llen d.queue_key s)).1 [
        | bad _ ↦ (d, s)
        | good n ↦ recover_loop turns (smaller n d.settings.buffer_size) d s
      ]

  -- With the recovery; the workers that it starts are counted by the settings.
  unfoldable pub new_durable_channel :
      DurableChannelConfig
      → Turn
      → (ℕ → Turn × Turn)
      → r.State
      → Option (DurableChannel T × r.State)
  unfolding make_channel recover_messages
  new_durable_channel c asks turns s = elim (make_channel T c) [
    | none ↦ none
    | some d ↦ some (
        if c.recovery_on_start && starts_worker c.persistence_mode
        then recover_messages asks turns d s
        else (d, s))
  ]

  unfoldable pub redis_len : Turn → DurableChannel T → r.State → Outcome ChannelError ℕ
  redis_len turn d s = with_error length_failed (outcome_of turn.net s (s, r.llen d.queue_key s)).1

  unfoldable pub total_len : Turn → DurableChannel T → r.State → Outcome ChannelError ℕ
  unfolding redis_len
  total_len turn d s = elim (redis_len turn d s) [
    | bad e ↦ bad e
    | good n ↦ good (length d.buffer + n)
  ]
