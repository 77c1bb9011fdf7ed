-- ===== src/Channel/Losses.antt =====
-- durable_channel.go: a message that comes twice, one that is lost, and reads after the end.
use go_cachex.Base.{
  ◌<◌, ◌≡◌, refl, ap, ◌∙◌, true, false, none, some, [], ◌∷◌, ◌++◌, length, arith, ltb, lt→ltb,
}
use go_cachex.Redis.{Turn, delivered, good}
use go_cachex.Channel.Server.{Lists, IsLists}
use go_cachex.Channel.Defs.{
  persist_hybrid, Codec, DurableChannel, has_room, put, try_receive, close,
}
use go_cachex.Channel.Flow.{buffers, persist_to_redis, send, worker_round}
use go_cachex.Channel.Order.{IsCodec}
use go_cachex.Channel.Rounds.{persist-served, offer-room, round-first}

module _ (r : Lists) (laws : IsLists r) (T : Type 0) (z : Codec T) (codec : IsCodec T z) where
  room-lem :
      (d : DurableChannel T) → d.buffer ≡ [] → 0 < d.settings.buffer_size → has_room T d ≡ true
  unfolding has_room
  room-lem d none_yet room =
      ap (λ b. ltb (length b) d.settings.buffer_size) none_yet ∙ lt→ltb _ _ room

  send-hybrid :
      (turn : Turn) (x : T) (d : DurableChannel T) (s : r.State)
      → d.mode ≡ persist_hybrid
      → d.closed ≡ false
      → d.cancelled ≡ false
      → has_room T d ≡ true
      → (persist_to_redis r T z turn false x d s).1 ≡ good tt
      → send r T z turn (λ g. g) buffers false x d s
        ≡ (put T x d, (persist_to_redis r T z turn false x d s).0, good tt)
  unfolding send
  send-hybrid turn x d s mode up runs room stored = ground arith

  take-first :
      (x : T) (d : DurableChannel T)
      → d.buffer ≡ []
      → try_receive T false (put T x d) ≡ (record d { buffer = [] }, some (some x))
  unfolding try_receive put
  take-first x d none_yet = ground arith

  -- The buffer of a worker that pulls the only message into an empty buffer.
  round-receive :
      (turn : Turn) (x : T) (d : DurableChannel T) (s : r.State)
      → d.cancelled ≡ false
      → turn.net ≡ delivered
      → d.buffer ≡ []
      → 0 < d.settings.buffer_size
      → r.items d.queue_key s ≡ codec.encode x ∷ []
      → (try_receive T false (worker_round r T z turn turn (λ g. g) false d s).0).1 ≡ some (some x)
  round-receive turn x d s runs served none_yet room stored =
      let (shown, left) = round-first r laws T z codec turn x [] d s runs served stored in
      let s' = (r.lpop d.queue_key s).0 in
      ap (λ y. (try_receive T false y.0).1)
        (shown ∙ offer-room r laws T z codec turn x d s' runs (room-lem d none_yet room))
      ∙ ap (λ y. y.1) (take-first x d none_yet)

  -- A message that is sent in the hybrid mode is received twice, if nothing is in the buffer or in Redis, the
  -- buffer has room, the calls are served and the message is received before the worker's next round: it
  -- goes to Redis and to the buffer, and after it has been received, the worker pulls it from Redis into
  -- the buffer again.
  pub send-hybrid_twice :
      (turn turn' : Turn) (x : T) (d : DurableChannel T) (s : r.State)
      → d.mode ≡ persist_hybrid
      → d.closed ≡ false
      → d.cancelled ≡ false
      → d.buffer ≡ []
      → 0 < d.settings.buffer_size
      → 0 < d.settings.ttl
      → r.items d.queue_key s ≡ []
      → turn.net ≡ delivered
      → turn'.net ≡ delivered
      → let y = send r T z turn (λ g. g) buffers false x d s in
        let (d', o) = try_receive T false y.0 in
        let w = worker_round r T z turn' turn' (λ g. g) false d' y.1 in
        (y.2 ≡ good tt) × (o ≡ some (some x)) × ((try_receive T false w.0).1 ≡ some (some x))
  send-hybrid_twice turn turn' x d s mode up runs none_yet room lives none_there served served' =
      let (fine, stored) = persist-served r laws T z codec turn x d s served lives in
      let s' = (persist_to_redis r T z turn false x d s).0 in
      let sent = send-hybrid turn x d s mode up runs (room-lem d none_yet room) fine in
      let first = take-first x d none_yet in
      let received = ap (λ y. try_receive T false y.0) sent ∙ first in
      (
        ap (λ y. y.2) sent,
        ap (λ y. y.1) received,
        ap
              (λ y.
                (try_receive T false
                  (worker_round r T z turn' turn' (λ g. g) false (try_receive T false y.0).0
                    y.1).0).1)
              sent
            ∙ ap
                (λ y.
                  (try_receive T false (worker_round r T z turn' turn' (λ g. g) false y.0 s').0).1)
                first
            ∙ round-receive turn' x (record d { buffer = [] }) s' runs served' refl room
                (stored ∙ ap (λ l. l ++ codec.encode x ∷ []) none_there),
      )

module _ (T : Type 0) where
  -- After Close, TryReceive of a channel whose buffer is empty reports a message, the zero value, each
  -- time.
  pub try_receive-close :
      (d : DurableChannel T)
      → d.closed ≡ false
      → d.buffer ≡ []
      → let d' = close T (λ g. g) d in
        ((try_receive T false d').1 ≡ some none) × ((try_receive T false d').0 ≡ d')
  unfolding try_receive close
  try_receive-close d up none_left = (ground arith, ground arith)
