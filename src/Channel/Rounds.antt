-- ===== src/Channel/Rounds.antt =====
-- durable_channel.go: what each call of a producer and each round of a worker do, by cases.
use go_cachex.Base.{◌<◌, ◌≡◌, true, false, List, [], ◌∷◌, ◌++◌, arith}
use go_cachex.Cache.{Str}
use go_cachex.Redis.{Turn, Fault, delivered, refused, good, bad}
use go_cachex.Channel.Server.{Lists, IsLists}
use go_cachex.Channel.Defs.{persist_failed, persist_sync, Codec, DurableChannel, has_room, put}
use go_cachex.Channel.Flow.{buffers, goes_on, waits, persist_to_redis, send, offer, worker_round}
use go_cachex.Channel.Order.{IsCodec}

module _ (r : Lists) (laws : IsLists r) (T : Type 0) (z : Codec T) (codec : IsCodec T z) where
  pub persist-served :
      (turn : Turn) (x : T) (d : DurableChannel T) (s : r.State)
      → turn.net ≡ delivered
      → 0 < d.settings.ttl
      → let y = persist_to_redis r T z turn false x d s in
        (y.1 ≡ good tt) × (r.items d.queue_key y.0 ≡ r.items d.queue_key s ++ codec.encode x ∷ [])
  unfolding persist_to_redis
  persist-served turn x d s served lives =
      let v = codec.encode x in
      (
        ground (arith, codec.compress_lem x),
        ground (
          arith,
          codec.compress_lem x,
          laws.items-expire d.queue_key d.settings.ttl (r.rpush d.queue_key v s) lives,
          laws.items-rpush d.queue_key v s,
        ),
      )

  pub persist-refused :
      (turn : Turn) (e : Fault) (x : T) (d : DurableChannel T) (s : r.State)
      → turn.net ≡ refused e
      → persist_to_redis r T z turn false x d s ≡ (s, bad (persist_failed e))
  unfolding persist_to_redis
  persist-refused turn e x d s lost = ground (arith, codec.compress_lem x)

  pub send-sync :
      (turn : Turn) (x : T) (d : DurableChannel T) (s : r.State)
      → d.mode ≡ persist_sync
      → d.closed ≡ false
      → send r T z turn (λ g. g) buffers false x d s ≡ (
        d,
        (persist_to_redis r T z turn false x d s).0,
        (persist_to_redis r T z turn false x d s).1,
      )
  unfolding send
  send-sync turn x d s mode up = ground arith

  pub offer-room :
      (turn : Turn) (x : T) (d : DurableChannel T) (s : r.State)
      → d.cancelled ≡ false
      → has_room T d ≡ true
      → offer r T z turn false x d s ≡ (put T x d, s, goes_on)
  unfolding offer
  offer-room turn x d s runs room = ground arith

  pub offer-full :
      (turn : Turn) (x : T) (d : DurableChannel T) (s : r.State)
      → d.cancelled ≡ false
      → has_room T d ≡ false
      → offer r T z turn false x d s ≡ (d, s, waits x)
  unfolding offer
  offer-full turn x d s runs full = ground arith

  pub round-empty :
      (turn : Turn) (d : DurableChannel T) (s : r.State)
      → d.cancelled ≡ false
      → turn.net ≡ delivered
      → r.items d.queue_key s ≡ []
      → worker_round r T z turn turn (λ g. g) false d s ≡ (d, s, goes_on)
  unfolding worker_round
  round-empty turn d s runs served none_left =
      ground (arith, laws.lpop_empty d.queue_key s none_left)

  pub round-refused :
      (turn : Turn) (e : Fault) (d : DurableChannel T) (s : r.State)
      → d.cancelled ≡ false
      → turn.net ≡ refused e
      → worker_round r T z turn turn (λ g. g) false d s ≡ (d, s, goes_on)
  unfolding worker_round
  round-refused turn e d s runs lost = ground arith

  pub round-first :
      (turn : Turn) (x : T) (vs : List Str) (d : DurableChannel T) (s : r.State)
      → d.cancelled ≡ false
      → turn.net ≡ delivered
      → r.items d.queue_key s ≡ codec.encode x ∷ vs
      → let s' = (r.lpop d.queue_key s).0 in
        (worker_round r T z turn turn (λ g. g) false d s ≡ offer r T z turn false x d s')
        × (r.items d.queue_key s' ≡ vs)
  unfolding worker_round
  round-first turn x vs d s runs served first =
      let (rest, popped) = laws.lpop_first d.queue_key (codec.encode x) vs s first in
      (ground (arith, codec.decompress_lem x), rest)
