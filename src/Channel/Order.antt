-- ===== src/Channel/Order.antt =====
-- durable_channel.go: a producer that only writes to Redis, and a consumer with one worker.
use go_cachex.Base.{ℕ, ◌-◌, ◌<◌, ◌≡◌, false, Option, none, some, List, [], ◌∷◌, ◌++◌, map}
use go_cachex.Cache.{Str}
use go_cachex.Redis.{Turn, Net, delivered, refused, cut, Outcome, good, bad}
use go_cachex.Channel.Server.{Lists}
use go_cachex.Channel.Defs.{ChannelError, Codec, DurableChannel, try_receive}
use go_cachex.Channel.Flow.{buffers, Round, goes_on, ends, waits, send, offer, worker_round}

-- What is relied on of the compression: a message comes back from its own text.
pub record IsCodec (T : Type 0) (z : Codec T) : Type 0 where
  pub encode : T → Str
  pub compress_lem : (x : T) → z.compress x ≡ some (encode x)
  pub decompress_lem : (x : T) → z.decompress (encode x) ≡ some x

pub data Call (T : Type 0) : Type 0 where
  sends : Turn → T → Call T
  works : Turn → Call T
  receives : Call T
  -- so many seconds go by in which nobody calls
  passes : ℕ → Call T

-- The server answers, or the call never reaches it.
abbrev pub Answers : Net → Type 0
Answers delivered = Unit {0}
Answers (refused e) = Unit {0}
Answers (cut e) = ⊥

-- The seconds that the list has left after a call of Send.
abbrev pub renewed : Net → ℕ → ℕ → ℕ
renewed delivered ttl left = ttl
renewed (refused e) ttl left = left
renewed (cut e) ttl left = left

module _ {T : Type 0} where
  abbrev pub AllAnswer : List (Call T) → Type 0
  AllAnswer [] = Unit
  AllAnswer (sends turn x ∷ cs) = Answers turn.net × AllAnswer cs
  AllAnswer (works turn ∷ cs) = Answers turn.net × AllAnswer cs
  AllAnswer (receives ∷ cs) = AllAnswer cs
  AllAnswer (passes n ∷ cs) = AllAnswer cs

  -- The time to live of the list, `ttl` seconds from each message that is stored, does not pass.
  abbrev pub InTime : ℕ → ℕ → List (Call T) → Type 0
  InTime ttl left [] = Unit
  InTime ttl left (sends turn x ∷ cs) = InTime ttl (renewed turn.net ttl left) cs
  InTime ttl left (works turn ∷ cs) = InTime ttl left cs
  InTime ttl left (receives ∷ cs) = InTime ttl left cs
  InTime ttl left (passes n ∷ cs) = (n < left) × InTime ttl (left - n) cs

  abbrev pub listed : Option T → List T
  listed none = []
  listed (some x) = x ∷ []

  abbrev pub held_by : Round T → Option T
  held_by goes_on = none
  held_by ends = none
  held_by (waits x) = some x

  abbrev pub got : Option (Option T) → List T
  got none = []
  got (some none) = []
  got (some (some x)) = x ∷ []

  abbrev pub sent_by : Outcome ChannelError (Unit {0}) → T → List T
  sent_by (good _) x = x ∷ []
  sent_by (bad _) x = []

module _ (r : Lists) (T : Type 0) (z : Codec T) (producer : DurableChannel T) where
  -- The consumer, the message that its worker holds, the server, the messages that were received, and those
  -- whose `Send` reported no error.
  pub record World : Type 0 where
    pub consumer : DurableChannel T
    pub held : Option T
    pub server : r.State
    pub received : List T
    pub sent : List T

  -- What the worker does next.
  unfoldable pub work : Turn → Option T → World → World
  work turn none w =
      let (d, s, o) = worker_round r T z turn turn (λ g. g) false w.consumer w.server in
      record w { consumer = d; server = s; held = held_by o }
  work turn (some x) w =
      let (d, s, o) = offer r T z turn false x w.consumer w.server in
      record w { consumer = d; server = s; held = held_by o }

  unfoldable pub perform : Call T → World → World
  unfolding work
  perform (sends turn x) w =
      let (_, s, o) = send r T z turn (λ g. g) buffers false x producer w.server in
      record w { server = s; sent = w.sent ++ sent_by o x }
  perform (works turn) w = work turn w.held w
  perform receives w =
      let (d, o) = try_receive T false w.consumer in
      record w { consumer = d; received = w.received ++ got o }
  perform (passes n) w = record w { server = r.later n w.server }

  unfoldable pub perform_all : List (Call T) → World → World
  unfolding perform
  perform_all [] w = w
  perform_all (c ∷ cs) w = perform_all cs (perform c w)

  module _ (codec : IsCodec T z) where
    -- Redis holds `rest`, and all messages that were sent are received, buffered, held or there, in the
    -- order in which they were sent; the consumer is open.
    pub record IsBalanced (w : World) (rest : List T) : Type 0 where
      pub stored : r.items producer.queue_key w.server ≡ map codec.encode rest
      pub balance : w.received ++ (w.consumer.buffer ++ (listed w.held ++ rest)) ≡ w.sent
      pub key : w.consumer.queue_key ≡ producer.queue_key
      pub runs : w.consumer.cancelled ≡ false
      pub open_ : w.consumer.shut ≡ false
