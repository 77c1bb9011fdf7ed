-- ===== src/Channel/Balance.antt =====
-- durable_channel.go: no message is lost, doubled or reordered between a producer and one worker.
use go_cachex.Base.{ℕ, ◌-◌, ◌<◌, ◌≡◌, refl, ap, ◌∙◌, false, none, List, [], ◌∷◌, ◌++◌, map}
use go_cachex.Channel.Server.{Lists, IsLists}
use go_cachex.Channel.Defs.{persist_sync, Codec, DurableChannel}
use go_cachex.Channel.Order.{
  IsCodec, Call, sends, works, receives, passes, AllAnswer, renewed, InTime, listed, World, work,
  perform, perform_all,
}
use go_cachex.Channel.Lasting.{Lasts, empty-Lasts, later-Lasts, sends-Lasts, works-Lasts}
use go_cachex.Channel.Steps.{Balanced, sends-Balanced, works-Balanced, takes-Balanced}

module _ (r : Lists) (laws : IsLists r) (T : Type 0) (z : Codec T) (codec : IsCodec T z)
    (producer : DurableChannel T) (mode : producer.mode ≡ persist_sync)
    (up : producer.closed ≡ false) (lives : 0 < producer.settings.ttl) where
  -- Time that goes by, less than the list has left.
  passes-Balanced :
      (n left : ℕ) (w : World r T z producer) (rest : List T)
      → n < left
      → Lasts r laws T z codec producer.queue_key left w.server
      → Balanced r laws T z codec producer mode up lives w rest
      → Balanced r laws T z codec producer mode up lives (perform r T z producer (passes n) w) rest
  unfolding perform
  passes-Balanced n left w rest early lasting h = record {
    stored = lasting n early ∙ h.stored;
    balance = h.balance;
    key = h.key;
    runs = h.runs;
    open_ = h.open_;
  }

  perform_all-Balanced :
      (cs : List (Call T)) (left : ℕ) (w : World r T z producer) (rest : List T)
      → AllAnswer cs
      → InTime (r.seconds producer.settings.ttl) left cs
      → Lasts r laws T z codec producer.queue_key left w.server
      → Balanced r laws T z codec producer mode up lives w rest
      → (rest' : List T) × Balanced r laws T z codec producer mode up lives
          (perform_all r T z producer cs w)
          rest'
  unfolding perform_all
  perform_all-Balanced [] left w rest ok_ early lasting h = (rest, h)
  perform_all-Balanced (sends turn x ∷ cs) left w rest (ok_, oks) early lasting h =
      let (rest', h') =
        sends-Balanced r laws T z codec producer mode up lives turn turn.net x w rest refl ok_ h in
      perform_all-Balanced cs (renewed turn.net (r.seconds producer.settings.ttl) left)
        (perform r T z producer (sends turn x) w) rest' oks early
        (sends-Lasts r laws T z codec producer mode up lives turn turn.net x w left refl ok_
          lasting)
        h'
  perform_all-Balanced (works turn ∷ cs) left w rest (ok_, oks) early lasting h =
      let (rest', h') =
        works-Balanced r laws T z codec producer mode up lives turn w.held w rest ok_ refl h in
      perform_all-Balanced cs left (work r T z producer turn w.held w) rest' oks early
        (works-Lasts r laws T z codec producer mode up lives turn w.held w left h.key h.runs
          lasting)
        h'
  perform_all-Balanced (receives ∷ cs) left w rest oks early lasting h =
      perform_all-Balanced cs left (perform r T z producer receives w) rest oks early
        (unfold perform in lasting)
        (takes-Balanced r laws T z codec producer mode up lives w.consumer.buffer w rest refl h)
  perform_all-Balanced (passes n ∷ cs) left w rest oks (now, early) lasting h =
      perform_all-Balanced cs (left - n) (perform r T z producer (passes n) w) rest oks early
        (unfold perform in
          later-Lasts r laws T z codec producer.queue_key left n w.server now lasting)
        (passes-Balanced n left w rest now lasting h)

  -- No message is lost, doubled or reordered: after any sequence of sends of a producer that only writes to
  -- Redis, rounds of the one worker of an open consumer, receives, and times that go by, that starts with
  -- nothing sent and in which no reply is lost and the time to live that the latest stored message
  -- gives to the list does not pass, the messages whose Send reported no error are, in this order,
  -- those that were received, that the buffer holds, that the worker holds, and that Redis holds.
  pub perform_all-balance :
      (cs : List (Call T)) (consumer : DurableChannel T) (s : r.State)
      → AllAnswer cs
      → InTime (r.seconds producer.settings.ttl) (r.seconds producer.settings.ttl) cs
      → r.items producer.queue_key s ≡ []
      → consumer.buffer ≡ []
      → consumer.queue_key ≡ producer.queue_key
      → consumer.cancelled ≡ false
      → consumer.shut ≡ false
      → let start : World r T z producer = record {
        consumer = consumer;
        held = none;
        server = s;
        received = [];
        sent = [];
      } in
        let w = perform_all r T z producer cs start in
        (rest : List T) × (r.items producer.queue_key w.server ≡ map codec.encode rest)
        × (w.received ++ (w.consumer.buffer ++ (listed w.held ++ rest)) ≡ w.sent)
  perform_all-balance cs consumer s oks early empty_list empty_buffer key runs open_ =
      let start : World r T z producer = record {
        consumer = consumer;
        held = none;
        server = s;
        received = [];
        sent = [];
      } in
      let balanced : Balanced r laws T z codec producer mode up lives start [] = record {
        stored = empty_list;
        balance = ap (λ b. b ++ []) empty_buffer;
        key = key;
        runs = runs;
        open_ = open_;
      } in
      let ttl = r.seconds producer.settings.ttl in
      let (rest, h) =
        perform_all-Balanced cs ttl start [] oks early
          (empty-Lasts r laws T z codec producer.queue_key ttl s empty_list) balanced in
      (rest, h.stored, h.balance)
