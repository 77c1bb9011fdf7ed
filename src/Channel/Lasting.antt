-- ===== src/Channel/Lasting.antt =====
-- durable_channel.go: how long the list in Redis lives while a producer and a worker use it.
use go_cachex.Base.{
  ℕ, ◌+◌, ◌-◌, ◌≤◌, ◌<◌, ◌≡◌, refl, sym, ap, ◌∙◌, false, Option, none, some, [], arith, Bool-cases,
  inl, inr, ◌⊎◌,
}
use mathlib.Core.Path.{subst}
use go_cachex.Cache.{Str}
use go_cachex.Redis.{Turn, Net, delivered, refused, cut}
use go_cachex.Channel.Server.{Lists, IsLists}
use go_cachex.Channel.Defs.{persist_sync, Codec, DurableChannel, has_room}
use go_cachex.Channel.Flow.{persist_to_redis, pull_from_redis, offer, worker_round}
use go_cachex.Channel.Order.{IsCodec, sends, Answers, World, work, perform, renewed}
use go_cachex.Channel.Rounds.{persist-refused, send-sync, offer-room, offer-full}

module _ (r : Lists) (laws : IsLists r) (T : Type 0) (z : Codec T) (codec : IsCodec T z) where
  -- What is under the key stays for fewer seconds than these.
  abbrev pub Lasts : Str → ℕ → r.State → Type 0
  Lasts k left s = (n : ℕ) → n < left → r.items k (r.later n s) ≡ r.items k s

  pub empty-Lasts : (k : Str) (left : ℕ) (s : r.State) → r.items k s ≡ [] → Lasts k left s
  empty-Lasts k left s h n early = laws.lasts_empty k n s h ∙ sym h

  pub later-Lasts :
      (k : Str) (left n : ℕ) (s : r.State)
      → n < left
      → Lasts k left s
      → Lasts k (left - n) (r.later n s)
  later-Lasts k left n s early h m fits =
      ap (r.items k) (laws.later-later m n s) ∙ h (n + m) (omega arith) ∙ sym (h n early)

  lpop-Lasts : (k : Str) (left : ℕ) (s : r.State) → Lasts k left s → Lasts k left (r.lpop k s).0
  lpop-Lasts k left s h n early = laws.lasts-lpop k n s (h n early)

  persist-shown :
      (turn : Turn) (x : T) (d : DurableChannel T) (s : r.State)
      → turn.net ≡ delivered
      → (persist_to_redis r T z turn false x d s).0
        ≡ r.expire d.queue_key d.settings.ttl (r.rpush d.queue_key (codec.encode x) s)
  unfolding persist_to_redis
  persist-shown turn x d s served = ground (arith, codec.compress_lem x)

  persist-Lasts :
      (turn : Turn) (x : T) (d : DurableChannel T) (s : r.State)
      → turn.net ≡ delivered
      → 0 < d.settings.ttl
      → Lasts d.queue_key (r.seconds d.settings.ttl) (persist_to_redis r T z turn false x d s).0
  persist-Lasts turn x d s served lives n early =
      let k = d.queue_key in
      let s' = r.rpush k (codec.encode x) s in
      subst (λ t. r.items k (r.later n t) ≡ r.items k t) (sym (persist-shown turn x d s served))
        (laws.lasts-expire k d.settings.ttl n s' lives early
          ∙ sym (laws.items-expire k d.settings.ttl s' lives))

  -- A served message that nobody pulls is lost when the time to live of the channel has passed, and with it all
  -- that the list holds.
  pub persist-expires :
      (turn : Turn) (x : T) (d : DurableChannel T) (s : r.State) (n : ℕ)
      → turn.net ≡ delivered
      → 0 < d.settings.ttl
      → r.seconds d.settings.ttl ≤ n
      → r.items d.queue_key (r.later n (persist_to_redis r T z turn false x d s).0) ≡ []
  persist-expires turn x d s n served lives late =
      let k = d.queue_key in
      ap (λ t. r.items k (r.later n t)) (persist-shown turn x d s served)
      ∙ laws.expires k d.settings.ttl n (r.rpush k (codec.encode x) s) lives late

  module _ (producer : DurableChannel T) (mode : producer.mode ≡ persist_sync)
      (up : producer.closed ≡ false) (lives : 0 < producer.settings.ttl) where
    pub sends-Lasts :
        (turn : Turn) (n : Net) (x : T) (w : World r T z producer) (left : ℕ)
        → turn.net ≡ n
        → Answers n
        → Lasts producer.queue_key left w.server
        → Lasts producer.queue_key
            (renewed n (r.seconds producer.settings.ttl) left)
            (perform r T z producer (sends turn x) w).server
    unfolding perform
    sends-Lasts turn delivered x w left net ok_ h =
        let whole = send-sync r laws T z codec turn x producer w.server mode up in
        subst (Lasts producer.queue_key (r.seconds producer.settings.ttl))
          (sym (ap (λ y. y.1) whole)) (persist-Lasts turn x producer w.server net lives)
    sends-Lasts turn (refused e) x w left net ok_ h =
        let whole = send-sync r laws T z codec turn x producer w.server mode up in
        let lost = persist-refused r laws T z codec turn e x producer w.server net in
        subst (Lasts producer.queue_key left) (sym (ap (λ y. y.1) whole ∙ ap (λ y. y.0) lost)) h
    sends-Lasts turn (cut e) x w left net ok_ h = absurd ok_

    offer-server :
        (turn : Turn) (x : T) (d : DurableChannel T) (s : r.State)
        → d.cancelled ≡ false
        → (offer r T z turn false x d s).1 ≡ s
    offer-server turn x d s runs = elim (Bool-cases (has_room T d)) [
      | inl room ↦ ap (λ y. y.1) (offer-room r laws T z codec turn x d s runs room)
      | inr full ↦ ap (λ y. y.1) (offer-full r laws T z codec turn x d s runs full)
    ]

    pull-server :
        (turn : Turn) (n : Net) (d : DurableChannel T) (s : r.State)
        → turn.net ≡ n
        → let s' = (pull_from_redis r T z turn d s).0 in (s' ≡ s) ⊎ (s' ≡ (r.lpop d.queue_key s).0)
    unfolding pull_from_redis
    pull-server turn delivered d s net = inr (ground arith)
    pull-server turn (refused e) d s net = inl (ground arith)
    pull-server turn (cut e) d s net = inr (ground arith)

    round-server :
        (turn : Turn) (d : DurableChannel T) (s : r.State)
        → d.cancelled ≡ false
        → (worker_round r T z turn turn (λ g. g) false d s).1 ≡ (pull_from_redis r T z turn d s).0
    unfolding worker_round
    round-server turn d s runs =
        let (s', o) = pull_from_redis r T z turn d s in
        ground (arith, λ (x : T). offer-server turn x d s' runs)

    pub works-Lasts :
        (turn : Turn) (held : Option T) (w : World r T z producer) (left : ℕ)
        → w.consumer.queue_key ≡ producer.queue_key
        → w.consumer.cancelled ≡ false
        → Lasts producer.queue_key left w.server
        → Lasts producer.queue_key left (work r T z producer turn held w).server
    unfolding work
    works-Lasts turn (some x) w left key runs h =
        subst (Lasts producer.queue_key left) (sym (offer-server turn x w.consumer w.server runs)) h
    works-Lasts turn none w left key runs h =
        let shown = round-server turn w.consumer w.server runs in
        elim (pull-server turn turn.net w.consumer w.server refl) [
          | inl same ↦ subst (Lasts producer.queue_key left) (sym (shown ∙ same)) h
          | inr popped ↦
              subst (Lasts producer.queue_key left)
                (sym (shown ∙ popped ∙ ap (λ k. (r.lpop k w.server).0) key))
                (lpop-Lasts producer.queue_key left w.server h)
        ]
