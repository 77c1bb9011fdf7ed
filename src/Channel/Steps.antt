-- ===== src/Channel/Steps.antt =====
-- durable_channel.go: each send, round of the worker and receive keeps the messages and their order.
use go_cachex.Base.{
  ◌<◌, ◌≡◌, refl, sym, ap, ◌∙◌, false, Option, none, some, List, [], ◌∷◌, ◌++◌, map, arith,
  Bool-cases, inl, inr,
}
use mathlib.Core.List.{append_assoc, append-nil}
use mathlib.Core.Path.{subst}
use go_cachex.Queue.Order.{map-append_one}
use go_cachex.Redis.{Turn, Net, delivered, refused, cut}
use go_cachex.Channel.Server.{Lists, IsLists}
use go_cachex.Channel.Defs.{persist_sync, Codec, DurableChannel, has_room, put, try_receive}
use go_cachex.Channel.Flow.{Round, offer}
use go_cachex.Channel.Order.{
  IsCodec, sends, receives, Answers, listed, held_by, got, sent_by, World, work, perform,
  IsBalanced,
}
use go_cachex.Channel.Rounds.{
  persist-served, persist-refused, send-sync, offer-room, offer-full, round-empty, round-refused,
  round-first,
}

module _ (r : Lists) (laws : IsLists r) (T : Type 0) (z : Codec T) (codec : IsCodec T z)
    (producer : DurableChannel T) (mode : producer.mode ≡ persist_sync)
    (up : producer.closed ≡ false) (lives : 0 < producer.settings.ttl) where
  abbrev pub Balanced : World r T z producer → List T → Type 0
  Balanced w rest = IsBalanced r T z producer codec w rest

  snoc_balance :
      (a b c rest : List T) (x : T) (sent : List T)
      → a ++ (b ++ (c ++ rest)) ≡ sent
      → a ++ (b ++ (c ++ (rest ++ x ∷ []))) ≡ sent ++ x ∷ []
  snoc_balance a b c rest x sent h = simp (← h, append_assoc)

  pub sends-Balanced :
      (turn : Turn) (n : Net) (x : T) (w : World r T z producer) (rest : List T)
      → turn.net ≡ n
      → Answers n
      → Balanced w rest
      → (rest' : List T) × Balanced (perform r T z producer (sends turn x) w) rest'
  unfolding perform
  sends-Balanced turn delivered x w rest net ok_ h =
      let k = producer.queue_key in
      let (fine, stored) = persist-served r laws T z codec turn x producer w.server net lives in
      let whole = send-sync r laws T z codec turn x producer w.server mode up in
      (
        rest ++ x ∷ [],
        record {
          stored =
              ap (λ y. r.items k y.1) whole
              ∙ stored
              ∙ ap (λ l. l ++ codec.encode x ∷ []) h.stored
              ∙ sym (map-append_one codec.encode x rest);
          balance =
              snoc_balance w.received w.consumer.buffer (listed w.held) rest x w.sent h.balance
              ∙ sym (ap (λ o. w.sent ++ sent_by o x) (ap (λ y. y.2) whole ∙ fine));
          key = h.key;
          runs = h.runs;
          open_ = h.open_;
        },
      )
  sends-Balanced turn (refused e) x w rest net ok_ h =
      let lost = persist-refused r laws T z codec turn e x producer w.server net in
      let whole = send-sync r laws T z codec turn x producer w.server mode up in
      (
        rest,
        record {
          stored =
              ap (λ y. r.items producer.queue_key y.1) whole
              ∙ ap (λ y. r.items producer.queue_key y.0) lost
              ∙ h.stored;
          balance =
              h.balance
              ∙ sym (
                  ap (λ o. w.sent ++ sent_by o x) (ap (λ y. y.2) whole ∙ ap (λ y. y.1) lost)
                  ∙ append-nil w.sent);
          key = h.key;
          runs = h.runs;
          open_ = h.open_;
        },
      )
  sends-Balanced turn (cut e) x w rest net ok_ h = absurd ok_

  -- The worker has a message `x` in hand that it offers to the buffer.
  offered : Turn → T → r.State → World r T z producer → World r T z producer
  offered turn x s w =
      let (d, s', o) = offer r T z turn false x w.consumer s in
      record w { consumer = d; server = s'; held = held_by o }

  offered-Balanced :
      (turn : Turn) (x : T) (s : r.State) (w : World r T z producer) (rest : List T)
      → r.items producer.queue_key s ≡ map codec.encode rest
      → w.received ++ (w.consumer.buffer ++ (x ∷ rest)) ≡ w.sent
      → w.consumer.queue_key ≡ producer.queue_key
      → w.consumer.cancelled ≡ false
      → w.consumer.shut ≡ false
      → Balanced (offered turn x s w) rest
  unfolding offered
  offered-Balanced turn x s w rest stored balance key runs open_ =
      elim (Bool-cases (has_room T w.consumer)) [
        | inl room ↦
            let shown = offer-room r laws T z codec turn x w.consumer s runs room in
            subst
              (λ (y : DurableChannel T × r.State × Round T).
                Balanced (record w { consumer = y.0; server = y.1; held = held_by y.2 }) rest)
              (sym shown)
              (record {
                stored = stored;
                balance =
                    unfold put in
                    ap (λ l. w.received ++ l) (append_assoc w.consumer.buffer (x ∷ []) rest)
                    ∙ balance;
                key = unfold put in key;
                runs = unfold put in runs;
                open_ = unfold put in open_;
              })
        | inr full ↦
            let shown = offer-full r laws T z codec turn x w.consumer s runs full in
            subst
              (λ (y : DurableChannel T × r.State × Round T).
                Balanced (record w { consumer = y.0; server = y.1; held = held_by y.2 }) rest)
              (sym shown)
              (record { stored = stored; balance = balance; key = key; runs = runs; open_ = open_ })
      ]

  pulls-Balanced :
      (turn : Turn) (n : Net) (w : World r T z producer) (rest : List T)
      → turn.net ≡ n
      → Answers n
      → w.held ≡ none
      → Balanced w rest
      → (rest' : List T) × Balanced (work r T z producer turn none w) rest'
  unfolding work
  pulls-Balanced turn delivered w [] net ok_ idle h =
      let none_left = ap (λ k. r.items k w.server) h.key ∙ h.stored in
      let shown = round-empty r laws T z codec turn w.consumer w.server h.runs net none_left in
      (
        [],
        subst
            (λ (y : DurableChannel T × r.State × Round T).
              Balanced (record w { consumer = y.0; server = y.1; held = held_by y.2 }) [])
            (sym shown)
            (record {
              stored = h.stored;
              balance =
                  ap (λ o. w.received ++ (w.consumer.buffer ++ (listed o ++ []))) (sym idle)
                  ∙ h.balance;
              key = h.key;
              runs = h.runs;
              open_ = h.open_;
            }),
      )
  pulls-Balanced turn delivered w (x ∷ rest) net ok_ idle h =
      let first = ap (λ k. r.items k w.server) h.key ∙ h.stored in
      let (shown, left) =
        round-first r laws T z codec turn x (map codec.encode rest) w.consumer w.server h.runs net
          first in
      let s' = (r.lpop w.consumer.queue_key w.server).0 in
      (
        rest,
        subst
            (λ (y : DurableChannel T × r.State × Round T).
              Balanced (record w { consumer = y.0; server = y.1; held = held_by y.2 }) rest)
            (sym shown)
            (unfold offered in
              offered-Balanced turn x s' w rest (ap (λ k. r.items k s') (sym h.key) ∙ left)
                (ap (λ o. w.received ++ (w.consumer.buffer ++ (listed o ++ x ∷ rest))) (sym idle)
                  ∙ h.balance)
                h.key h.runs h.open_),
      )
  pulls-Balanced turn (refused e) w rest net ok_ idle h =
      let shown = round-refused r laws T z codec turn e w.consumer w.server h.runs net in
      (
        rest,
        subst
            (λ (y : DurableChannel T × r.State × Round T).
              Balanced (record w { consumer = y.0; server = y.1; held = held_by y.2 }) rest)
            (sym shown)
            (record {
              stored = h.stored;
              balance =
                  ap (λ o. w.received ++ (w.consumer.buffer ++ (listed o ++ rest))) (sym idle)
                  ∙ h.balance;
              key = h.key;
              runs = h.runs;
              open_ = h.open_;
            }),
      )
  pulls-Balanced turn (cut e) w rest net ok_ idle h = absurd ok_

  pub works-Balanced :
      (turn : Turn) (held : Option T) (w : World r T z producer) (rest : List T)
      → Answers turn.net
      → w.held ≡ held
      → Balanced w rest
      → (rest' : List T) × Balanced (work r T z producer turn held w) rest'
  works-Balanced turn none w rest ok_ idle h = pulls-Balanced turn turn.net w rest refl ok_ idle h
  works-Balanced turn (some x) w rest ok_ holds h = (
    rest,
    unfold work offered in
        offered-Balanced turn x w.server w rest h.stored
          (ap (λ o. w.received ++ (w.consumer.buffer ++ (listed o ++ rest))) (sym holds)
            ∙ h.balance)
          h.key h.runs h.open_,
  )

  pub takes-Balanced :
      (buffer : List T) (w : World r T z producer) (rest : List T)
      → w.consumer.buffer ≡ buffer
      → Balanced w rest
      → Balanced (perform r T z producer receives w) rest
  unfolding perform try_receive
  takes-Balanced [] w rest e h =
      let whole : try_receive T false w.consumer ≡ (w.consumer, none) = ground (arith, h.open_) in
      subst
        (λ (y : DurableChannel T × Option (Option T)).
          Balanced (record w { consumer = y.0; received = w.received ++ got y.1 }) rest)
        (sym whole)
        (record {
          stored = h.stored;
          balance =
              ap (λ l. l ++ (w.consumer.buffer ++ (listed w.held ++ rest))) (append-nil w.received)
              ∙ h.balance;
          key = h.key;
          runs = h.runs;
          open_ = h.open_;
        })
  takes-Balanced (x ∷ buffer) w rest e h =
      let whole : try_receive T false w.consumer
          ≡ (record w.consumer { buffer = buffer }, some (some x)) =
        ground (arith) in
      subst
        (λ (y : DurableChannel T × Option (Option T)).
          Balanced (record w { consumer = y.0; received = w.received ++ got y.1 }) rest)
        (sym whole)
        (record {
          stored = h.stored;
          balance =
              append_assoc w.received (x ∷ []) (buffer ++ (listed w.held ++ rest))
              ∙ ap (λ b. w.received ++ (b ++ (listed w.held ++ rest))) (sym e)
              ∙ h.balance;
          key = h.key;
          runs = h.runs;
          open_ = h.open_;
        })
