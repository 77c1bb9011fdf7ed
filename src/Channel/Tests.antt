-- ===== src/Channel/Tests.antt =====
-- durable_channel.go over a server in memory, with numbers as messages.
use go_cachex.Base.{
  ℕ, ◌*◌, ◌≡◌, refl, false, Option, none, some, List, [], ◌∷◌, ◌++◌, map, take, drop, codes, arith,
}
use go_cachex.Cache.{Str, second}
use go_cachex.Redis.{Turn, network_fault, delivered, refused, good}
use go_cachex.Channel.Server.{Store, memory, memory_lists}
use go_cachex.Channel.Defs.{
  PersistMode, persist_sync, persist_hybrid, Codec, DurableChannel, default_durable_channel_config,
  get_queue_key, try_receive,
}
use go_cachex.Channel.Flow.{buffers, smaller, send, worker_round, recover_messages}
use go_cachex.Channel.Order.{
  IsCodec, Call, sends, works, receives, passes, World, perform_all, listed,
}
use go_cachex.Channel.Balance.{perform_all-balance}
use go_cachex.Channel.Restart.{recover_messages-moves}
use go_cachex.Channel.Losses.{send-hybrid_twice}

abbrev decompress : Str → Option ℕ
decompress [] = none
decompress (n ∷ _) = some n

abbrev codec : Codec ℕ
codec = record { compress = λ n. some (n ∷ []); decompress = decompress }

abbrev codec-IsCodec : IsCodec ℕ codec
codec-IsCodec = record {
  encode = λ n. n ∷ [];
  compress_lem = λ n. refl;
  decompress_lem = λ n. refl;
}

abbrev channel : PersistMode → DurableChannel ℕ
channel mode = record {
  settings = record { buffer_size = 2; poll_interval = 1000; ttl = 86_400 * second; workers = 1 };
  mode = mode;
  queue_key = codes "dchan:a:0:queue";
  buffer = [];
  jobs = [];
  closed = false;
  cancelled = false;
  shut = false;
}

abbrev empty : Store
empty = λ k. ([], none)

abbrev three_there : Store
three_there = λ k. ((1 ∷ []) ∷ (2 ∷ []) ∷ (3 ∷ []) ∷ [], none)

abbrev served : Turn
served = record { net = delivered; at = 0 }

abbrev lost : Turn
lost = record { net = refused network_fault; at = 0 }

abbrev calls : List (Call ℕ)
calls =
    sends served 5
    ∷ sends lost 6
    ∷ passes 80_000
    ∷ works served
    ∷ sends served 7
    ∷ passes 9_000
    ∷ receives
    ∷ works served
    ∷ []

default_key : get_queue_key (default_durable_channel_config (codes "a")) ≡ codes "dchan:a:0:queue"
unfolding get_queue_key
default_key = refl

perform_all-balance_example :
    let producer = channel persist_sync in
    let start : World memory ℕ codec producer = record {
      consumer = channel persist_hybrid;
      held = none;
      server = empty;
      received = [];
      sent = [];
    } in
    let w = perform_all memory ℕ codec producer calls start in
    (rest : List ℕ) × (memory.items producer.queue_key w.server ≡ map (λ n. n ∷ []) rest)
    × (w.received ++ (w.consumer.buffer ++ (listed w.held ++ rest)) ≡ w.sent)
perform_all-balance_example =
    perform_all-balance memory memory_lists ℕ codec codec-IsCodec (channel persist_sync) refl refl
      (omega arith) calls (channel persist_hybrid) empty (tt, (tt, (tt, (tt, (tt, tt)))))
      (omega arith, (omega arith, tt)) refl refl refl refl refl

recover_messages-moves_example :
    let d = channel persist_hybrid in
    let y = recover_messages memory ℕ codec served (λ i. (served, served)) d three_there in
    (y.0.buffer ≡ take (smaller 3 2) (1 ∷ 2 ∷ 3 ∷ []))
    × (memory.items d.queue_key y.1 ≡ map (λ n. n ∷ []) (drop (smaller 3 2) (1 ∷ 2 ∷ 3 ∷ [])))
recover_messages-moves_example =
    recover_messages-moves memory memory_lists ℕ codec codec-IsCodec served (λ i. (served, served))
      (1 ∷ 2 ∷ 3 ∷ []) (channel persist_hybrid) three_there refl refl (λ i. refl) refl refl

send-hybrid_twice_example :
    let y = send memory ℕ codec served (λ g. g) buffers false 4 (channel persist_hybrid) empty in
    let (d', o) = try_receive ℕ false y.0 in
    let w = worker_round memory ℕ codec served served (λ g. g) false d' y.1 in
    (y.2 ≡ good tt) × (o ≡ some (some 4)) × ((try_receive ℕ false w.0).1 ≡ some (some 4))
send-hybrid_twice_example =
    send-hybrid_twice memory memory_lists ℕ codec codec-IsCodec served served 4
      (channel persist_hybrid) empty refl refl refl refl (omega arith) (omega arith) refl refl refl
