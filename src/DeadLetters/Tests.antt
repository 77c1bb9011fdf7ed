-- ===== src/DeadLetters/Tests.antt =====
-- dead_letter_queue.go over a server in memory: a queue of one item, and one that is already in it.
use go_cachex.Base.{◌≡◌, ◌≤◌, ◌-◌, ◌++◌, length, drop, [], ◌∷◌, pos, false}
use go_cachex.Redis.{good}
use go_cachex.Queue.Memory.{Store, memory, memory_server}
use go_cachex.Queue.Defs.{fifo, fill, queue_key}
use go_cachex.Queue.Tests.{codec, codec-IsCodec, queue, name, empty}
use go_cachex.DeadLetters.Defs.{DeadLetterQueue, new_dead_letter_queue, wrap, push}
use go_cachex.DeadLetters.Bound.{served, quiet, push-items}

abbrev letters : DeadLetterQueue
letters = new_dead_letter_queue queue (pos 1) false (λ _ n. n)

abbrev one_item : Store
one_item = memory.rpush (queue_key queue name fifo) (7 ∷ []) empty

push-items_example :
    let k = queue_key letters.queue_handler name fifo in
    let item =
      fill memory
        (Unit {0})
        codec
        letters.queue_handler
        (3 ∷ [])
        5
        (wrap memory (Unit {0}) codec letters (3 ∷ []) 5 0 tt) in
    let turn = served memory memory_server (Unit {0}) codec codec-IsCodec letters in
    let x =
      push memory
        (Unit {0})
        codec
        letters
        turn
        turn
        (λ t. t)
        (quiet memory memory_server (Unit {0}) codec codec-IsCodec letters)
        false
        (3 ∷ [])
        5
        0
        tt
        name
        one_item in
    let l = memory.items k one_item ++ codec-IsCodec.encode item ∷ [] in
    (memory.items k x.0 ≡ drop (length l - letters.max_size) l)
    × (length (memory.items k x.0) ≤ letters.max_size)
    × (x.2 ≡ good tt)
push-items_example =
    push-items memory memory_server (Unit {0}) codec codec-IsCodec letters name (3 ∷ []) 5 0 tt
      one_item
