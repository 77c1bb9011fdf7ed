-- ===== src/Queue/Tests.antt =====
-- queue.go over a server in memory, with items whose text is their identifier and their count.
use go_cachex.Base.{ℕ, ◌≡◌, refl, none, some, Option, List, [], ◌∷◌, pos, ℕ_discrete}
use go_cachex.Cache.{Str, dec_str}
use go_cachex.Table.{lookup, assign, delete}
use go_cachex.Redis.{Turn, delivered, good}
use go_cachex.Queue.Memory.{
  Store, memory, memory_server, list_at, put_list, pop_list, put_set, insert_score, drop_member,
}
use go_cachex.Queue.Defs.{QueueHandler, Item, Codec, fifo, delay_key, failed_key, new_queue_handler}
use go_cachex.Queue.Views.{retry_failed}
use go_cachex.Queue.Order.{first_in, IsCodec, Op, puts, takes, batches, peeks, run, spec_run}
use go_cachex.Queue.Agrees.{run_queue-Holds}
use go_cachex.Queue.Order.{Holds}
use go_cachex.Queue.Delays.{retries, attempts, enqueue_each, retries_end}

-- What a test has to compute with.
program : Unit {0}
unfolding new_queue_handler delay_key failed_key lookup assign delete dec_str ℕ_discrete list_at
    put_list pop_list put_set insert_score drop_member
program = tt

abbrev item_of : Str → ℕ → Item memory (Unit {0})
item_of k n = record {
  id = k;
  content = tt;
  priority = 0;
  delay_time = 0;
  created_at = 1;
  retry_count = n;
}

abbrev write : Item memory (Unit {0}) → Str
write i = i.priority ∷ i.delay_time ∷ i.created_at ∷ i.retry_count ∷ i.id

abbrev read : Str → Option (Item memory (Unit {0}))
read (p ∷ d ∷ a ∷ n ∷ k) =
    some (record {
      id = k;
      content = tt;
      priority = p;
      delay_time = d;
      created_at = a;
      retry_count = n;
    })
read _ = none

abbrev pub codec : Codec memory (Unit {0})
codec = record { marshal = λ i. some (write i); unmarshal = read }

abbrev pub codec-IsCodec : IsCodec memory (Unit {0}) codec
codec-IsCodec = record {
  encode = write;
  read_back = λ i. i;
  marshal_lem = λ i. refl;
  unmarshal_lem = λ i. refl;
}

abbrev pub queue : QueueHandler
queue = new_queue_handler [] (pos 2) (pos 0) (pos 0)

abbrev pub name : Str
name = 5 ∷ []

abbrev pub empty : Store
empty = record { lists = []; sets = [] }

abbrev item_1 : Item memory (Unit {0})
item_1 = item_of (1 ∷ []) 0

abbrev item_2 : Item memory (Unit {0})
item_2 = item_of (2 ∷ []) 0

abbrev ops : List (Op memory (Unit {0}) codec queue first_in name)
ops = puts [] 9 item_1 ∷ puts [] 9 item_2 ∷ peeks (pos 2) ∷ takes ∷ batches (pos 0) ∷ takes ∷ []

run_queue-Holds_example :
    let x = run memory (Unit {0}) codec queue first_in name ops empty in
    let y = spec_run memory (Unit {0}) codec queue first_in name codec-IsCodec ops [] in
    (x.1 ≡ y.1)
    × Holds memory memory_server (Unit {0}) codec codec-IsCodec queue first_in name y.0 x.0
unfolding program
run_queue-Holds_example =
    run_queue-Holds memory memory_server (Unit {0}) codec codec-IsCodec queue name first_in ops []
      empty refl

abbrev served : Turn
served = record { net = delivered; at = 0 }

abbrev due : Store
due = record { lists = []; sets = (delay_key queue name, (3, write item_1) ∷ []) ∷ [] }

retries_end_example :
    let x = retries memory (Unit {0}) codec queue [] 9 name fifo 2 item_1 empty in
    let y = retry_failed memory (Unit {0}) codec queue served [] 9 name fifo x.1 x.0 in
    (x.0
      ≡ enqueue_each memory
          (Unit {0})
          codec
          queue
          []
          9
          name
          (attempts memory (Unit {0}) codec queue [] 9 2 item_1)
          empty)
    × (x.1.retry_count ≡ queue.config.max_retries)
    × (memory.items (failed_key queue name) x.0 ≡ memory.items (failed_key queue name) empty)
    × (y.2 ≡ good tt)
    × (memory.items (failed_key queue name) y.0
        ≡ write x.1 ∷ memory.items (failed_key queue name) empty)
unfolding program retry_failed
retries_end_example =
    retries_end memory (Unit {0}) codec queue memory_server codec-IsCodec [] 9 name fifo 2 item_1
      empty refl
