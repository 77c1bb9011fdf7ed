-- ===== src/Delay/Starts.antt =====
-- delay_queue.go: `StartConsumer` does not keep a queue to one consumer.
use go_cachex.Base.{ℕ, ◌≡◌, false, none, some, ◌∷◌, arith}
use go_cachex.Cache.{Str}
use go_cachex.Table.{lookup, assign, delete, lookup-assign, lookup-delete}
use go_cachex.Delay.Defs.{DelayQueue}
use go_cachex.Delay.Consumer.{start_consumer, leave, stop_consumer}

-- Two calls of StartConsumer for one queue that has no consumer can both succeed, if the second runs
-- between the two critical sections of the first. The map then holds only the first one, and
-- StopConsumer cancels no other.
pub start_consumer_twice :
    (me other : ℕ) (name : Str) (q : DelayQueue)
    → q.closed ≡ false
    → lookup name q.consumers ≡ none
    → let rival = λ (g : DelayQueue). start_consumer (λ g'. g') other name g in
      let x = start_consumer (λ g. (rival g).0) me name q in
      ((rival q).1 ≡ none)
      × (x.1 ≡ none)
      × (lookup name x.0.consumers ≡ some me)
      × ((stop_consumer name x.0).cancelled ≡ me ∷ q.cancelled)
unfolding start_consumer stop_consumer
start_consumer_twice me other name q open_ free =
    let l = assign name other q.consumers in
    (
      ground arith,
      ground (arith, lookup-assign name name me l),
      ground (arith, lookup-assign name name me l),
      ground (arith, lookup-assign name name me l),
    )

-- A consumer that ends takes the next one of its queue out of the map: after StopConsumer and another
-- StartConsumer, the end of the first goroutine lets a third consumer start while the second runs.
pub leave-forgets_next :
    (first second third : ℕ) (name : Str) (q : DelayQueue)
    → q.closed ≡ false
    → lookup name q.consumers ≡ some first
    → let x = start_consumer (λ g. g) second name (stop_consumer name q) in
      let y = start_consumer (λ g. g) third name (leave name x.0) in
      (x.1 ≡ none)
      × (lookup name x.0.consumers ≡ some second)
      × (y.1 ≡ none)
      × (y.0.cancelled ≡ first ∷ q.cancelled)
unfolding start_consumer stop_consumer leave
leave-forgets_next first second third name q open_ runs =
    let l = delete name q.consumers in
    let l' = assign name second l in
    let gone = lookup-delete name name q.consumers in
    let here = lookup-assign name name second l in
    let left = lookup-delete name name l' in
    (
      ground (arith, gone, here, left),
      ground (arith, gone, here, left),
      ground (arith, gone, here, left),
      ground (arith, gone, here, left),
    )
