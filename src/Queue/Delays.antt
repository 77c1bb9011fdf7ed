-- ===== src/Queue/Delays.antt =====
-- queue.go: the delayed queue with two consumers, and the end of the retries.
use go_cachex.Base.{ℕ, zero, suc, ◌+◌, ◌/◌, ◌≤◌, ◌≡◌, refl, ap, ◌∙◌, some, List, [], ◌∷◌, arith}
use go_cachex.Cache.{Str, second}
use go_cachex.Redis.{Turn, delivered, good}
use go_cachex.Queue.Server.{Server, IsServer}
use go_cachex.Queue.Defs.{
  QueueType, QueueHandler, Item, Codec, delayed, delay_key, failed_key, fill, enqueue,
  process_delayed,
}
use go_cachex.Queue.Order.{IsCodec}
use go_cachex.Queue.Views.{retry_failed}

module _ (r : Server) (D : Type 0) (c : Codec r D) (q : QueueHandler) where
  -- Two consumers of a delayed queue can both return the same item: if the second runs as a whole
  -- between the read and the removal of the first, and one item is due for both, each gets it
  -- without an error.
  pub process_delayed_twice :
      (first next first' next' : Turn) (now now' : ℕ) (name d : Str) (item : Item r D) (s : r.State)
      → first.net ≡ delivered
      → first'.net ≡ delivered
      → r.first_due (delay_key q name) now s ≡ some d
      → r.first_due (delay_key q name) now' s ≡ some d
      → c.unmarshal d ≡ some item
      → let rival = λ (g : r.State). process_delayed r D c q first' next' (λ g'. g') now' name g in
        ((rival s).1 ≡ good (some item))
        × ((process_delayed r D c q first next (λ g. (rival g).0) now name s).1 ≡ good (some item))
  unfolding process_delayed
  process_delayed_twice first next first' next' now now' name d item s sent sent' due due' back =
      (ground arith, ground arith)

  -- The item fails again and again, and every call is served.
  unfoldable pub retries : Str → ℕ → Str → QueueType → ℕ → Item r D → r.State → r.State × Item r D
  retries fresh now name kind zero item s = (s, item)
  retries fresh now name kind (suc n) item s =
      let (s', item', _) =
        retry_failed r D c q (record { net = delivered; at = 0 }) fresh now name kind item s in
      retries fresh now name kind n item' s'

  -- The item as a retry hands it to `Enqueue`, and as `Enqueue` leaves it.
  abbrev pub retried : Item r D → Item r D
  retried item = record item {
    retry_count = item.retry_count + 1;
    delay_time = q.config.retry_delay / second;
  }

  -- So many attempts, each with a count that is one higher, and their enqueuing one after the other.
  pub attempts : Str → ℕ → ℕ → Item r D → List (Item r D)
  attempts fresh now zero item = []
  attempts fresh now (suc n) item =
      retried item ∷ attempts fresh now n (fill r D c q fresh now (retried item))

  pub enqueue_each : Str → ℕ → Str → List (Item r D) → r.State → r.State
  enqueue_each fresh now name [] s = s
  enqueue_each fresh now name (i ∷ l) s =
      enqueue_each fresh now name l
        (enqueue r D c q (record { net = delivered; at = 0 }) fresh now name delayed i s).0

  module _ (laws : IsServer r) (codec : IsCodec r D c) (fresh : Str) (now : ℕ) (name : Str)
      (kind : QueueType) where
    retry_again :
        (item : Item r D) (s : r.State)
        → item.retry_count + 1 ≤ q.config.max_retries
        → let x =
            retry_failed r D c q (record { net = delivered; at = 0 }) fresh now name kind item s in
          (x.0
            ≡ (enqueue r D c q
                (record { net = delivered; at = 0 })
                fresh
                now
                name
                delayed
                (retried item)
                s).0)
          × (x.1 ≡ fill r D c q fresh now (retried item))
          × (r.items (failed_key q name) x.0 ≡ r.items (failed_key q name) s)
    unfolding retry_failed
    retry_again item s h =
        let filled = fill r D c q fresh now (retried item) in
        ground (
          arith,
          codec.marshal_lem filled,
          laws.items-zadd (failed_key q name) (delay_key q name)
              (r.of_seconds (now + filled.delay_time)) (codec.encode filled) s,
        )

    retries_lem :
        (n : ℕ) (item : Item r D) (s : r.State)
        → item.retry_count + n ≤ q.config.max_retries
        → let x = retries fresh now name kind n item s in
          (x.0 ≡ enqueue_each fresh now name (attempts fresh now n item) s)
          × (x.1.retry_count ≡ item.retry_count + n)
          × (r.items (failed_key q name) x.0 ≡ r.items (failed_key q name) s)
    unfolding retries attempts enqueue_each
    retries_lem zero item s h = (refl, omega arith, refl)
    retries_lem (suc n) item s h =
        let (queued, filled, same) = retry_again item s (omega arith) in
        let x =
          retry_failed r D c q (record { net = delivered; at = 0 }) fresh now name kind item s in
        let next = fill r D c q fresh now (retried item) in
        let counted : next.retry_count ≡ item.retry_count + 1 = unfold fill in refl in
        let higher = ap (λ (i : Item r D). i.retry_count) filled ∙ counted in
        let (state, count, same') = retries_lem n x.1 x.0 (omega (arith, higher)) in
        (
          state
              ∙ ap (λ i. enqueue_each fresh now name (attempts fresh now n i) x.0) filled
              ∙ ap (enqueue_each fresh now name (attempts fresh now n next)) queued,
          omega (arith, count, higher),
          same' ∙ same,
        )

    give_up :
        (item : Item r D) (s : r.State)
        → q.config.max_retries ≤ item.retry_count
        → let x =
            retry_failed r D c q (record { net = delivered; at = 0 }) fresh now name kind item s in
          (x.1 ≡ item)
          × (x.2 ≡ good tt)
          × (r.items (failed_key q name) x.0 ≡ codec.encode item ∷ r.items (failed_key q name) s)
    unfolding retry_failed
    give_up item s h =
        ground (
          arith,
          codec.marshal_lem item,
          laws.items-lpush (failed_key q name) (codec.encode item) s,
        )

    -- The retries end: as many retries as an item has left change the server exactly as enqueuing it so often
    -- into the delayed queue does, each time with a count that is one higher, and the list of failed
    -- items stays; the retry after that puts the item, with its full count, at the front of this list.
    pub retries_end :
        (n : ℕ) (item : Item r D) (s : r.State)
        → item.retry_count + n ≡ q.config.max_retries
        → let x = retries fresh now name kind n item s in
          let y =
            retry_failed r D c q (record { net = delivered; at = 0 }) fresh now name kind x.1 x.0 in
          (x.0 ≡ enqueue_each fresh now name (attempts fresh now n item) s)
          × (x.1.retry_count ≡ q.config.max_retries)
          × (r.items (failed_key q name) x.0 ≡ r.items (failed_key q name) s)
          × (y.2 ≡ good tt)
          × (r.items (failed_key q name) y.0 ≡ codec.encode x.1 ∷ r.items (failed_key q name) s)
    retries_end n item s h =
        let (queued, counted, same) = retries_lem n item s (omega arith) in
        let x = retries fresh now name kind n item s in
        let (_, fine, put) = give_up x.1 x.0 (omega arith) in
        (queued, omega arith, same, fine, put ∙ ap (◌∷◌ (codec.encode x.1)) same)
