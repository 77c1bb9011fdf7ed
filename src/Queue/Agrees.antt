-- ===== src/Queue/Agrees.antt =====
-- queue.go: the calls on a FIFO or a LIFO queue, one by one and in sequence, against the plain list.
use go_cachex.Base.{ℕ, ◌≡◌, refl, sym, ap, ◌∙◌, none, List, [], ◌∷◌, map, take, drop, ℤ, arith}
use go_cachex.Cache.{Str}
use go_cachex.Lru.{if_le_zero}
use go_cachex.Redis.{delivered}
use go_cachex.Queue.Server.{Server, IsServer}
use go_cachex.Queue.Defs.{
  QueueHandler, Item, Codec, queue_key, fill, enqueue, dequeue, batch_dequeue_lua, decode_all,
  decoded_all,
}
use go_cachex.Queue.Views.{batch_dequeue, lua_result, peek}
use go_cachex.Queue.Order.{
  ListKind, first_in, last_in, kind_of, IsCodec, Op, puts, takes, batches, peeks, listed, perform,
  run, spec_perform, spec_run, map-take, map-append_one, decode_all-map, pop_script_lem, Holds,
}

module _ (r : Server) (laws : IsServer r) (D : Type 0) (c : Codec r D) (codec : IsCodec r D c)
    (q : QueueHandler) (name : Str) where
  puts-Holds :
      (kind : ListKind) (fresh : Str) (now : ℕ) (item : Item r D) (l : List (Item r D))
      → (s : r.State) → Holds r laws D c codec q kind name l s
      → let o : Op r D c q kind name = puts fresh now item in
        let x = perform r D c q kind name o s in
        let y = spec_perform r D c q kind name codec o l in
        (x.1 ≡ y.1) × Holds r laws D c codec q kind name y.0 x.0
  unfolding perform spec_perform enqueue
  puts-Holds first_in fresh now item l s h =
      let i = fill r D c q fresh now item in
      ground (
        arith,
        codec.marshal_lem i,
        laws.items-rpush (queue_key q name (kind_of first_in)) (codec.encode i) s,
        map-append_one codec.encode i l,
      )
  puts-Holds last_in fresh now item l s h =
      let i = fill r D c q fresh now item in
      ground (
        arith,
        codec.marshal_lem i,
        laws.items-lpush (queue_key q name (kind_of last_in)) (codec.encode i) s,
      )

  takes-Holds :
      (kind : ListKind) (l : List (Item r D)) (s : r.State)
      → Holds r laws D c codec q kind name l s
      → let o : Op r D c q kind name = takes in
        let x = perform r D c q kind name o s in
        let y = spec_perform r D c q kind name codec o l in
        (x.1 ≡ y.1) × Holds r laws D c codec q kind name y.0 x.0
  unfolding perform spec_perform dequeue
  takes-Holds first_in [] s h =
      ground (arith, laws.lpop_empty (queue_key q name (kind_of first_in)) s h)
  takes-Holds last_in [] s h =
      ground (arith, laws.lpop_empty (queue_key q name (kind_of last_in)) s h)
  takes-Holds first_in (i ∷ l) s h = ground (
    arith,
    laws.lpop_first (queue_key q name (kind_of first_in)) (codec.encode i) (map codec.encode l) s h,
    codec.unmarshal_lem i,
  )
  takes-Holds last_in (i ∷ l) s h = ground (
    arith,
    laws.lpop_first (queue_key q name (kind_of last_in)) (codec.encode i) (map codec.encode l) s h,
    codec.unmarshal_lem i,
  )

  batch_lem :
      (n : ℕ) (k : Str) (l : List (Item r D)) (s : r.State)
      → r.items k s ≡ map codec.encode l
      → let x =
          lua_result r D c q
            (batch_dequeue_lua r D c q (record { net = delivered; at = 0 }) k n s) in
        (x.1 ≡ map codec.read_back (take n l))
        × (x.2 ≡ none)
        × (r.items k x.0 ≡ map codec.encode (drop n l))
  unfolding lua_result batch_dequeue_lua decoded_all
  batch_lem n k l s h =
      let (found, rest) = pop_script_lem r laws D c codec q n k l s h in
      (ap (decode_all r D c q) found ∙ decode_all-map r laws D c codec q (take n l), refl, rest)

  batches-Holds :
      (kind : ListKind) (count : ℤ) (l : List (Item r D)) (s : r.State)
      → Holds r laws D c codec q kind name l s
      → let o : Op r D c q kind name = batches count in
        let x = perform r D c q kind name o s in
        let y = spec_perform r D c q kind name codec o l in
        (x.1 ≡ y.1) × Holds r laws D c codec q kind name y.0 x.0
  unfolding perform spec_perform batch_dequeue
  batches-Holds first_in count l s h =
      let n = if_le_zero count q.config.batch_size in
      let (found, fine, rest) = batch_lem n (queue_key q name (kind_of first_in)) l s h in
      (ground (arith, found, fine), rest)
  batches-Holds last_in count l s h =
      let n = if_le_zero count q.config.batch_size in
      let (found, fine, rest) = batch_lem n (queue_key q name (kind_of last_in)) l s h in
      (ground (arith, found, fine), rest)

  peek_lem :
      (n : ℕ) (k : Str) (l : List (Item r D)) (s : r.State)
      → r.items k s ≡ map codec.encode l
      → decode_all r D c q (r.lrange k n s) ≡ map codec.read_back (take n l)
  peek_lem n k l s h =
      ap (decode_all r D c q)
        (laws.lrange_lem k n s ∙ ap (take n) h ∙ sym (map-take codec.encode n l))
      ∙ decode_all-map r laws D c codec q (take n l)

  peeks-Holds :
      (kind : ListKind) (count : ℤ) (l : List (Item r D)) (s : r.State)
      → Holds r laws D c codec q kind name l s
      → let o : Op r D c q kind name = peeks count in
        let x = perform r D c q kind name o s in
        let y = spec_perform r D c q kind name codec o l in
        (x.1 ≡ y.1) × Holds r laws D c codec q kind name y.0 x.0
  unfolding perform spec_perform peek decoded_all
  peeks-Holds first_in count l s h =
      (ap listed (peek_lem (if_le_zero count 1) (queue_key q name (kind_of first_in)) l s h), h)
  peeks-Holds last_in count l s h =
      (ap listed (peek_lem (if_le_zero count 1) (queue_key q name (kind_of last_in)) l s h), h)

  perform-Holds :
      (kind : ListKind) (o : Op r D c q kind name) (l : List (Item r D)) (s : r.State)
      → Holds r laws D c codec q kind name l s
      → let x = perform r D c q kind name o s in
        let y = spec_perform r D c q kind name codec o l in
        (x.1 ≡ y.1) × Holds r laws D c codec q kind name y.0 x.0
  perform-Holds kind (puts fresh now item) l s h = puts-Holds kind fresh now item l s h
  perform-Holds kind takes l s h = takes-Holds kind l s h
  perform-Holds kind (batches count) l s h = batches-Holds kind count l s h
  perform-Holds kind (peeks count) l s h = peeks-Holds kind count l s h

  -- Over every sequence of `Enqueue`, `Dequeue`, `BatchDequeue` and `Peek` on a FIFO or LIFO queue, whose
  -- calls are served and which nobody else uses, with items that encoding/json can write, the replies
  -- are those of a plain list of items, which takes a new item at its end or at its front, each item
  -- as JSON gives it back, and the server ends with the texts of these items.
  pub run_queue-Holds :
      (kind : ListKind) (ops : List (Op r D c q kind name)) (l : List (Item r D)) (s : r.State)
      → Holds r laws D c codec q kind name l s
      → let x = run r D c q kind name ops s in
        let y = spec_run r D c q kind name codec ops l in
        (x.1 ≡ y.1) × Holds r laws D c codec q kind name y.0 x.0
  unfolding run spec_run
  run_queue-Holds kind [] l s h = (refl, h)
  run_queue-Holds kind (o ∷ ops) l s h =
      let (same, still) = perform-Holds kind o l s h in
      let (rest, last) =
        run_queue-Holds kind ops (spec_perform r D c q kind name codec o l).0
          (perform r D c q kind name o s).0 still in
      (cc (same, rest), last)
