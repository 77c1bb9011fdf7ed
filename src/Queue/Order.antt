-- ===== src/Queue/Order.antt =====
-- queue.go: the FIFO and LIFO queues keep their order, whatever the sequence of calls.
use go_cachex.Base.{
  ℕ, zero, suc, ◌≡◌, refl, ap, Option, none, some, List, [], ◌∷◌, ◌++◌, map, take, drop, ℤ, arith,
}
use go_cachex.Cache.{Str}
use go_cachex.Lru.{if_le_zero}
use go_cachex.Redis.{Turn, delivered, Outcome, good, bad}
use go_cachex.Queue.Server.{Server, IsServer}
use go_cachex.Queue.Defs.{
  QueueType, fifo, lifo, QueueError, QueueHandler, Item, Codec, Moment, queue_key, fill, enqueue,
  dequeue, pop_script, decode_all,
}
use go_cachex.Queue.Views.{batch_dequeue, peek}

pub data ListKind : Type 0 where
  first_in last_in : ListKind

abbrev pub kind_of : ListKind → QueueType
kind_of first_in = fifo
kind_of last_in = lifo

-- What is relied on of the package encoding/json, for items with contents that it can write: an item has a
-- text, and its text is read. What comes back need not be the item: the contents are of the type
-- `interface{}`, and a struct, for one, is read as a map.
pub record IsCodec (r : Server) (D : Type 0) (c : Codec r D) : Type 0 where
  pub encode : Item r D → Str
  pub read_back : Item r D → Item r D
  pub marshal_lem : (i : Item r D) → c.marshal i ≡ some (encode i)
  pub unmarshal_lem : (i : Item r D) → c.unmarshal (encode i) ≡ some (read_back i)

module _ (r : Server) (D : Type 0) (c : Codec r D) (q : QueueHandler) (kind : ListKind)
    (name : Str) where
  -- A call that the server serves. A dequeue may wait, but here nobody else changes the queue.
  pub data Op : Type 0 where
    puts : Str → ℕ → Item r D → Op
    takes : Op
    batches : ℤ → Op
    peeks : ℤ → Op

  pub data Reply : Type 0 where
    stored : Reply
    taken : Option (Item r D) → Reply
    listed : List (Item r D) → Reply
    broken : QueueError → Reply

  abbrev pub served : Turn
  served = record { net = delivered; at = 0 }

  abbrev pub moment : Moment r D c q
  moment = record { first = served; next = served; now = 0; others = λ s. s }

  abbrev put_reply : Outcome QueueError (Unit {0}) → Reply
  put_reply (good _) = stored
  put_reply (bad e) = broken e

  abbrev take_reply : Outcome QueueError (Option (Item r D)) → Reply
  take_reply (good o) = taken o
  take_reply (bad e) = broken e

  abbrev peek_reply : Outcome QueueError (List (Item r D)) → Reply
  peek_reply (good items) = listed items
  peek_reply (bad e) = broken e

  abbrev batch_reply : List (Item r D) → Option QueueError → Reply
  batch_reply items none = listed items
  batch_reply items (some e) = broken e

  unfoldable pub perform : Op → r.State → r.State × Reply
  perform (puts fresh now item) s =
      let (s', _, o) = enqueue r D c q served fresh now name (kind_of kind) item s in
      (s', put_reply o)
  perform takes s = let (s', o) = dequeue r D c q moment name (kind_of kind) s in (s', take_reply o)
  perform (batches count) s =
      let (s', items, e) = batch_dequeue r D c q served (λ _. moment) name (kind_of kind) count s in
      (s', batch_reply items e)
  perform (peeks count) s = (s, peek_reply (peek r D c q served name (kind_of kind) count s))

  unfoldable pub run : List Op → r.State → r.State × List Reply
  unfolding perform
  run [] s = (s, [])
  run (o ∷ ops) s = let (s', x) = perform o s in let (s'', xs) = run ops s' in (s'', x ∷ xs)

  -- The specification: a plain list of items, the next one first. A reader gets an item as its text is read.
  module _ (codec : IsCodec r D c) where
    abbrev pub spec_insert : ListKind → Item r D → List (Item r D) → List (Item r D)
    spec_insert first_in i l = l ++ i ∷ []
    spec_insert last_in i l = i ∷ l

    abbrev pub spec_take : List (Item r D) → List (Item r D) × Reply
    spec_take [] = ([], taken none)
    spec_take (i ∷ l) = (l, taken (some (codec.read_back i)))

    unfoldable pub spec_perform : Op → List (Item r D) → List (Item r D) × Reply
    spec_perform (puts fresh now item) l =
        (spec_insert kind (fill r D c q fresh now item) l, stored)
    spec_perform takes l = spec_take l
    spec_perform (batches count) l =
        let n = if_le_zero count q.config.batch_size in
        (drop n l, listed (map codec.read_back (take n l)))
    spec_perform (peeks count) l = (l, listed (map codec.read_back (take (if_le_zero count 1) l)))

    unfoldable pub spec_run : List Op → List (Item r D) → List (Item r D) × List Reply
    unfolding spec_perform
    spec_run [] l = (l, [])
    spec_run (o ∷ ops) l =
        let (l', x) = spec_perform o l in let (l'', xs) = spec_run ops l' in (l'', x ∷ xs)

pub map-take {ℓ κ} :
    {A : Type ℓ} {B : Type κ} (f : A → B) (n : ℕ) (l : List A) → map f (take n l) ≡ take n (map f l)
map-take f n [] = refl
map-take f zero (x ∷ l) = refl
map-take f (suc n) (x ∷ l) = ap (◌∷◌ (f x)) (map-take f n l)

pub map-append_one {ℓ κ} :
    {A : Type ℓ} {B : Type κ} (f : A → B) (x : A) (l : List A)
    → map f (l ++ x ∷ []) ≡ map f l ++ f x ∷ []
map-append_one f x [] = refl
map-append_one f x (y ∷ l) = ap (◌∷◌ (f y)) (map-append_one f x l)

module _ (r : Server) (laws : IsServer r) (D : Type 0) (c : Codec r D) (codec : IsCodec r D c)
    (q : QueueHandler) where
  pub decode_all-map :
      (l : List (Item r D)) → decode_all r D c q (map codec.encode l) ≡ map codec.read_back l
  unfolding decode_all
  decode_all-map [] = refl
  decode_all-map (i ∷ l) = ground (arith, codec.unmarshal_lem i, decode_all-map l)

  pub pop_script_lem :
      (n : ℕ) (k : Str) (l : List (Item r D)) (s : r.State)
      → r.items k s ≡ map codec.encode l
      → ((pop_script r D c q n k s).1 ≡ map codec.encode (take n l))
        × (r.items k (pop_script r D c q n k s).0 ≡ map codec.encode (drop n l))
  unfolding pop_script
  pop_script_lem zero k [] s h = (refl, h)
  pop_script_lem zero k (i ∷ l) s h = (refl, h)
  pop_script_lem (suc n) k [] s h = ground (arith, laws.lpop_empty k s h)
  pop_script_lem (suc n) k (i ∷ l) s h =
      let (rest, first) = laws.lpop_first k (codec.encode i) (map codec.encode l) s h in
      ground (arith, first, pop_script_lem n k l (r.lpop k s).0 rest)

  module _ (kind : ListKind) (name : Str) where
    -- The server's list holds the items of the specification, in its order.
    abbrev pub Holds : List (Item r D) → r.State → Type 0
    Holds l s = r.items (queue_key q name (kind_of kind)) s ≡ map codec.encode l
