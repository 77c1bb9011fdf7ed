-- ===== src/DeadLetters/Bound.antt =====
-- dead_letter_queue.go: what `Push` leaves in the queue, when its calls are served and nobody else acts.
use go_cachex.Base.{
  ℕ, zero, suc, ◌-◌, ◌≤◌, ◌≡◌, refl, ap, sym, ◌∙◌, false, List, [], ◌∷◌, ◌++◌, length, drop, ltb,
  Option, none, Bool-cases, inl, inr, if_yes, if_no, arith,
}
use go_cachex.Cache.{Str}
use go_cachex.Redis.{Turn, delivered, Outcome, good, bad}
use go_cachex.Queue.Server.{Server, IsServer}
use go_cachex.Queue.Defs.{QueueError, Item, Codec, Moment, fifo, fill, queue_key, enqueue, dequeue}
use go_cachex.Queue.Defs
use go_cachex.Queue.Views.{queue_length}
use go_cachex.Queue.Order.{IsCodec}
use go_cachex.DeadLetters.Defs.{
  AlertEvent, DeadLetterError, failed, DeadLetterQueue, drop_oldest, keep_size, wrap, push,
}

length-drop {ℓ} : {A : Type ℓ} (n : ℕ) (l : List A) → length (drop n l) ≡ length l - n
length-drop zero l = ground arith
length-drop (suc n) [] = ground arith
length-drop (suc n) (x ∷ l) = ground (arith, length-drop n l)

drop-empty {ℓ} : {A : Type ℓ} (n : ℕ) → drop {A = A} n [] ≡ []
drop-empty zero = refl
drop-empty (suc n) = refl

drop_zero {ℓ} : {A : Type ℓ} (n : ℕ) (l : List A) → n ≡ 0 → drop n l ≡ l
drop_zero zero l h = refl
drop_zero (suc n) l h = absurd (omega arith)

not_lt : (a b : ℕ) → ltb a b ≡ false → b ≤ a
not_lt a b h = ground arith

at_most : (n m k : ℕ) → k ≡ n - (n - m) → k ≤ m
at_most n m k h = omega arith

module _ (r : Server) (laws : IsServer r) (D : Type 0) (c : Codec r D) (codec : IsCodec r D c)
    (d : DeadLetterQueue) where
  abbrev pub served : Turn
  served = record { net = delivered; at = 0 }

  abbrev pub quiet : ℕ → Moment r D c d.queue_handler
  quiet _ = record { first = served; next = served; now = 0; others = λ s. s }

  drop_oldest_lem :
      (n : ℕ) (key : Str) (l : List Str) (s : r.State)
      → r.items (queue_key d.queue_handler key fifo) s ≡ l
      → r.items (queue_key d.queue_handler key fifo) (drop_oldest r D c d quiet n key s) ≡ drop n l
  unfolding drop_oldest dequeue
  drop_oldest_lem zero key [] s h = h
  drop_oldest_lem zero key (x ∷ l) s h = h
  drop_oldest_lem (suc n) key [] s h =
      drop_oldest_lem n key [] (r.lpop (queue_key d.queue_handler key fifo) s).0 (
        ap (λ p. r.items (queue_key d.queue_handler key fifo) p.0)
          (laws.lpop_empty (queue_key d.queue_handler key fifo) s h)
        ∙ h)
      ∙ drop-empty n
  drop_oldest_lem (suc n) key (x ∷ l) s h =
      let (rest, _) = laws.lpop_first (queue_key d.queue_handler key fifo) x l s h in
      drop_oldest_lem n key l (r.lpop (queue_key d.queue_handler key fifo) s).0 rest

  keep_size_lem :
      (key : Str) (l : List Str) (s : r.State)
      → r.items (queue_key d.queue_handler key fifo) s ≡ l
      → r.items
          (queue_key d.queue_handler key fifo)
          (keep_size r D c d quiet key (good (length l)) s).0
        ≡ drop (length l - d.max_size) l
  unfolding keep_size
  keep_size_lem key l s h =
      let k = queue_key d.queue_handler key fifo in
      let n = length l - d.max_size in
      elim (Bool-cases (ltb d.max_size (length l))) [
        | inl over ↦
            ap (r.items k)
              (if_yes (ltb d.max_size (length l)) (drop_oldest r D c d quiet n key s) s over)
            ∙ drop_oldest_lem n key l s h
        | inr fits ↦
            ap (r.items k)
              (if_no (ltb d.max_size (length l)) (drop_oldest r D c d quiet n key s) s fits)
            ∙ h
            ∙ sym (drop_zero n l (omega (arith, not_lt d.max_size (length l) fits)))
      ]

  enqueue_lem :
      (key : Str) (fresh : Str) (now : ℕ) (i : Item r D) (s : r.State)
      → let item = fill r D c d.queue_handler fresh now i in
        enqueue r D c d.queue_handler served fresh now key fifo i s
        ≡ (r.rpush (queue_key d.queue_handler key fifo) (codec.encode item) s, item, good tt)
  unfolding enqueue Defs.push
  enqueue_lem key fresh now i s =
      rw (enqueue, codec.marshal_lem (fill r D c d.queue_handler fresh now i))

  push_lem :
      (key : Str) (fresh : Str) (now : ℕ) (zero_score : r.Score) (content : D) (s : r.State)
      → let k = queue_key d.queue_handler key fifo in
        let item =
          fill r D c d.queue_handler fresh now (wrap r D c d fresh now zero_score content) in
        let t = r.rpush k (codec.encode item) s in
        push r D c d served served (λ t. t) quiet false fresh now zero_score content key s
        ≡ keep_size r D c d quiet key (good (r.llen k t)) t
  unfolding push queue_length
  push_lem key fresh now zero_score content s =
      let item = wrap r D c d fresh now zero_score content in
      ap
        (λ (x : r.State × Item r D × Outcome QueueError (Unit {0})).
          elim x.2 as (λ _. r.State × Option AlertEvent × Outcome DeadLetterError (Unit {0})) [
            | bad e ↦ (x.0, none, bad (failed e))
            | good _ ↦
                keep_size r D c d quiet key (queue_length r D c d.queue_handler served key fifo x.0)
                  x.0
          ])
        (enqueue_lem key fresh now item s)

  -- A push whose calls are served, with nobody else at work, succeeds: the queue is the old one with the
  -- new item at its end, less its oldest items beyond the greatest size, and is no longer than that.
  pub push-items :
      (key : Str) (fresh : Str) (now : ℕ) (zero_score : r.Score) (content : D) (s : r.State)
      → let k = queue_key d.queue_handler key fifo in
        let item =
          fill r D c d.queue_handler fresh now (wrap r D c d fresh now zero_score content) in
        let x =
          push r D c d served served (λ t. t) quiet false fresh now zero_score content key s in
        let l = r.items k s ++ codec.encode item ∷ [] in
        (r.items k x.0 ≡ drop (length l - d.max_size) l)
        × (length (r.items k x.0) ≤ d.max_size)
        × (x.2 ≡ good tt)
  unfolding keep_size
  push-items key fresh now zero_score content s =
      let k = queue_key d.queue_handler key fifo in
      let item = fill r D c d.queue_handler fresh now (wrap r D c d fresh now zero_score content) in
      let l = r.items k s ++ codec.encode item ∷ [] in
      let t = r.rpush k (codec.encode item) s in
      let stored : r.items k t ≡ l = laws.items-rpush k (codec.encode item) s in
      let counted : r.llen k t ≡ length l = laws.llen_lem k t ∙ ap length stored in
      let whole =
        push_lem key fresh now zero_score content s
        ∙ ap (λ n. keep_size r D c d quiet key (good n) t) counted in
      let kept = ap (λ x. r.items k x.0) whole ∙ keep_size_lem key l t stored in
      let short = ap length kept ∙ length-drop (length l - d.max_size) l in
      (kept, at_most (length l) d.max_size _ short, ap (λ x. x.2) whole)
