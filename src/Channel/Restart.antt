-- ===== src/Channel/Restart.antt =====
-- durable_channel.go: what a new channel takes over from Redis.
use go_cachex.Base.{
  ℕ, zero, suc, ◌+◌, ◌≤◌, ◌<◌, ◌≡◌, refl, sym, ap, ◌∙◌, true, false, List, [], ◌∷◌, ◌++◌, map,
  length, length-append, take, drop, arith, lt→ltb,
}
use mathlib.Core.List.{append_assoc, append-nil}
use go_cachex.Cache.{Str}
use go_cachex.Redis.{Turn, delivered, good}
use go_cachex.Channel.Server.{Lists, IsLists}
use go_cachex.Channel.Defs.{Codec, DurableChannel, has_room, put}
use go_cachex.Channel.Flow.{pull_from_redis, recover_loop, recover_messages, smaller}
use go_cachex.Channel.Order.{IsCodec}

length-map : {A : Type 0} {B : Type 0} (f : A → B) (l : List A) → length (map f l) ≡ length l
length-map f [] = refl
length-map f (x ∷ l) = ap suc (length-map f l)

smaller_left : (a b : ℕ) → smaller a b ≤ a
smaller_left a b = ground arith

smaller_right : (a b : ℕ) → smaller a b ≤ b
smaller_right a b = ground arith

module _ (r : Lists) (laws : IsLists r) (T : Type 0) (z : Codec T) (codec : IsCodec T z) where
  pull-first :
      (turn : Turn) (x : T) (vs : List Str) (d : DurableChannel T) (s : r.State)
      → turn.net ≡ delivered
      → r.items d.queue_key s ≡ codec.encode x ∷ vs
      → let y = pull_from_redis r T z turn d s in (y.1 ≡ good x) × (r.items d.queue_key y.0 ≡ vs)
  unfolding pull_from_redis
  pull-first turn x vs d s served first =
      let (rest, popped) = laws.lpop_first d.queue_key (codec.encode x) vs s first in
      (ground (arith, codec.decompress_lem x), ground arith)

  recover_step :
      (turns : ℕ → Turn × Turn) (n : ℕ) (x : T) (d : DurableChannel T) (s : r.State)
      → (pull_from_redis r T z (turns n).0 d s).1 ≡ good x
      → has_room T d ≡ true
      → recover_loop r T z turns (suc n) d s
        ≡ recover_loop r T z turns n (put T x d) (pull_from_redis r T z (turns n).0 d s).0
  unfolding recover_loop
  recover_step turns n x d s pulled room = ground arith

  room-lem : (d : DurableChannel T) → length d.buffer < d.settings.buffer_size → has_room T d ≡ true
  unfolding has_room
  room-lem d h = lt→ltb _ _ h

  put_key : (x : T) (d : DurableChannel T) → (put T x d).queue_key ≡ d.queue_key
  unfolding put
  put_key x d = refl

  put_fits :
      (x : T) (d : DurableChannel T) (n : ℕ)
      → length d.buffer + suc n ≤ d.settings.buffer_size
      → length (put T x d).buffer + n ≤ (put T x d).settings.buffer_size
  unfolding put
  put_fits x d n h = omega (arith, length-append d.buffer (x ∷ []))

  put_joins :
      (x : T) (d : DurableChannel T) (l : List T) → (put T x d).buffer ++ l ≡ d.buffer ++ (x ∷ l)
  unfolding put
  put_joins x d l = append_assoc d.buffer (x ∷ []) l

  recover_loop_lem :
      (turns : ℕ → Turn × Turn) (n : ℕ) (l : List T) (d : DurableChannel T) (s : r.State)
      → ((i : ℕ) → (turns i).0.net ≡ delivered)
      → r.items d.queue_key s ≡ map codec.encode l
      → n ≤ length l
      → length d.buffer + n ≤ d.settings.buffer_size
      → let y = recover_loop r T z turns n d s in
        (y.0.buffer ≡ d.buffer ++ take n l)
        × (r.items d.queue_key y.1 ≡ map codec.encode (drop n l))
  recover_loop_lem turns zero [] d s served stored some_ fits =
      unfold recover_loop in (sym (append-nil d.buffer), stored)
  recover_loop_lem turns zero (x ∷ l) d s served stored some_ fits =
      unfold recover_loop in (sym (append-nil d.buffer), stored)
  recover_loop_lem turns (suc n) [] d s served stored some_ fits = absurd (omega arith)
  recover_loop_lem turns (suc n) (x ∷ l) d s served stored some_ fits =
      let (pulled, left) = pull-first (turns n).0 x (map codec.encode l) d s (served n) stored in
      let s' = (pull_from_redis r T z (turns n).0 d s).0 in
      let step = recover_step turns n x d s pulled (room-lem d (omega arith)) in
      let key = put_key x d in
      let (buffered, rest) =
        recover_loop_lem turns n l (put T x d) s' served (ap (λ k. r.items k s') key ∙ left)
          (omega arith) (put_fits x d n fits) in
      let s'' = (recover_loop r T z turns n (put T x d) s').1 in
      (
        ap (λ y. y.0.buffer) step ∙ buffered ∙ put_joins x d (take n l),
        ap (λ y. r.items d.queue_key y.1) step ∙ ap (λ k. r.items k s'') (sym key) ∙ rest,
      )

  recover_all :
      (asks : Turn) (turns : ℕ → Turn × Turn) (n : ℕ) (d : DurableChannel T) (s : r.State)
      → d.cancelled ≡ false
      → asks.net ≡ delivered
      → r.llen d.queue_key s ≡ n
      → recover_messages r T z asks turns d s
        ≡ recover_loop r T z turns (smaller n d.settings.buffer_size) d s
  unfolding recover_messages
  recover_all asks turns n d s runs asked counted = ground arith

  -- A recovery that is served moves the oldest messages of Redis, as many as there are or as the empty buffer
  -- holds, to the buffer in their order, and leaves the others in Redis.
  pub recover_messages-moves :
      (asks : Turn) (turns : ℕ → Turn × Turn) (l : List T) (d : DurableChannel T) (s : r.State)
      → d.cancelled ≡ false
      → asks.net ≡ delivered
      → ((i : ℕ) → (turns i).0.net ≡ delivered)
      → r.items d.queue_key s ≡ map codec.encode l
      → d.buffer ≡ []
      → let n = smaller (length l) d.settings.buffer_size in
        let y = recover_messages r T z asks turns d s in
        (y.0.buffer ≡ take n l) × (r.items d.queue_key y.1 ≡ map codec.encode (drop n l))
  recover_messages-moves asks turns l d s runs asked served stored none_yet =
      let n = smaller (length l) d.settings.buffer_size in
      let shown =
        recover_all asks turns (length l) d s runs asked
          (laws.llen_lem d.queue_key s ∙ ap length stored ∙ length-map codec.encode l) in
      let size = d.settings.buffer_size in
      let (buffered, rest) =
        recover_loop_lem turns n l d s served stored (smaller_left (length l) size)
          (omega (arith, ap length none_yet, smaller_right (length l) size)) in
      (
        ap (λ y. y.0.buffer) shown ∙ buffered ∙ ap (λ b. b ++ take n l) none_yet,
        ap (λ y. r.items d.queue_key y.1) shown ∙ rest,
      )
