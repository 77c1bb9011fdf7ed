-- ===== src/Lock/History.antt =====
-- distributed_lock.go: the calls of any number of instances of one lock, in any order.
use go_cachex.Base.{
  ℕ, ◌+◌, ◌/◌, ◌≡◌, ◌≢◌, refl, Bool, true, false, ◌||◌, List, [], ◌∷◌, ◌∙◌, arith, inl, inr,
  Option-cases,
}
use go_cachex.Cache.{Str}
use go_cachex.Flight.{update}
use go_cachex.Redis.{Strings, IsStrings, Turn, Net, delivered, refused, cut, good, outcome_of, ms}
use go_cachex.Lock.Defs.{Lock, try_lock, try_set, set_result, unlock, extend, is_locked, watch_tick}
use go_cachex.Lock.Exclusion.{
  granted, Held, IsForeign, InTime, try_lock-IsForeign, unlock-IsForeign, extend-IsForeign,
  is_locked-IsForeign, watch_tick-IsForeign,
}

-- A call of the instance with a number; a call runs as a whole, since its first command only reads.
pub data Call : Type 0 where
  tries : ℕ → Turn → Turn → Str → ℕ → Call
  unlocks : ℕ → Turn → Call
  extends : ℕ → Turn → ℕ → ℕ → Call
  checks : ℕ → Turn → Call
  ticks : ℕ → Turn → Turn → ℕ → Call

module _ (r : Strings) where
  -- The instances, and the server.
  abbrev pub World : Type 0
  World = (ℕ → Lock) × r.State

  -- The flag says whether the call is a `TryLock` that got the lock.
  unfoldable pub perform : Call → World → World × Bool
  perform (tries i first second fresh clock) (locks, s) =
      let (l, s', o) = try_lock r first second (λ g. g) fresh clock (locks i) s in
      ((update locks i l, s'), granted o)
  perform (unlocks i turn) (locks, s) =
      let (l, s', o) = unlock r turn (locks i) s in ((update locks i l, s'), false)
  perform (extends i turn clock d) (locks, s) =
      let (l, s', o) = extend r turn clock d (locks i) s in ((update locks i l, s'), false)
  perform (checks i turn) (locks, s) =
      let (l, o) = is_locked r turn (locks i) s in ((update locks i l, s), false)
  perform (ticks i first second clock) (locks, s) =
      let (l, s', o) = watch_tick r first second (λ g. g) clock (locks i) s in
      ((update locks i l, s'), false)

  -- The flag says whether any of the calls got the lock.
  unfoldable pub perform_all : List Call → World → World × Bool
  perform_all [] w = (w, false)
  perform_all (c ∷ cs) w =
      let (w', b) = perform c w in let (w'', b') = perform_all cs w' in (w'', b || b')

  -- The commands of the call fall into the time, and the generator gives it another token.
  abbrev pub Fits : Str → ℕ → ℕ → Call → Type 0
  Fits token from until (tries i first second fresh clock) =
      InTime r from until first × InTime r from until second × (fresh ≢ token)
  Fits token from until (unlocks i turn) = InTime r from until turn
  Fits token from until (extends i turn clock d) = InTime r from until turn
  Fits token from until (checks i turn) = Unit
  Fits token from until (ticks i first second clock) = InTime r from until second

  abbrev pub AllFit : Str → ℕ → ℕ → List Call → Type 0
  AllFit token from until [] = Unit
  AllFit token from until (c ∷ cs) = Fits token from until c × AllFit token from until cs

module _ (r : Strings) (laws : IsStrings r) (key token : Str) (from until : ℕ)
    (real : [] ≢ token) where
  update-IsForeign :
      (locks : ℕ → Lock) (i : ℕ) (l : Lock)
      → ((j : ℕ) → IsForeign r key token (locks j))
      → IsForeign r key token l
      → (j : ℕ) → IsForeign r key token (update locks i l j)
  update-IsForeign locks i l all new j = ground (arith, all j)

  -- The call changes no server, gets no lock, and leaves every instance foreign.
  perform-IsForeign :
      (c : Call) (locks : ℕ → Lock) (s : r.State)
      → Held r key token from until s
      → Fits r token from until c
      → ((j : ℕ) → IsForeign r key token (locks j))
      → let x = perform r c (locks, s) in
        (x.0.1 ≡ s) × ((j : ℕ) → IsForeign r key token (x.0.0 j)) × (x.1 ≡ false)
  unfolding perform
  perform-IsForeign (tries i first second fresh clock) locks s held (a, b, new) all =
      let (same, foreign, refusal) =
        try_lock-IsForeign r laws key token from until first second fresh clock (locks i) s held a b
          (all i) new in
      (same, update-IsForeign locks i _ all foreign, refusal)
  perform-IsForeign (unlocks i turn) locks s held a all =
      let (same, foreign) =
        unlock-IsForeign r laws key token from until turn (locks i) s real held a (all i) in
      (same, update-IsForeign locks i _ all foreign, refl)
  perform-IsForeign (extends i turn clock d) locks s held a all =
      let (same, foreign) =
        extend-IsForeign r laws key token from until turn clock d (locks i) s real held a (all i) in
      (same, update-IsForeign locks i _ all foreign, refl)
  perform-IsForeign (checks i turn) locks s held a all =
      let foreign = is_locked-IsForeign r laws key token from until turn (locks i) s real (all i) in
      (refl, update-IsForeign locks i _ all foreign, refl)
  perform-IsForeign (ticks i first second clock) locks s held a all =
      let (same, foreign) =
        watch_tick-IsForeign r laws key token from until first second clock (locks i) s real held a
          (all i) in
      (same, update-IsForeign locks i _ all foreign, refl)

  perform_all_foreign :
      (cs : List Call) (locks : ℕ → Lock) (s : r.State)
      → Held r key token from until s
      → AllFit r token from until cs
      → ((j : ℕ) → IsForeign r key token (locks j))
      → let x = perform_all r cs (locks, s) in (x.0.1 ≡ s) × (x.1 ≡ false)
  unfolding perform_all
  perform_all_foreign [] locks s held fits all = (refl, refl)
  perform_all_foreign (c ∷ cs) locks s held (fits, rest) all =
      let (same, foreign, refusal) = perform-IsForeign c locks s held fits all in
      let still : Held r key token from until (perform r c (locks, s)).0.1 = rw same held in
      let (same', refusal') =
        perform_all_foreign cs (perform r c (locks, s)).0.0 (perform r c (locks, s)).0.1 still rest
          foreign in
      (same' ∙ same, ground (arith, refusal, refusal'))

-- The call of `SetNX` was served, and set the key.
set_result-true :
    {S : Type 0} (n : Net) (clock : ℕ) (l : Lock) (s : S) (p : S × Bool) (r : Strings)
    → (set_result r clock l (outcome_of n s p).1).1 ≡ good true
    → ((outcome_of n s p).0 ≡ p.0) × (p.1 ≡ true)
unfolding set_result
set_result-true delivered clock l s (s', true) r h = (refl, refl)
set_result-true delivered clock l s (s', false) r h = cc
set_result-true (refused e) clock l s p r h = cc
set_result-true (cut e) clock l s p r h = cc

module _ (r : Strings) (laws : IsStrings r) where
  try_set-Held :
      (turn : Turn) (fresh : Str) (clock : ℕ) (l : Lock) (s : r.State)
      → (try_set r turn fresh clock l s).2 ≡ good true
      → Held r l.key fresh turn.at (turn.at + l.config.ttl / ms) (try_set r turn fresh clock l s).1
  unfolding try_set
  try_set-Held turn fresh clock l s got t after before =
      let (same, set_it) =
        set_result-true turn.net clock (record l { token = fresh }) s
          (r.set_nx turn.at l.key fresh l.config.ttl s) r got in
      elim (Option-cases (r.value turn.at l.key s)) [
        | inl missing ↦
            rw same (laws.set_nx_lasts turn.at t l.key fresh l.config.ttl s missing after before)
        | inr (w, taken) ↦
            ground (arith, laws.set_nx_taken turn.at l.key fresh w l.config.ttl s taken)
      ]

  idle_try_lock :
      (first second : Turn) (others : r.State → r.State) (fresh : Str) (clock : ℕ) (me : Lock)
      → (s : r.State) → me.acquired ≡ false
      → try_lock r first second others fresh clock me s ≡ try_set r second fresh clock me s
  unfolding try_lock
  idle_try_lock first second others fresh clock me s idle = ground arith

  -- Mutual exclusion: an instance that held no lock and gets one by `TryLock` holds it alone for its
  -- time to live. Whatever calls any other instances of the lock make in this time, in whatever
  -- order and whatever the network does to them, if their tokens are other tokens, none of
  -- them gets the lock, and the server keeps the holder's token for all this time.
  pub try_lock-excludes :
      (first second : Turn) (others : r.State → r.State) (fresh : Str) (clock : ℕ) (me : Lock)
      → (s : r.State) (locks : ℕ → Lock) (cs : List Call) → me.acquired ≡ false
      → [] ≢ fresh
      → (try_lock r first second others fresh clock me s).2 ≡ good true
      → ((j : ℕ) → IsForeign r me.key fresh (locks j))
      → AllFit r fresh second.at (second.at + me.config.ttl / ms) cs
      → let w = perform_all r cs (locks, (try_lock r first second others fresh clock me s).1) in
        (w.1 ≡ false) × Held r me.key fresh second.at (second.at + me.config.ttl / ms) w.0.1
  try_lock-excludes first second others fresh clock me s locks cs idle real got all fits =
      let start = idle_try_lock first second others fresh clock me s idle in
      let held : Held r me.key fresh second.at (second.at + me.config.ttl / ms)
          (try_lock r first second others fresh clock me s).1 =
        rw start (try_set-Held second fresh clock me s (rw start at got)) in
      let (same, refusal) =
        perform_all_foreign r laws me.key fresh second.at (second.at + me.config.ttl / ms) real cs
          locks (try_lock r first second others fresh clock me s).1 held fits all in
      (refusal, rw same held)
