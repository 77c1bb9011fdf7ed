-- ===== src/Lock/Exclusion.antt =====
-- distributed_lock.go: while the time to live of an acquired lock runs, no other instance gets it,
-- releases it or renews it, whatever the network does to their calls.
use go_cachex.Base.{ℕ, ◌/◌, ◌≤◌, ◌<◌, ◌≡◌, ◌≢◌, Bool, false, some, [], arith}
use go_cachex.Cache.{Str}
use go_cachex.Redis.{Strings, IsStrings, Turn, Outcome, good, bad, ms}
use go_cachex.Lock.Defs.{
  Lock, LockError, try_lock, try_set, get_key, confirms, reset_state, unlock, release_script,
  extend, extend_script, is_locked, watch_tick,
}

abbrev pub granted : Outcome LockError Bool → Bool
granted (good b) = b
granted (bad e) = false

module _ (r : Strings) where
  -- From one time until another the key holds the token.
  abbrev pub Held : Str → Str → ℕ → ℕ → r.State → Type 0
  Held key token from until s = (t : ℕ) → from ≤ t → t < until → r.value t key s ≡ some token

  -- Another instance of the lock.
  abbrev pub IsForeign : Str → Str → Lock → Type 0
  IsForeign key token l = (l.key ≡ key) × (l.token ≢ token)

  abbrev pub InTime : ℕ → ℕ → Turn → Type 0
  InTime from until turn = (from ≤ turn.at) × (turn.at < until)

-- What a foreign call must leave: the lock held, and the instance foreign.
module _ (r : Strings) (laws : IsStrings r) (key token : Str) (from until : ℕ) where
  set_nx_refused :
      (turn : Turn) (k fresh : Str) (ttl : ℕ) (s : r.State)
      → Held r key token from until s
      → InTime r from until turn
      → k ≡ key
      → r.set_nx turn.at k fresh ttl s ≡ (s, false)
  set_nx_refused turn k fresh ttl s held in_time same =
      rw same (laws.set_nx_taken turn.at key fresh token ttl s (held turn.at in_time.0 in_time.1))

  read-Held :
      (turn : Turn) (k : Str) (s : r.State)
      → Held r key token from until s
      → InTime r from until turn
      → k ≡ key
      → r.value turn.at k s ≡ some token
  read-Held turn k s held in_time same = rw same (held turn.at in_time.0 in_time.1)

  try_set-IsForeign :
      (turn : Turn) (fresh : Str) (clock : ℕ) (l : Lock) (s : r.State)
      → Held r key token from until s
      → InTime r from until turn
      → l.key ≡ key
      → fresh ≢ token
      → let x = try_set r turn fresh clock l s in
        (x.1 ≡ s) × IsForeign r key token x.0 × (granted x.2 ≡ false)
  unfolding try_set
  try_set-IsForeign turn fresh clock l s held in_time same other =
      ground (arith, set_nx_refused turn l.key fresh l.config.ttl s held in_time same)

  confirms_foreign :
      (turn : Turn) (l : Lock) (s : r.State)
      → Held r key token from until s
      → InTime r from until turn
      → IsForeign r key token l
      → confirms l.token (get_key r turn l.key s) ≡ false
  unfolding get_key confirms
  confirms_foreign turn l s held in_time (same, other) =
      ground (arith, read-Held turn l.key s held in_time same)

  pub try_lock-IsForeign :
      (first second : Turn) (fresh : Str) (clock : ℕ) (l : Lock) (s : r.State)
      → Held r key token from until s
      → InTime r from until first
      → InTime r from until second
      → IsForeign r key token l
      → fresh ≢ token
      → let x = try_lock r first second (λ g. g) fresh clock l s in
        (x.1 ≡ s) × IsForeign r key token x.0 × (granted x.2 ≡ false)
  unfolding try_lock
  try_lock-IsForeign first second fresh clock l s held in_first in_second (same, other) new =
      ground (
        arith,
        confirms_foreign first l s held in_first (same, other),
        try_set-IsForeign second fresh clock l s held in_second same new,
        try_set-IsForeign second fresh clock (reset_state l) s held in_second same new,
      )

  release_foreign :
      (turn : Turn) (l : Lock) (s : r.State)
      → Held r key token from until s
      → InTime r from until turn
      → IsForeign r key token l
      → release_script r turn.at l.key l.token s ≡ (s, 0)
  unfolding release_script
  release_foreign turn l s held in_time (same, other) =
      ground (arith, read-Held turn l.key s held in_time same)

  extend_foreign :
      (turn : Turn) (d : ℕ) (l : Lock) (s : r.State)
      → Held r key token from until s
      → InTime r from until turn
      → IsForeign r key token l
      → extend_script r turn.at l.key l.token d s ≡ (s, 0)
  unfolding extend_script
  extend_foreign turn d l s held in_time (same, other) =
      ground (arith, read-Held turn l.key s held in_time same)

  pub unlock-IsForeign :
      (turn : Turn) (l : Lock) (s : r.State)
      → [] ≢ token
      → Held r key token from until s
      → InTime r from until turn
      → IsForeign r key token l
      → let x = unlock r turn l s in (x.1 ≡ s) × IsForeign r key token x.0
  unfolding unlock
  unlock-IsForeign turn l s real held in_time (same, other) =
      ground (arith, release_foreign turn l s held in_time (same, other))

  pub extend-IsForeign :
      (turn : Turn) (clock d : ℕ) (l : Lock) (s : r.State)
      → [] ≢ token
      → Held r key token from until s
      → InTime r from until turn
      → IsForeign r key token l
      → let x = extend r turn clock d l s in (x.1 ≡ s) × IsForeign r key token x.0
  unfolding extend
  extend-IsForeign turn clock d l s real held in_time (same, other) =
      ground (arith, extend_foreign turn (d / ms) l s held in_time (same, other))

  pub is_locked-IsForeign :
      (turn : Turn) (l : Lock) (s : r.State)
      → [] ≢ token
      → IsForeign r key token l
      → IsForeign r key token (is_locked r turn l s).0
  unfolding is_locked
  is_locked-IsForeign turn l s real (same, other) = ground arith

  pub watch_tick-IsForeign :
      (first second : Turn) (clock : ℕ) (l : Lock) (s : r.State)
      → [] ≢ token
      → Held r key token from until s
      → InTime r from until second
      → IsForeign r key token l
      → let x = watch_tick r first second (λ g. g) clock l s in
        (x.1 ≡ s) × IsForeign r key token x.0
  unfolding watch_tick
  watch_tick-IsForeign first second clock l s real held in_second foreign =
      let checked = is_locked r first l s in
      ground (
        arith,
        is_locked-IsForeign first l s real foreign,
        extend-IsForeign second clock checked.0.config.ttl checked.0 s real held in_second,
      )
