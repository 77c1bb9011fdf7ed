-- ===== src/Lock/Ownership.antt =====
-- distributed_lock.go: what the holder of a lock can do with it, and what a former holder cannot.
use go_cachex.Base.{ℕ, ◌+◌, ◌/◌, ◌≤◌, ◌≡◌, ◌≢◌, true, false, none, some, [], arith}
use go_cachex.Redis.{Strings, IsStrings, Turn, delivered, good, bad, ms}
use go_cachex.Lock.Defs.{Lock, lock_not_found, reset_state, unlock, extend, is_locked, watch_tick}
use go_cachex.Lock.Exclusion.{Held}

module _ (r : Strings) (laws : IsStrings r) where
  -- `Unlock` of an acquired lock that the server serves: if the key holds the instance's token, the
  -- key is gone from then on and there is no error; if it does not, the server does not change
  -- and the error is `ErrLockNotFound`. In both cases the local state is reset.
  pub unlock_served :
      (turn : Turn) (l : Lock) (s : r.State)
      → l.acquired ≡ true
      → turn.net ≡ delivered
      → let x = unlock r turn l s in
        (x.0 ≡ reset_state l)
        × (r.value turn.at l.key s ≡ some l.token
            → (x.2 ≡ good tt) × ((t : ℕ) → turn.at ≤ t → r.value t l.key x.1 ≡ none))
        × (r.value turn.at l.key s ≢ some l.token → (x.1 ≡ s) × (x.2 ≡ bad lock_not_found))
  unfolding unlock
  unlock_served turn l s held served = (
    ground arith,
    λ own. (
      ground (arith, laws.del_held turn.at l.key l.token s own),
      λ t after. ground (arith, laws.value-del turn.at t l.key s after),
    ),
    λ lost. (ground arith, ground arith),
  )

  extend_served :
      (turn : Turn) (clock d : ℕ) (l : Lock) (s : r.State)
      → l.acquired ≡ true
      → l.token ≢ []
      → turn.net ≡ delivered
      → r.value turn.at l.key s ≡ some l.token
      → let x = extend r turn clock d l s in
        (x.2 ≡ good tt)
        × (x.0 ≡ record l { expire_time = clock + d })
        × Held r l.key l.token turn.at (turn.at + d / ms) x.1
  unfolding extend
  extend_served turn clock d l s held real served own = (
    ground (arith, laws.pexpire_held turn.at l.key l.token (d / ms) s own),
    ground (arith, laws.pexpire_held turn.at l.key l.token (d / ms) s own),
    λ t after before. ground (
      arith,
      laws.pexpire_held turn.at l.key l.token (d / ms) s own,
      laws.pexpire_lasts turn.at t l.key l.token (d / ms) s own after before,
    ),
  )

  is_locked_served :
      (turn : Turn) (l : Lock) (s : r.State)
      → l.acquired ≡ true
      → turn.net ≡ delivered
      → r.value turn.at l.key s ≡ some l.token
      → is_locked r turn l s ≡ (l, good true)
  unfolding is_locked
  is_locked_served turn l s held served own = ground arith

  -- A tick of the watchdog whose calls are served while the key holds the token goes on, and renews
  -- the lock: it is still acquired, and the key holds the token for a whole time to live more.
  pub watch_tick-Held :
      (first second : Turn) (clock : ℕ) (l : Lock) (s : r.State)
      → l.acquired ≡ true
      → l.token ≢ []
      → first.net ≡ delivered
      → second.net ≡ delivered
      → r.value first.at l.key s ≡ some l.token
      → r.value second.at l.key s ≡ some l.token
      → let x = watch_tick r first second (λ g. g) clock l s in
        (x.2 ≡ true)
        × (x.0 ≡ record l { expire_time = clock + l.config.ttl })
        × Held r l.key l.token second.at (second.at + l.config.ttl / ms) x.1
  unfolding watch_tick
  watch_tick-Held first second clock l s held real served served' own own' =
      let checked = is_locked_served first l s held served own in
      let (done, kept, lasts) =
        extend_served second clock l.config.ttl l s held real served' own' in
      (
        ground (arith, checked, done),
        ground (arith, checked, kept),
        λ t after before. ground (arith, checked, lasts t after before),
      )

  -- A tick of the watchdog that finds another token, or none, stops it, resets the local state and
  -- changes nothing at the server.
  pub watch_tick_lost :
      (first second : Turn) (others : Lock × r.State → Lock × r.State) (clock : ℕ) (l : Lock)
      → (s : r.State) → l.acquired ≡ true
      → first.net ≡ delivered
      → r.value first.at l.key s ≢ some l.token
      → watch_tick r first second others clock l s ≡ (reset_state l, s, false)
  unfolding watch_tick
  watch_tick_lost first second others clock l s held served lost = ground arith
