-- ===== src/Delay/Scripts.antt =====
-- delay_queue.go: the Lua scripts, each of which runs at the server as a whole. The keys of the ready
-- set, of the processing set and of the hash are `zkey`, `pkey` and `hkey`.
use go_cachex.Base.{ℕ, ◌+◌, Option, none, some, List, [], ◌∷◌, ◌++◌, length, ltb, if◌then◌else◌}
use go_cachex.Cache.{Str}
use go_cachex.Delay.Server.{Server}

-- What a script returns as a table; an empty one is `false`, which the client reads as nil.
abbrev pub or_false : List Str → Option (List Str)
or_false [] = none
or_false (d ∷ ds) = some (d ∷ ds)

module _ (r : Server) where
  unfoldable pub enqueue_script : Str → Str → ℕ → Str → Str → r.State → r.State
  enqueue_script zkey hkey score member content s =
      r.hset hkey member content (r.zadd zkey score member s)

  -- The loop of the dequeue: to the processing set, and the contents that the hash has.
  unfoldable pub take_each : Str → Str → Str → ℕ → List Str → r.State → r.State × List Str
  take_each zkey pkey hkey visible [] s = (s, [])
  take_each zkey pkey hkey visible (m ∷ ms) s =
      let (s', rest) =
        take_each zkey pkey hkey visible ms (r.zadd pkey visible m (r.zrem zkey m s).0) in
      (s', elim (r.field hkey m s) [ none ↦ rest | some d ↦ d ∷ rest ])

  unfoldable pub dequeue_script :
      Str → Str → Str → ℕ → ℕ → ℕ → r.State → r.State × Option (List Str)
  unfolding take_each
  dequeue_script zkey pkey hkey now batch visible s =
      let (s', found) = take_each zkey pkey hkey visible (r.due zkey now batch s) s in
      (s', or_false found)

  unfoldable pub requeue_each : Str → Str → ℕ → List Str → r.State → r.State
  requeue_each pkey zkey now [] s = s
  requeue_each pkey zkey now (m ∷ ms) s =
      requeue_each pkey zkey now ms (r.zadd zkey now m (r.zrem pkey m s).0)

  unfoldable pub requeue_script : Str → Str → ℕ → ℕ → r.State → r.State × ℕ
  unfolding requeue_each
  requeue_script pkey zkey now batch s =
      let stale = r.due pkey now batch s in (requeue_each pkey zkey now stale s, length stale)

  -- The two loops of the combined script, which stand in it once more.
  unfoldable pub poll_stale : Str → Str → ℕ → List Str → r.State → r.State
  poll_stale zkey pkey now [] s = s
  poll_stale zkey pkey now (m ∷ stale) s =
      let s' = (r.zrem pkey m s).0 in poll_stale zkey pkey now stale (r.zadd zkey now m s')

  unfoldable pub poll_ready :
      Str → Str → Str → ℕ → List Str → List Str → r.State → r.State × List Str
  poll_ready zkey pkey hkey visible [] tasks s = (s, tasks)
  poll_ready zkey pkey hkey visible (m ∷ results) tasks s =
      poll_ready zkey pkey hkey visible results
        (elim (r.field hkey m s) [ none ↦ tasks | some d ↦ tasks ++ d ∷ [] ])
        (r.zadd pkey visible m (r.zrem zkey m s).0)

  unfoldable pub poll_script : Str → Str → Str → ℕ → ℕ → ℕ → r.State → r.State × Option (List Str)
  unfolding poll_stale poll_ready
  poll_script zkey pkey hkey now batch visible s =
      let s' = poll_stale zkey pkey now (r.due pkey now batch s) s in
      let (s'', tasks) = poll_ready zkey pkey hkey visible (r.due zkey now batch s') [] s' in
      (s'', or_false tasks)

  unfoldable pub ack_script : Str → Str → Str → r.State → r.State × ℕ
  ack_script pkey hkey member s =
      let (s', removed) = r.zrem pkey member s in
      (if ltb 0 removed then r.hdel hkey member s' else s', removed)

  unfoldable pub cancel_script : Str → Str → Str → Str → r.State → r.State × ℕ
  cancel_script zkey pkey hkey member s =
      let (s', waiting) = r.zrem zkey member s in
      let (s'', running) = r.zrem pkey member s' in (r.hdel hkey member s'', waiting + running)
