-- ===== src/Lock/Manager.antt =====
-- distributed_lock.go: `LockManager`. The locks are shared objects: the map gives the number of a lock
-- in the heap, and a lock that has left the map stays in the heap.
use go_cachex.Base.{
  ℕ, ◌+◌, ◌*◌, ◌≡◌, Bool, true, not, Option, none, some, List, [], ◌∷◌, arith, if◌then◌else◌,
}
use go_cachex.Cache.{Str}
use go_cachex.Table.{lookup, assign, delete, lookup-delete}
use go_cachex.Flight.{update}
use go_cachex.Redis.{Strings, Turn, refused, Fault, Outcome, good, bad, ms}
use go_cachex.Lock.Defs.{
  Config, Lock, LockError, lock_not_found, failed, minute, lock_namespace, new_distributed_lock,
  unlock, is_locked,
}

pub record Manager : Type 0 where
  pub config : Config
  pub locks : List (Str × ℕ)
  pub heap : ℕ → Lock
  pub next : ℕ

abbrev pub manager_config : Config
manager_config = record {
  ttl = 5 * minute;
  retry_interval = 100 * ms;
  max_retries = 10;
  namespace = lock_namespace;
  enable_watchdog = true;
  watchdog_interval = minute;
}

-- The options change the configuration, one after the other.
unfoldable pub apply_options : List (Config → Config) → Config → Config
apply_options [] c = c
apply_options (f ∷ opts) c = apply_options opts (f c)

unfoldable pub new_lock_manager : List (Config → Config) → Manager
unfolding apply_options new_distributed_lock
new_lock_manager opts = record {
  config = apply_options opts manager_config;
  locks = [];
  heap = λ _. new_distributed_lock [] manager_config;
  next = 0;
}

-- The lock of the key, made if there is none.
unfoldable pub get_lock : Str → Manager → Manager × ℕ
get_lock key m = elim (lookup key m.locks) [
  | some p ↦ (m, p)
  | none ↦ (
    record m {
      locks = assign key m.next m.locks;
      heap = update m.heap m.next (new_distributed_lock key m.config);
      next = m.next + 1;
    },
    m.next,
  )
]

module _ (r : Strings) where
  unfoldable pub release_lock :
      Turn → Str → Manager → r.State → Manager × r.State × Outcome LockError (Unit {0})
  release_lock turn key m s = elim (lookup key m.locks) [
    | none ↦ (m, s, bad lock_not_found)
    | some p ↦
        let (l, s', o) = unlock r turn (m.heap p) s in
        (record m { locks = delete key m.locks; heap = update m.heap p l }, s', o)
  ]

  -- The error of a release replaces the last one.
  unfoldable pub last_error :
      Str → Outcome LockError (Unit {0}) → Option (Str × LockError) → Option (Str × LockError)
  last_error key (good _) e = e
  last_error key (bad x) e = some (key, x)

  -- The loop of `ReleaseAllLocks`; each release has its own circumstances.
  unfoldable pub release_each :
      (Str → Turn)
      → List (Str × ℕ)
      → (ℕ → Lock)
      → r.State
      → Option (Str × LockError)
      → (ℕ → Lock) × r.State × Option (Str × LockError)
  unfolding last_error
  release_each turns [] heap s e = (heap, s, e)
  release_each turns ((key, p) ∷ locks) heap s e =
      let (l, s', o) = unlock r (turns key) (heap p) s in
      release_each turns locks (update heap p l) s' (last_error key o e)

  unfoldable pub release_all_locks :
      (Str → Turn) → Manager → r.State → Manager × r.State × Option (Str × LockError)
  unfolding release_each
  release_all_locks turns m s =
      let (heap, s', e) = release_each turns m.locks m.heap s none in
      (record m { locks = []; heap = heap }, s', e)

  -- `err != nil || !locked`
  unfoldable pub is_stale : Outcome LockError Bool → Bool
  is_stale (bad e) = true
  is_stale (good locked) = not locked

  -- The two loops of `CleanupExpiredLocks`: the keys to delete, and their deletion.
  unfoldable pub stale_keys :
      (Str → Turn) → List (Str × ℕ) → (ℕ → Lock) → r.State → (ℕ → Lock) × List Str
  unfolding is_stale
  stale_keys turns [] heap s = (heap, [])
  stale_keys turns ((key, p) ∷ locks) heap s =
      let (l, o) = is_locked r (turns key) (heap p) s in
      let (heap', keys) = stale_keys turns locks (update heap p l) s in
      (heap', if is_stale o then key ∷ keys else keys)

  unfoldable pub delete_keys : List Str → List (Str × ℕ) → List (Str × ℕ)
  delete_keys [] locks = locks
  delete_keys (k ∷ keys) locks = delete_keys keys (delete k locks)

  unfoldable pub cleanup_expired_locks : (Str → Turn) → Manager → r.State → Manager
  unfolding stale_keys delete_keys
  cleanup_expired_locks turns m s =
      let (heap, keys) = stale_keys turns m.locks m.heap s in
      record m { locks = delete_keys keys m.locks; heap = heap }

  delete_keys-none :
      (j : Str) (keys : List Str) (locks : List (Str × ℕ))
      → lookup j locks ≡ none
      → lookup j (delete_keys keys locks) ≡ none
  unfolding delete_keys
  delete_keys-none j [] locks h = h
  delete_keys-none j (k ∷ keys) locks h =
      delete_keys-none j keys (delete k locks) (ground (arith, lookup-delete j k locks))

  stale_unreachable :
      (turn : Turn) (f : Fault) (l : Lock) (s : r.State)
      → l.acquired ≡ true
      → turn.net ≡ refused f
      → is_locked r turn l s ≡ (l, bad (failed f))
  unfolding is_locked
  stale_unreachable turn f l s held lost = ground arith

  -- `CleanupExpiredLocks` drops an acquired lock whose check does not reach the server, also if the
  -- server still holds its key: `ReleaseLock` then reports `ErrLockNotFound` and changes nothing.
  pub cleanup_expired_locks_forgets :
      (turns : Str → Turn) (turn : Turn) (key : Str) (p : ℕ) (f : Fault) (m : Manager) (s : r.State)
      → (rest : List (Str × ℕ)) → m.locks ≡ (key, p) ∷ rest
      → (m.heap p).acquired ≡ true
      → (turns key).net ≡ refused f
      → let m' = cleanup_expired_locks turns m s in
        release_lock turn key m' s ≡ (m', s, bad lock_not_found)
  unfolding cleanup_expired_locks release_lock
  cleanup_expired_locks_forgets turns turn key p f m s rest first held lost =
      let later = stale_keys turns rest (update m.heap p (m.heap p)) s in
      let gone : lookup key (delete key ((key, p) ∷ rest)) ≡ none =
        ground (arith, lookup-delete key key ((key, p) ∷ rest)) in
      ground (
        arith,
        stale_unreachable (turns key) f (m.heap p) s held lost,
        delete_keys-none key later.1 (delete key ((key, p) ∷ rest)) gone,
      )
