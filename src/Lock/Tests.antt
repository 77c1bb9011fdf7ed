-- ===== src/Lock/Tests.antt =====
-- distributed_lock.go over a server in memory: one client gets the lock, another tries.
use go_cachex.Base.{
  ℕ, ◌≡◌, ◌≢◌, refl, true, false, none, some, List, [], ◌∷◌, arith, ◌≤◌, ◌+◌, ◌*◌, ◌/◌, ℕ_discrete,
}
use go_cachex.Cache.{Str, dec_str}
use go_cachex.Table.{lookup, assign, delete}
use go_cachex.Redis.{Turn, delivered, refused, cut, network_fault, good, bad, ms}
use go_cachex.Redis.Memory.{Keyspace, memory, memory_strings, read, put_nx, expire, remove}
use go_cachex.Lock.Defs.{
  Config, Lock, lock_not_found, new_distributed_lock, try_lock, unlock, watch_tick, reset_state,
}
use go_cachex.Lock.Exclusion.{Held, IsForeign}
use go_cachex.Lock.History.{tries, unlocks, extends, ticks, Call, perform_all, try_lock-excludes}
use go_cachex.Lock.Manager.{Manager, get_lock, new_lock_manager}
use go_cachex.Lock.Ownership.{unlock_served, watch_tick-Held}

-- What a test has to compute with.
program : Unit {0}
unfolding new_distributed_lock try_lock read put_nx expire remove lookup assign delete dec_str
    ℕ_discrete get_lock new_lock_manager
program = tt

abbrev key_1 : Str
key_1 = 1 ∷ []

abbrev token_1 : Str
token_1 = 7 ∷ []

abbrev token_2 : Str
token_2 = 8 ∷ []

abbrev served : ℕ → Turn
served t = record { net = delivered; at = t }

abbrev config_1 : Config
config_1 = record {
  ttl = 1000 * ms;
  retry_interval = 0;
  max_retries = 0;
  namespace = [];
  enable_watchdog = true;
  watchdog_interval = 0;
}

abbrev fresh_lock : Lock
fresh_lock = new_distributed_lock key_1 config_1

abbrev calls : List Call
calls =
    tries 0 (served 20) (served 30) token_2 0
    ∷ unlocks 1 (served 40)
    ∷ extends 2 (served 50) 0 5000
    ∷ ticks 0 (served 60) (record { net = cut network_fault; at = 70 }) 0
    ∷ []

got_it : (try_lock memory (served 9) (served 10) (λ s. s) token_1 0 fresh_lock []).2 ≡ good true
unfolding program
got_it = refl

-- A second instance is turned away while the time to live runs.
turned_away :
    let s = (try_lock memory (served 9) (served 10) (λ s. s) token_1 0 fresh_lock []).1 in
    (try_lock memory (served 9) (served 1009) (λ s. s) token_2 0 fresh_lock s).2 ≡ good false
unfolding program
turned_away = refl

-- Afterwards it gets the lock, while the first instance still believes that it holds it.
both_acquired :
    let (l, s, o) = try_lock memory (served 9) (served 10) (λ s. s) token_1 0 fresh_lock [] in
    let (l', s', o') = try_lock memory (served 9) (served 1010) (λ s. s) token_2 0 fresh_lock s in
    (l.acquired ≡ true) × (l'.acquired ≡ true)
unfolding program
both_acquired = (refl, refl)

real_token : [] ≢ token_1
real_token = λ e. cc

foreign : (j : ℕ) → IsForeign memory fresh_lock.key token_1 fresh_lock
unfolding new_distributed_lock
foreign j = (refl, λ e. cc)

other_token : token_2 ≢ token_1
other_token = λ e. ground arith

try_lock-excludes_example :
    let x = try_lock memory (served 9) (served 10) (λ s. s) token_1 0 fresh_lock [] in
    let w = perform_all memory calls ((λ _. fresh_lock), x.1) in
    (w.1 ≡ false) × Held memory fresh_lock.key token_1 10 (10 + fresh_lock.config.ttl / ms) w.0.1
unfolding program
try_lock-excludes_example =
    try_lock-excludes memory memory_strings (served 9) (served 10) (λ s. s) token_1 0 fresh_lock []
      (λ _. fresh_lock) calls refl real_token got_it foreign
      ((omega arith, omega arith, other_token), (omega arith, (omega arith, (omega arith, tt))))

abbrev held_lock : Lock
held_lock = record fresh_lock { acquired = true; token = token_1 }

abbrev held_keys : Keyspace
held_keys = (held_lock.key, record { content = token_1; until = some 500 }) ∷ []

unlock_served_example :
    let x = unlock memory (served 20) held_lock held_keys in
    (x.0 ≡ reset_state held_lock)
    × (memory.value 20 held_lock.key held_keys ≡ some held_lock.token
        → (x.2 ≡ good tt) × ((t : ℕ) → 20 ≤ t → memory.value t held_lock.key x.1 ≡ none))
    × (memory.value 20 held_lock.key held_keys ≢ some held_lock.token
        → (x.1 ≡ held_keys) × (x.2 ≡ bad lock_not_found))
unlock_served_example =
    unlock_served memory memory_strings (served 20) held_lock held_keys refl refl

watch_tick-Held_example :
    let x = watch_tick memory (served 20) (served 21) (λ g. g) 5 held_lock held_keys in
    (x.2 ≡ true)
    × (x.0 ≡ record held_lock { expire_time = 5 + held_lock.config.ttl })
    × Held memory held_lock.key held_lock.token 21 (21 + held_lock.config.ttl / ms) x.1
unfolding program
watch_tick-Held_example =
    watch_tick-Held memory memory_strings (served 20) (served 21) 5 held_lock held_keys refl
      (λ e. cc) refl refl refl refl

abbrev unreachable : Turn
unreachable = record { net = refused network_fault; at = 30 }

abbrev managed : Manager
managed = record (get_lock key_1 (new_lock_manager [])).0 { heap = λ _. held_lock }

managed_locks : managed.locks ≡ (key_1, 0) ∷ []
unfolding program
managed_locks = refl
