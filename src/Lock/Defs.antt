-- ===== src/Lock/Defs.antt =====
-- distributed_lock.go: `DistributedLock`, over any server with the string commands. The client's clock
-- counts nanoseconds. `stopChan` is the flag `watched`. Durations are not negative.
use go_cachex.Base.{
  ℕ, ◌+◌, ◌*◌, ◌/◌, Bool, true, false, not, Option, none, some, List, [], ◌∷◌, ◌++◌, ite, ◌==◌,
  if◌then◌else◌,
}
use go_cachex.Cache.{Str, dec_str}
use go_cachex.Redis.{Strings, Turn, Fault, client_closed, Outcome, good, bad, outcome_of, ms}

pub data LockError : Type 0 where
  lock_not_found lock_not_owned context_ended : LockError
  failed : Fault → LockError

pub record Config : Type 0 where
  pub ttl : ℕ
  pub retry_interval : ℕ
  pub max_retries : ℕ
  pub namespace : Str
  pub enable_watchdog : Bool
  pub watchdog_interval : ℕ

-- The logger and the hooks are left out.
pub record Lock : Type 0 where
  pub config : Config
  pub key : Str
  pub token : Str
  pub acquired : Bool
  pub expire_time : ℕ
  pub watched : Bool

-- `mathx.IfNotZero` and `mathx.IfNotEmpty`
abbrev pub if_not_zero : ℕ → ℕ → ℕ
if_not_zero v d = if v == 0 then d else v

abbrev pub if_not_empty : Str → Str → Str
if_not_empty [] d = d
if_not_empty (c ∷ s) d = c ∷ s

abbrev pub minute : ℕ
minute = 60_000_000_000

abbrev pub lock_namespace : Str
lock_namespace = b'l' ∷ b'o' ∷ b'c' ∷ b'k' ∷ []

abbrev pub mutex_namespace : Str
mutex_namespace = b'm' ∷ b'u' ∷ b't' ∷ b'e' ∷ b'x' ∷ []

-- The defaults, in the order in which they are set: that of the watchdog sees the new TTL.
unfoldable pub with_defaults : Config → Config
with_defaults c =
    let ttl = if_not_zero c.ttl (5 * minute) in
    record c {
      ttl = ttl;
      retry_interval = if_not_zero c.retry_interval (100 * ms);
      max_retries = if_not_zero c.max_retries 10;
      namespace = if_not_empty c.namespace lock_namespace;
      watchdog_interval = if_not_zero c.watchdog_interval (ttl / 3);
    }

unfoldable pub new_distributed_lock : Str → Config → Lock
unfolding with_defaults
new_distributed_lock key config =
    let c = with_defaults config in
    record {
      config = c;
      key = c.namespace ++ (b':' ∷ key);
      token = [];
      acquired = false;
      expire_time = 0;
      watched = false;
    }

unfoldable pub reset_state : Lock → Lock
reset_state l = record l { acquired = false; token = []; expire_time = 0; watched = false }

-- `err == nil && value == l.token`
unfoldable pub confirms : Str → Outcome Fault (Option Str) → Bool
confirms token (good (some v)) = ite (dec_str v token) true false
confirms token (good none) = false
confirms token (bad e) = false

module _ (r : Strings) where
  -- `client.Get`
  unfoldable pub get_key : Turn → Str → r.State → Outcome Fault (Option Str)
  get_key turn k s = (outcome_of turn.net s (s, r.value turn.at k s)).1

  -- The script of `Unlock`.
  unfoldable pub release_script : ℕ → Str → Str → r.State → r.State × ℕ
  release_script now k token s = elim (r.value now k s) [
    | none ↦ (s, 0)
    | some v ↦
        let (s', deleted) = r.del now k s in
        ite (dec_str v token) (s', if deleted then 1 else 0) (s, 0)
  ]

  -- The script of `Extend`; the duration is in milliseconds.
  unfoldable pub extend_script : ℕ → Str → Str → ℕ → r.State → r.State × ℕ
  extend_script now k token d s = elim (r.value now k s) [
    | none ↦ (s, 0)
    | some v ↦
        let (s', renewed) = r.pexpire now k d s in
        ite (dec_str v token) (s', if renewed then 1 else 0) (s, 0)
  ]

  -- What `TryLock` does with the result of `SetNX`.
  unfoldable pub set_result : ℕ → Lock → Outcome Fault Bool → Lock × Outcome LockError Bool
  set_result clock l (bad e) = (l, bad (failed e))
  set_result clock l (good false) = (l, good false)
  set_result clock l (good true) = (
    record l {
      acquired = true;
      expire_time = clock + l.config.ttl;
      watched = if l.config.enable_watchdog then true else l.watched;
    },
    good true,
  )

  -- A new token, and `SetNX`.
  unfoldable pub try_set : Turn → Str → ℕ → Lock → r.State → Lock × r.State × Outcome LockError Bool
  unfolding set_result
  try_set turn fresh clock l s =
      let (s', o) = outcome_of turn.net s (r.set_nx turn.at l.key fresh l.config.ttl s) in
      let (l', result) = set_result clock (record l { token = fresh }) o in (l', s', result)

  -- `fresh` is the token that the generator gives; `others` is what other clients do to the server
  -- between the two calls.
  unfoldable pub try_lock :
      Turn
      → Turn
      → (r.State → r.State)
      → Str
      → ℕ
      → Lock
      → r.State
      → Lock × r.State × Outcome LockError Bool
  unfolding get_key confirms reset_state try_set
  try_lock first second others fresh clock l s =
      if l.acquired
      then (if confirms l.token (get_key first l.key s)
          then (l, s, good true)
          else try_set second fresh clock (reset_state l) (others s))
      else try_set second fresh clock l s

  unfoldable pub release_result : Outcome Fault ℕ → Outcome LockError (Unit {0})
  release_result (bad e) = bad (failed e)
  release_result (good n) = if n == 1 then good tt else bad lock_not_found

  unfoldable pub unlock : Turn → Lock → r.State → Lock × r.State × Outcome LockError (Unit {0})
  unfolding release_script release_result reset_state
  unlock turn l s =
      if not l.acquired
      then (l, s, bad lock_not_found)
      else (let (s', o) = outcome_of turn.net s (release_script turn.at l.key l.token s) in
          (reset_state l, s', release_result o))

  unfoldable pub extend_result :
      ℕ → ℕ → Lock → Outcome Fault ℕ → Lock × Outcome LockError (Unit {0})
  unfolding reset_state
  extend_result clock d l (bad e) = (reset_state l, bad (failed e))
  extend_result clock d l (good n) =
      if n == 1
      then (record l { expire_time = clock + d }, good tt)
      else (reset_state l, bad lock_not_owned)

  unfoldable pub extend :
      Turn → ℕ → ℕ → Lock → r.State → Lock × r.State × Outcome LockError (Unit {0})
  unfolding extend_script extend_result
  extend turn clock d l s = if not l.acquired then (l, s, bad lock_not_found) else elim l.token [
    | [] ↦ (l, s, bad lock_not_owned)
    | _ ∷ _ ↦
        let (s', o) = outcome_of turn.net s (extend_script turn.at l.key l.token (d / ms) s) in
        let (l', result) = extend_result clock d l o in (l', s', result)
  ]

  unfoldable pub check_result : Lock → Outcome Fault (Option Str) → Lock × Outcome LockError Bool
  unfolding reset_state
  check_result l (bad e) = (l, bad (failed e))
  check_result l (good none) = (reset_state l, good false)
  check_result l (good (some v)) =
      ite (dec_str v l.token) (l, good true) (reset_state l, good false)

  unfoldable pub is_locked : Turn → Lock → r.State → Lock × Outcome LockError Bool
  unfolding get_key check_result
  is_locked turn l s =
      if not l.acquired then (l, good false) else check_result l (get_key turn l.key s)

  -- After the renewal of a tick: does the watchdog go on?
  unfoldable pub renewed : Outcome LockError (Unit {0}) → Bool
  renewed (good _) = true
  renewed (bad _) = false

  -- A tick after `IsLocked`; `others` is what runs before `Extend`, the hook included.
  unfoldable pub watch_checked :
      Turn
      → (Lock × r.State → Lock × r.State)
      → ℕ
      → r.State
      → Lock × Outcome LockError Bool
      → Lock × r.State × Bool
  unfolding extend renewed
  watch_checked turn others clock s (l, bad (failed client_closed)) = (l, s, false)
  watch_checked turn others clock s (l, bad _) = (l, s, true)
  watch_checked turn others clock s (l, good false) = (l, s, false)
  watch_checked turn others clock s (l, good true) =
      let (l', s') = others (l, s) in
      let (l'', s'', o) = extend turn clock l'.config.ttl l' s' in (l'', s'', renewed o)

  -- One tick of the watchdog; the flag says whether its loop goes on.
  unfoldable pub watch_tick :
      Turn → Turn → (Lock × r.State → Lock × r.State) → ℕ → Lock → r.State → Lock × r.State × Bool
  unfolding is_locked watch_checked
  watch_tick first second others clock l s =
      if not l.acquired
      then (l, s, false)
      else watch_checked second others clock s (is_locked first l s)

  -- One round of the loop of `Lock`, and what other clients do before the next one.
  pub record Attempt : Type 0 where
    pub first : Turn
    pub second : Turn
    pub fresh : Str
    pub clock : ℕ
    pub others : r.State → r.State
    pub context_done : Bool
    pub meanwhile : r.State → r.State

  -- `Lock`, with the rounds that its context leaves; `none` means that it is still waiting.
  unfoldable pub lock :
      List Attempt → Lock → r.State → Lock × r.State × Option (Outcome LockError (Unit {0}))
  unfolding try_lock
  lock [] l s = (l, s, none)
  lock (a ∷ attempts) l s =
      let (l', s', o) = try_lock a.first a.second a.others a.fresh a.clock l s in
      elim o [
        | bad e ↦ (l', s', some (bad e))
        | good acquired ↦ elim acquired [
          | true ↦ (l', s', some (good tt))
          | false ↦ elim a.context_done [
            | true ↦ (l', s', some (bad context_ended))
            | false ↦ lock attempts l' (a.meanwhile s')
          ]
        ]
      ]

  -- `fn` runs between `Lock` and the deferred `Unlock`, whose error is dropped.
  unfoldable pub lock_with_retry :
      {A : Type 0}
      → List Attempt
      → Turn
      → (Lock × r.State → Lock × r.State × A)
      → Str
      → Config
      → r.State
      → r.State × Option (Outcome LockError A)
  unfolding lock unlock new_distributed_lock
  lock_with_retry attempts turn fn key config s =
      let (l, s', o) = lock attempts (new_distributed_lock key config) s in
      elim o [
        | none ↦ (s', none)
        | some x ↦ elim x [
          | bad e ↦ (s', some (bad e))
          | good _ ↦ let (l'', s'', a) = fn (l, s') in ((unlock turn l'' s'').1, some (good a))
        ]
      ]

  unfoldable pub mutex_config : ℕ → Config
  mutex_config ttl = record {
    ttl = ttl;
    retry_interval = 100 * ms;
    max_retries = 30;
    namespace = mutex_namespace;
    enable_watchdog = false;
    watchdog_interval = 0;
  }

  unfoldable pub mutex_lock :
      {A : Type 0}
      → List Attempt
      → Turn
      → (Lock × r.State → Lock × r.State × A)
      → Str
      → ℕ
      → r.State
      → r.State × Option (Outcome LockError A)
  unfolding lock_with_retry mutex_config
  mutex_lock attempts turn fn key ttl s = lock_with_retry attempts turn fn key (mutex_config ttl) s
