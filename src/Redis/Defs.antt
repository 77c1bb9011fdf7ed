-- ===== src/Redis/Defs.antt =====
-- The string commands of Redis as a record, their documented behaviour, and a call through the client.
--
-- The server's clock counts milliseconds. A command that a Lua script calls runs at the server; a
-- call of the client may fail, before or after the server has done its part.
use go_cachex.Base.{ℕ, ◌+◌, ◌/◌, ◌≤◌, ◌<◌, ◌≡◌, ◌≢◌, Bool, true, false, Option, none, some}
use go_cachex.Cache.{Str}

-- The errors of the client: `redis.ErrClosed`, and any other.
pub data Fault : Type 0 where
  client_closed network_fault : Fault

-- A value, or an error of the type `E`.
pub data Outcome {ℓ} (E A : Type ℓ) : Type ℓ where
  good : A → Outcome E A
  bad : E → Outcome E A

-- What happens to one call of the client: it is served, it never reaches the server, or its reply is
-- lost after the server has served it.
pub data Net : Type 0 where
  delivered : Net
  refused : Fault → Net
  cut : Fault → Net

-- The circumstances of one call: the network, and the clock of the server.
pub record Turn : Type 0 where
  pub net : Net
  pub at : ℕ

abbrev pub outcome_of : {S A : Type 0} → Net → S → S × A → S × Outcome Fault A
outcome_of delivered s (s', a) = (s', good a)
outcome_of (refused e) s (s', a) = (s, bad e)
outcome_of (cut e) s (s', a) = (s', bad e)

abbrev pub ms : ℕ
ms = 1_000_000

pub record Strings : Type 1 where
  pub State : Type 0
  -- What `GET` reads at a time; `none` is `redis.Nil`.
  pub value : ℕ → Str → State → Option Str
  -- `SET k v`, with no expiry.
  pub set : ℕ → Str → Str → State → State
  -- `SetNX` of the client, with a duration in nanoseconds.
  pub set_nx : ℕ → Str → Str → ℕ → State → State × Bool
  pub pexpire : ℕ → Str → ℕ → State → State × Bool
  pub del : ℕ → Str → State → State × Bool

pub record IsStrings (r : Strings) : Type 0 where
  pub value-set :
      (now t : ℕ) (k v : Str) (s : r.State) → now ≤ t → r.value t k (r.set now k v s) ≡ some v
  pub value-set_other :
      (now t : ℕ) (k j v : Str) (s : r.State)
      → j ≢ k
      → r.value t j (r.set now k v s) ≡ r.value t j s
  pub set_nx_taken :
      (now : ℕ) (k v w : Str) (ttl : ℕ) (s : r.State)
      → r.value now k s ≡ some w
      → r.set_nx now k v ttl s ≡ (s, false)
  pub set_nx_free :
      (now : ℕ) (k v : Str) (ttl : ℕ) (s : r.State)
      → r.value now k s ≡ none
      → (r.set_nx now k v ttl s).1 ≡ true
  pub set_nx_lasts :
      (now t : ℕ) (k v : Str) (ttl : ℕ) (s : r.State)
      → r.value now k s ≡ none
      → now ≤ t
      → t < now + ttl / ms
      → r.value t k (r.set_nx now k v ttl s).0 ≡ some v
  pub set_nx_other :
      (now t : ℕ) (k j v : Str) (ttl : ℕ) (s : r.State)
      → j ≢ k
      → r.value t j (r.set_nx now k v ttl s).0 ≡ r.value t j s
  pub pexpire_lasts :
      (now t : ℕ) (k v : Str) (d : ℕ) (s : r.State)
      → r.value now k s ≡ some v
      → now ≤ t
      → t < now + d
      → r.value t k (r.pexpire now k d s).0 ≡ some v
  pub pexpire_held :
      (now : ℕ) (k v : Str) (d : ℕ) (s : r.State)
      → r.value now k s ≡ some v
      → (r.pexpire now k d s).1 ≡ true
  pub pexpire_other :
      (now t : ℕ) (k j : Str) (d : ℕ) (s : r.State)
      → j ≢ k
      → r.value t j (r.pexpire now k d s).0 ≡ r.value t j s
  pub del_held :
      (now : ℕ) (k v : Str) (s : r.State) → r.value now k s ≡ some v → (r.del now k s).1 ≡ true
  pub value-del :
      (now t : ℕ) (k : Str) (s : r.State) → now ≤ t → r.value t k (r.del now k s).0 ≡ none
  pub del_other :
      (now t : ℕ) (k j : Str) (s : r.State) → j ≢ k → r.value t j (r.del now k s).0 ≡ r.value t j s
