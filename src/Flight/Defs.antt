-- ===== src/Flight/Defs.antt =====
-- ctxcache.go: the state of a `flightGroup` and of the goroutines inside `Do`.
use go_cachex.Base.{ℕ, ◌+◌, ◌≡◌, Option, none, some, List, [], ite, ℕ_discrete}
use go_cachex.Cache.{Result, err, context_error, Str, Slice}
use go_cachex.Table.{lookup, assign, delete}

-- Where a goroutine is: outside, running `fn` for the key under the call that it made, waiting
-- for a call, or back with a result.
pub data Pc : Type 0 where
  idle : Pc
  running : Str → ℕ → Pc
  waiting : ℕ → Pc
  returned : Result Slice → Pc

abbrev pub update {ℓ} : {A : Type ℓ} → (ℕ → A) → ℕ → A → ℕ → A
update f i x j = ite (ℕ_discrete i j) x (f j)

-- The map `g.m`, the outcome of each call once its channel is closed, the number of the next call,
-- and the goroutines.
pub record Group : Type 0 where
  pub m : List (Str × ℕ)
  pub outcome : ℕ → Option (Result Slice)
  pub next : ℕ
  pub pc : ℕ → Pc

unfoldable pub new_flight_group : Group
new_flight_group = record { m = []; outcome = λ _. none; next = 0; pc = λ _. idle }

-- No call for the key is in flight: make one, and run `fn`.
unfoldable pub lead : ℕ → Str → Group → Group
lead i k g = record g {
  m = assign k g.next g.m;
  next = g.next + 1;
  pc = update g.pc i (running k g.next);
}

-- `fn` has returned: publish the outcome, close the channel, take the call off the map.
unfoldable pub finish : ℕ → Str → ℕ → Result Slice → Group → Group
finish i k c r g = record g {
  m = delete k g.m;
  outcome = update g.outcome c (some r);
  pc = update g.pc i (returned r);
}

unfoldable pub move_to : ℕ → Pc → Group → Group
move_to i p g = record g { pc = update g.pc i p }

pub data Step (g : Group) : Group → Type 0 where
  leads : (i : ℕ) (k : Str) → g.pc i ≡ idle → lookup k g.m ≡ none → Step g (lead i k g)
  joins :
      (i : ℕ) (k : Str) (c : ℕ)
      → g.pc i ≡ idle
      → lookup k g.m ≡ some c
      → Step g (move_to i (waiting c) g)
  finishes :
      (i : ℕ) (k : Str) (c : ℕ) (r : Result Slice)
      → g.pc i ≡ running k c
      → Step g (finish i k c r g)
  -- `fn` panics, and nothing is deferred: the goroutine leaves `Do` by the panic, the call stays in the map,
  -- and its channel is not closed.
  panics : (i : ℕ) (k : Str) (c : ℕ) → g.pc i ≡ running k c → Step g (move_to i idle g)
  wakes :
      (i c : ℕ) (r : Result Slice)
      → g.pc i ≡ waiting c
      → g.outcome c ≡ some r
      → Step g (move_to i (returned r) g)
  cancels : (i c : ℕ) → g.pc i ≡ waiting c → Step g (move_to i (returned (err context_error)) g)
  leaves : (i : ℕ) (r : Result Slice) → g.pc i ≡ returned r → Step g (move_to i idle g)

-- A step in which no `fn` panics.
abbrev pub Quiet : {g h : Group} → Step g h → Type 0
Quiet (leads i k at free) = Unit {0}
Quiet (joins i k c at known) = Unit {0}
Quiet (finishes i k c r at) = Unit {0}
Quiet (panics i k c at) = ⊥
Quiet (wakes i c r at known) = Unit {0}
Quiet (cancels i c at) = Unit {0}
Quiet (leaves i r at) = Unit {0}

pub data Reach : Group → Type 0 where
  start : Reach new_flight_group
  later : {g h : Group} → Reach g → Step g h → Reach h

abbrev pub AllQuiet : {g : Group} → Reach g → Type 0
AllQuiet start = Unit {0}
AllQuiet (later r s) = AllQuiet r × Quiet s

-- What may happen after a state.
pub data Follows (g : Group) : Group → Type 0 where
  here : Follows g g
  next : {h h' : Group} → Follows g h → Step h h' → Follows g h'
