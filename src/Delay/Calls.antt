-- ===== src/Delay/Calls.antt =====
-- delay_queue.go: the calls of any number of instances on one queue, in any order.
use go_cachex.Base.{ℕ, ◌≡◌, ◌≢◌, refl, some, List, [], ◌∷◌, ◌++◌}
use go_cachex.Cache.{Str}
use go_cachex.Redis.{Turn, Net, delivered, refused, cut, Outcome, good, bad, outcome_of}
use go_cachex.Delay.Server.{Server}
use go_cachex.Delay.Defs.{DelayQueue, DelayTask, Codec, DelayError, fault_of, enqueue_at, cancel}
use go_cachex.Delay.Tasks.{poll_expired, dequeue_expired, requeue_stale, ack, move_to_dead}

-- What is relied on of the package encoding/json: a task comes back from its own text.
pub record IsCodec (D : Type 0) (c : Codec D) : Type 0 where
  pub encode : DelayTask D → Str
  pub marshal_lem : (t : DelayTask D) → c.marshal t ≡ some (encode t)
  pub unmarshal_lem : (t : DelayTask D) → c.unmarshal (encode t) ≡ some t

-- A call leaves the state or runs its script.
pub outcome_of-state :
    {S A : Type 0} (P : S → Type 0) (n : Net) (s : S) (x : S × A)
    → P s
    → P x.0
    → P (outcome_of n s x).0
outcome_of-state P delivered s (s', a) before after = after
outcome_of-state P (refused e) s (s', a) before after = before
outcome_of-state P (cut e) s (s', a) before after = after

-- A call that reports no error has been served.
pub outcome_of-good :
    (r : Server) (D : Type 0) (c : Codec D) (q : DelayQueue) {A : Type 0} (n : Net) (s : r.State)
    → (x : r.State × A) (a : A) → fault_of r D c q (outcome_of n s x).1 ≡ good a
    → (outcome_of n s x).0 ≡ x.0
outcome_of-good r D c q delivered s (s', b) a h = refl
outcome_of-good r D c q (refused e) s (s', b) a h = cc
outcome_of-good r D c q (cut e) s (s', b) a h = cc

-- Each step of the consumers is one of these calls, or several.
pub data Call (D : Type 0) : Type 0 where
  enqueues : Turn → DelayTask D → Call D
  cancels : Turn → Str → Call D
  acks : Turn → Str → Call D
  polls dequeues : Turn → ℕ → ℕ → Call D
  requeues : Turn → ℕ → Call D
  buries : Turn → DelayTask D → Call D

abbrev pub handed : {D : Type 0} → Outcome DelayError (List (DelayTask D)) → List (DelayTask D)
handed (good ts) = ts
handed (bad e) = []

module _ {D : Type 0} where
  -- The call enqueues, cancels or acknowledges no task with the key `k`.
  abbrev pub Spares : Str → Call D → Type 0
  Spares k (enqueues turn task) = k ≢ task.key
  Spares k (cancels turn key) = k ≢ key
  Spares k (acks turn key) = k ≢ key
  Spares k (polls turn clock clock') = Unit
  Spares k (dequeues turn clock clock') = Unit
  Spares k (requeues turn clock) = Unit
  Spares k (buries turn task) = Unit

  abbrev pub AllSpare : Str → List (Call D) → Type 0
  AllSpare k [] = Unit
  AllSpare k (x ∷ xs) = Spares k x × AllSpare k xs

module _ (r : Server) (D : Type 0) (c : Codec D) (q : DelayQueue) (name : Str) where
  -- The new state, and the tasks that the call hands to its caller.
  unfoldable pub perform : Call D → r.State → r.State × List (DelayTask D)
  perform (enqueues turn task) s = ((enqueue_at r D c q turn name (some task) s).0, [])
  perform (cancels turn key) s = ((cancel r D c q turn name key s).0, [])
  perform (acks turn key) s = ((ack r D c q turn name key s).0, [])
  perform (polls turn clock clock') s =
      let (s', o) = poll_expired r D c q turn clock clock' name s in (s', handed o)
  perform (dequeues turn clock clock') s =
      let (s', o) = dequeue_expired r D c q turn clock clock' name s in (s', handed o)
  perform (requeues turn clock) s = ((requeue_stale r D c q turn clock name s).0, [])
  perform (buries turn task) s = (move_to_dead r D c q turn name task s, [])

  unfoldable pub perform_all : List (Call D) → r.State → r.State × List (DelayTask D)
  perform_all [] s = (s, [])
  perform_all (x ∷ xs) s =
      let (s', ts) = perform x s in let (s'', ts') = perform_all xs s' in (s'', ts ++ ts')
