-- ===== src/Delay/Exclusive.antt =====
-- delay_queue.go: two instances do not work on one task at once.
use go_cachex.Base.{
  ℕ, ◌+◌, ◌<◌, ◌≡◌, ◌≢◌, refl, sym, ◌∙◌, List, [], ◌∷◌, arith, Bool-cases, some_eq,
}
use go_cachex.Cache.{Str, dec_str}
use go_cachex.Redis.{Turn, Net, delivered, refused, cut, outcome_of}
use go_cachex.Delay.Server.{Server, IsServer, same}
use go_cachex.Delay.Scripts.{
  enqueue_script, take_each, requeue_each, dequeue_script, requeue_script, or_false,
}
use go_cachex.Delay.Defs.{
  DelayQueue, DelayTask, Codec, fault_of, zset_key, hash_key, processing_key, unix_milli,
}
use go_cachex.Delay.Tasks.{poll_expired, dequeue_expired, requeue_stale, decode_all, tasks_of}
use go_cachex.Delay.Polls.{poll_script_lem}
use go_cachex.Delay.Moves.{
  Leased, same_self, same_other, ready-AllOther, stale-AllOther, requeue_each-Leased,
  take_each-Leased,
}
use go_cachex.Delay.Leases.{Coded, AllOf, NoneFor, take_each-NoneFor, requeue_each-Coded}
use go_cachex.Delay.Calls.{
  IsCodec, outcome_of-state, Call, enqueues, cancels, acks, polls, dequeues, requeues, buries,
  handed,
}

module _ (r : Server) (laws : IsServer r) (D : Type 0) (c : Codec D) (codec : IsCodec D c)
    (q : DelayQueue) (name : Str) where
  -- The call takes tasks back from the processing set only before `until`.
  abbrev pub Early : ℕ → Call D → Type 0
  Early until (polls turn clock clock') = unix_milli clock < until
  Early until (requeues turn clock) = unix_milli clock < until
  Early until (enqueues turn task) = Unit
  Early until (cancels turn m) = Unit
  Early until (acks turn m) = Unit
  Early until (dequeues turn clock clock') = Unit
  Early until (buries turn task) = Unit

  abbrev pub AllEarly : ℕ → List (Call D) → Type 0
  AllEarly until [] = Unit
  AllEarly until (x ∷ xs) = Early until x × AllEarly until xs

  abbrev pub z : Str
  z = zset_key q name

  abbrev pub p : Str
  p = processing_key q name

  abbrev pub h : Str
  h = hash_key q name

  abbrev pub Fine : r.State → Type 0
  Fine = Coded r laws D c codec q h

  take_each-field :
      (visible : ℕ) (ms : List Str) (j : Str) (s : r.State)
      → r.field h j (take_each r z p h visible ms s).0 ≡ r.field h j s
  unfolding take_each
  take_each-field visible [] j s = refl
  take_each-field visible (m ∷ ms) j s =
      let s' = (r.zrem z m s).0 in
      take_each-field visible ms j (r.zadd p visible m s')
      ∙ laws.field-zadd h p visible j m s'
      ∙ laws.field-zrem h z j m s

  pub take_each-Coded :
      (visible : ℕ) (ms : List Str) (s : r.State) → Fine s → Fine (take_each r z p h visible ms s).0
  take_each-Coded visible ms s all j d at = all j d (sym (take_each-field visible ms j s) ∙ at)

  pub enqueue_script-Coded :
      (n : ℕ) (task : DelayTask D) (s : r.State)
      → Fine s
      → Fine (enqueue_script r z h n task.key (codec.encode task) s)
  unfolding enqueue_script
  enqueue_script-Coded n task s all j d at =
      let s' = r.zadd z n task.key s in
      let e = codec.encode task in
      elim (dec_str j task.key) [
        | yes same_key ↦ (
          task,
          some_eq (
              sym (
                ground
                  (arith, laws.field-hset h h j task.key e s', same_self h, same_self task.key))
              ∙ at),
          sym same_key,
        )
        | no other ↦ all j d (
            sym (laws.field-zadd h z n j task.key s)
            ∙ sym (ground (arith, laws.field-hset h h j task.key e s', same_other j task.key other))
            ∙ at)
      ]

  pub hdel-Coded : (m : Str) (s : r.State) → Fine s → Fine (r.hdel h m s)
  hdel-Coded m s all j d at =
      all j d (ground (arith, laws.field-hdel h h j m s, Bool-cases (same j m)))

  pub zrem-Coded : (k m : Str) (s : r.State) → Fine s → Fine (r.zrem k m s).0
  zrem-Coded k m s all j d at = all j d (sym (laws.field-zrem h k j m s) ∙ at)

  -- The replies of the scripts.
  pub handed-AllOf :
      (P : DelayTask D → Type 0) (n : Net) (s s' : r.State) (ds : List Str)
      → AllOf r laws D c codec q P (decode_all r D c q ds)
      → AllOf r laws D c codec q P
          (handed (tasks_of r D c q (fault_of r D c q (outcome_of n s (s', or_false ds)).1)))
  unfolding tasks_of
  handed-AllOf P delivered s s' [] all = tt
  handed-AllOf P delivered s s' (d ∷ ds) all = all
  handed-AllOf P (refused e) s s' ds all = tt
  handed-AllOf P (cut e) s s' ds all = tt

  module _ (k : Str) (until : ℕ) where
    abbrev pub Kept : r.State → Type 0
    Kept s = Fine s × Leased r z p k until s

    pub poll_expired-Kept :
        (turn : Turn) (clock clock' : ℕ) (s : r.State)
        → Kept s
        → unix_milli clock < until
        → let x = poll_expired r D c q turn clock clock' name s in
          Kept x.0 × NoneFor r laws D c codec q k (handed x.1)
    unfolding poll_expired
    poll_expired-Kept turn clock clock' s (fine, leased) early =
        let now = unix_milli clock in
        let visible = unix_milli (clock' + q.config.visibility_timeout) in
        let stale = r.due p now q.config.batch_size s in
        let s' = requeue_each r p z now stale s in
        let ready = r.due z now q.config.batch_size s' in
        let taken = take_each r z p h visible ready s' in
        let fine' : Fine s' = requeue_each-Coded r laws D c codec q h p z now stale s fine in
        let leased' : Leased r z p k until s' =
          requeue_each-Leased r laws z p k until now stale s leased (
            stale-AllOther r laws z p k until now stale s leased early
              (laws.due_lem p now q.config.batch_size s)) in
        let others =
          ready-AllOther r laws z p k until now ready s' leased'
            (laws.due_lem z now q.config.batch_size s') in
        rw (poll_script_lem r z p h now q.config.batch_size visible s) (
          outcome_of-state Kept turn.net s (taken.0, or_false taken.1) (fine, leased)
              (
                take_each-Coded visible ready s' fine',
                take_each-Leased r laws z p h k until visible ready s' leased' others,
              ),
          handed-AllOf (λ t. k ≢ t.key) turn.net s taken.0 taken.1
              (take_each-NoneFor r laws D c codec q z p h k visible ready s' fine' others),
        )

    pub dequeue_expired-Kept :
        (turn : Turn) (clock clock' : ℕ) (s : r.State)
        → Kept s
        → let x = dequeue_expired r D c q turn clock clock' name s in
          Kept x.0 × NoneFor r laws D c codec q k (handed x.1)
    unfolding dequeue_expired dequeue_script
    dequeue_expired-Kept turn clock clock' s (fine, leased) =
        let now = unix_milli clock in
        let visible = unix_milli (clock' + q.config.visibility_timeout) in
        let ready = r.due z now q.config.batch_size s in
        let taken = take_each r z p h visible ready s in
        let others =
          ready-AllOther r laws z p k until now ready s leased
            (laws.due_lem z now q.config.batch_size s) in
        (
          outcome_of-state Kept turn.net s (taken.0, or_false taken.1) (fine, leased)
              (
                take_each-Coded visible ready s fine,
                take_each-Leased r laws z p h k until visible ready s leased others,
              ),
          handed-AllOf (λ t. k ≢ t.key) turn.net s taken.0 taken.1
              (take_each-NoneFor r laws D c codec q z p h k visible ready s fine others),
        )

    pub requeue_stale-Kept :
        (turn : Turn) (clock : ℕ) (s : r.State)
        → Kept s
        → unix_milli clock < until
        → Kept (requeue_stale r D c q turn clock name s).0
    unfolding requeue_stale requeue_script
    requeue_stale-Kept turn clock s (fine, leased) early =
        let now = unix_milli clock in
        let stale = r.due p now q.config.batch_size s in
        outcome_of-state Kept turn.net s (requeue_script r p z now q.config.batch_size s)
          (fine, leased)
          (
            requeue_each-Coded r laws D c codec q h p z now stale s fine,
            requeue_each-Leased r laws z p k until now stale s leased (
                stale-AllOther r laws z p k until now stale s leased early
                  (laws.due_lem p now q.config.batch_size s)),
          )
