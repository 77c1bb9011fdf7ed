-- ===== src/Delay/Leases.antt =====
-- delay_queue.go: a task that a poll hands out is handed to nobody else before its visibility timeout.
use mathlib.Core.List.{append_cancel_left}
use go_cachex.Base.{ℕ, ◌≡◌, ◌≢◌, refl, sym, ap, ◌∙◌, Option, none, some, List, [], ◌∷◌, arith}
use mathlib.Core.Path.{subst}
use go_cachex.Cache.{Str, head_of, tail_of}
use go_cachex.Delay.Server.{Server, IsServer}
use go_cachex.Delay.Scripts.{take_each, requeue_each}
use go_cachex.Delay.Defs.{DelayQueue, DelayTask, Codec, zset_key, processing_key}
use go_cachex.Delay.Tasks.{decode_all}
use go_cachex.Delay.Moves.{
  Leased, AllOther, take_each-Leased_again, moved, field-moved, score-moved_self, score-moved_from,
}
use go_cachex.Delay.Calls.{IsCodec}

module _ (r : Server) (laws : IsServer r) (D : Type 0) (c : Codec D) (codec : IsCodec D c)
    (q : DelayQueue) where
  -- The hash keeps every task under its key.
  abbrev pub Coded : Str → r.State → Type 0
  Coded hkey s =
      (m d : Str)
      → r.field hkey m s ≡ some d
      → (t : DelayTask D) × (codec.encode t ≡ d) × (t.key ≡ m)

  abbrev pub AllOf : (DelayTask D → Type 0) → List (DelayTask D) → Type 0
  AllOf P [] = Unit
  AllOf P (t ∷ ts) = P t × AllOf P ts

  abbrev pub NoneFor : Str → List (DelayTask D) → Type 0
  NoneFor k = AllOf (λ t. k ≢ t.key)

  abbrev pub AllLeased : Str → Str → ℕ → List (DelayTask D) → r.State → Type 0
  AllLeased zkey pkey until ts s = AllOf (λ t. Leased r zkey pkey t.key until s) ts

  decode_found :
      (P : DelayTask D → Type 0) (o : Option Str) (rest : List Str)
      → ((d : Str) → o ≡ some d → (t : DelayTask D) × (codec.encode t ≡ d) × P t)
      → AllOf P (decode_all r D c q rest)
      → AllOf P (decode_all r D c q (elim o [ none ↦ rest | some d ↦ d ∷ rest ]))
  unfolding decode_all
  decode_found P none rest one all = all
  decode_found P (some d) rest one all =
      let (t, text, fits) = one d refl in
      let back : c.unmarshal d ≡ some t = ap c.unmarshal (sym text) ∙ codec.unmarshal_lem t in
      rw (back, AllOf) (fits, all)

  empty_AllOf : (P : DelayTask D → Type 0) → AllOf P (decode_all r D c q [])
  unfolding decode_all
  empty_AllOf P = tt

  pub keys_apart : (name : Str) → zset_key q name ≢ processing_key q name
  unfolding zset_key processing_key
  keys_apart name e =
      let tails = append_cancel_left q.config.namespace _ _ e in
      absurd (omega (arith, ap (λ s. head_of 0 (tail_of s)) tails))

  moved-Coded :
      (hkey from to m : Str) (n : ℕ) (s : r.State)
      → Coded hkey s
      → Coded hkey (moved r laws from to n m s)
  moved-Coded hkey from to m n s all j d at =
      all j d (sym (field-moved r laws from to n m hkey j s) ∙ at)

  pub requeue_each-Coded :
      (hkey pkey zkey : Str) (now : ℕ) (ms : List Str) (s : r.State)
      → Coded hkey s
      → Coded hkey (requeue_each r pkey zkey now ms s)
  unfolding requeue_each
  requeue_each-Coded hkey pkey zkey now [] s h = h
  requeue_each-Coded hkey pkey zkey now (m ∷ ms) s h =
      requeue_each-Coded hkey pkey zkey now ms (moved r laws pkey zkey now m s)
        (moved-Coded hkey pkey zkey m now s h)

  -- What the loop finds is decoded to tasks whose keys are the members, or some of them.
  pub take_each-NoneFor :
      (zkey pkey hkey k : Str) (visible : ℕ) (ms : List Str) (s : r.State)
      → Coded hkey s
      → AllOther r laws k ms
      → NoneFor k (decode_all r D c q (take_each r zkey pkey hkey visible ms s).1)
  unfolding take_each
  take_each-NoneFor zkey pkey hkey k visible [] s all others = empty_AllOf _
  take_each-NoneFor zkey pkey hkey k visible (m ∷ ms) s all (other, others) =
      let s' = moved r laws zkey pkey visible m s in
      let rest =
        take_each-NoneFor zkey pkey hkey k visible ms s'
          (moved-Coded hkey zkey pkey m visible s all) others in
      decode_found (λ t. k ≢ t.key) (r.field hkey m s) _
        (λ d at. let (t, text, key) = all m d at in (t, text, λ e. other (e ∙ key))) rest

  pub take_each-AllLeased :
      (zkey pkey hkey : Str) (visible : ℕ) (ms : List Str) (s : r.State)
      → zkey ≢ pkey
      → Coded hkey s
      → let x = take_each r zkey pkey hkey visible ms s in
        AllLeased zkey pkey visible (decode_all r D c q x.1) x.0
  unfolding take_each
  take_each-AllLeased zkey pkey hkey visible [] s apart all = empty_AllOf _
  take_each-AllLeased zkey pkey hkey visible (m ∷ ms) s apart all =
      let s' = moved r laws zkey pkey visible m s in
      let rest =
        take_each-AllLeased zkey pkey hkey visible ms s' apart
          (moved-Coded hkey zkey pkey m visible s all) in
      let mine = take_each-Leased_again r laws zkey pkey hkey m visible ms s' apart (
        score-moved_self r laws zkey pkey visible m s,
        score-moved_from r laws zkey pkey visible m s apart,
      ) in
      let last = (take_each r zkey pkey hkey visible ms s').0 in
      decode_found (λ t. Leased r zkey pkey t.key visible last) (r.field hkey m s) _
        (λ d at.
          let (t, text, key) = all m d at in
          (t, text, subst (λ x. Leased r zkey pkey x visible last) (sym key) mine))
        rest
