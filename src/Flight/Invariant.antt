-- ===== src/Flight/Invariant.antt =====
-- At most one load of a key is in flight; without panics no goroutine waits for a call that nobody runs,
-- and after a panic nobody runs the loader for its key again.
use go_cachex.Base.{
  ℕ, ◌+◌, ◌≤◌, ◌<◌, ◌≡◌, ◌≢◌, ◌⊎◌, inl, inr, refl, sym, ap, ◌∙◌, none, some, List, ℕ_discrete,
  arith,
}
use go_cachex.Cache.{Result, err, context_error, Slice, Str, dec_str}
use go_cachex.Table.{lookup, assign, lookup-assign, lookup-delete}
use go_cachex.Flight.Defs.{
  Pc, idle, running, waiting, returned, update, Group, new_flight_group, lead, finish, move_to,
  Step, leads, joins, finishes, panics, wakes, cancels, leaves, Quiet, AllQuiet, Reach, start,
  later,
}

-- A call either has its outcome, or a goroutine that runs it.
abbrev pub Served : Group → ℕ → Type 0
Served g c =
    ((r : Result Slice) × (g.outcome c ≡ some r)) ⊎ ((i : ℕ) × (k : Str) × (g.pc i ≡ running k c))

pub record Inv (g : Group) : Type 0 where
  -- A running call is the one that the map has for its key.
  pub listed : (i c : ℕ) (k : Str) → g.pc i ≡ running k c → lookup k g.m ≡ some c
  -- Each call has one goroutine that runs it.
  pub single : (i j c : ℕ) (k l : Str) → g.pc i ≡ running k c → g.pc j ≡ running l c → i ≡ j
  pub made : (c : ℕ) (k : Str) → lookup k g.m ≡ some c → c < g.next
  -- What runs or is still to be made has no outcome.
  pub pending : (i c : ℕ) (k : Str) → g.pc i ≡ running k c → g.outcome c ≡ none
  pub fresh : (c : ℕ) → g.next ≤ c → g.outcome c ≡ none

-- What holds as long as no loader has panicked.
pub record Calm (g : Group) : Type 0 where
  -- What the map has is being run.
  pub run_by : (k : Str) (c : ℕ) → lookup k g.m ≡ some c → (i : ℕ) × (g.pc i ≡ running k c)
  pub served : (i c : ℕ) → g.pc i ≡ waiting c → Served g c

start-Inv : Inv new_flight_group
unfolding new_flight_group lookup
start-Inv = record {
  listed = λ i c k e. cc;
  single = λ i j c k l e f. cc;
  made = λ c k e. cc;
  pending = λ i c k e. refl;
  fresh = λ c h. refl;
}

start-Calm : Calm new_flight_group
unfolding new_flight_group lookup
start-Calm = record { run_by = λ k c e. cc; served = λ i c e. cc }

-- A goroutine that runs nothing moves: the others still serve what they served.
Served-move :
    (g : Group) (i c : ℕ) (p : Pc) (m : List (Str × ℕ)) (n : ℕ)
    → ((k : Str) (d : ℕ) → g.pc i ≢ running k d)
    → Served g c
    → Served (record g { pc = update g.pc i p; m = m; next = n }) c
Served-move g i c p m n free (inl known) = inl known
Served-move g i c p m n free (inr (x, l, runs)) = inr (x, l, ground (arith, moved))
  where
    moved : i ≢ x
    moved e = free l c (ap g.pc e ∙ runs)

module _ {g : Group} (v : Inv g) where
  abbrev made_by : (i c : ℕ) (k : Str) → g.pc i ≡ running k c → c < g.next
  made_by i c k e = v.made c k (v.listed i c k e)

  lead-Inv : (i : ℕ) (k : Str) → g.pc i ≡ idle → lookup k g.m ≡ none → Inv (lead i k g)
  unfolding lead
  lead-Inv i k at free = record {
    listed = λ j c l e. ground (arith, lookup-assign l k g.next g.m, v.listed j c l);
    single =
        λ j j' c l l' e f. ground (arith, v.single j j' c l l', made_by j c l, made_by j' c l');
    made = λ c l e. ground (arith, lookup-assign l k g.next g.m, v.made c l);
    pending = λ j c l e. ground (arith, v.pending j c l, v.fresh c);
    fresh = λ c h. v.fresh c (omega arith);
  }

  finish-Inv :
      (i : ℕ) (k : Str) (c : ℕ) (r : Result Slice) → g.pc i ≡ running k c → Inv (finish i k c r g)
  unfolding finish
  finish-Inv i k c r at = record {
    listed = λ j d l e. ground (
      arith,
      lookup-delete l k g.m,
      v.listed j d l,
      v.listed i c k at,
      v.single i j c k l at,
      ap (λ x. lookup x g.m),
    );
    single = λ j j' d l l' e f. ground (arith, v.single j j' d l l');
    made = λ d l e. ground (arith, lookup-delete l k g.m, v.made d l);
    pending = λ j d l e. ground (arith, v.pending j d l, v.single i j c k l at);
    fresh = λ d h. ground (arith, v.fresh d, made_by i c k at);
  }

  -- A goroutine that moves to a place where it runs nothing.
  move_to-Inv : (i : ℕ) (p : Pc) → ((k : Str) (d : ℕ) → p ≢ running k d) → Inv (move_to i p g)
  unfolding move_to
  move_to-Inv i p quiet = record {
    listed = λ j d l e. ground (arith, v.listed j d l, quiet l d);
    single = λ j j' d l l' e f. ground (arith, v.single j j' d l l', quiet l d, quiet l' d);
    made = v.made;
    pending = λ j d l e. ground (arith, v.pending j d l, quiet l d);
    fresh = v.fresh;
  }

module _ {g : Group} (w : Calm g) where
  lead-Calm : (i : ℕ) (k : Str) → g.pc i ≡ idle → lookup k g.m ≡ none → Calm (lead i k g)
  unfolding lead
  lead-Calm i k at free = record {
    run_by = λ l c e. elim (dec_str l k) [
      | yes same ↦ (i, ground (arith, lookup-assign l k g.next g.m))
      | no other ↦
          let (x, runs) = w.run_by l c (ground (arith, lookup-assign l k g.next g.m)) in
          (x, ground (arith, not_idle x l c runs))
    ];
    served = λ j c e.
        Served-move g i c (running k g.next) (assign k g.next g.m) (g.next + 1) (λ l d runs. cc)
          (w.served j c (ground arith));
  }
    where
      not_idle : (x : ℕ) (l : Str) (c : ℕ) → g.pc x ≡ running l c → i ≢ x
      not_idle x l c runs e = let here = ap g.pc e in cc

  finish-Calm :
      (i : ℕ) (k : Str) (c : ℕ) (r : Result Slice) → g.pc i ≡ running k c → Calm (finish i k c r g)
  unfolding finish
  finish-Calm i k c r at = record {
    run_by = λ l d e. elim (dec_str l k) [
      | yes same ↦ absurd (ground (arith, lookup-delete l k g.m))
      | no other ↦
          let (x, runs) = w.run_by l d (ground (arith, lookup-delete l k g.m)) in
          (x, ground (arith, another x l d runs (λ same. other (ap key_at same))))
    ];
    served = λ j d e. elim (ℕ_discrete c d) [
      | yes here ↦ inl (r, ground arith)
      | no there ↦ elim (w.served j d (ground arith)) [
        | inl (q, known) ↦ inl (q, ground arith)
        | inr (x, l, runs) ↦
            inr (x, l, ground (arith, another x l d runs (λ same. there (sym (ap call_at same)))))
      ]
    ];
  }
    where
      key_at : Pc → Str
      key_at (running l d) = l
      key_at _ = k

      call_at : Pc → ℕ
      call_at (running l d) = d
      call_at _ = c

      another : (x : ℕ) (l : Str) (d : ℕ) → g.pc x ≡ running l d → running l d ≢ running k c → i ≢ x
      another x l d runs differ e = differ (sym runs ∙ sym (ap g.pc e) ∙ at)

  move_to-Calm :
      (i : ℕ) (p : Pc)
      → ((k : Str) (d : ℕ) → g.pc i ≢ running k d)
      → ((c : ℕ) → p ≡ waiting c → Served g c)
      → Calm (move_to i p g)
  unfolding move_to
  move_to-Calm i p free waits = record {
    run_by = λ l d e. let (x, runs) = w.run_by l d e in (x, ground (arith, moved x l d runs));
    served = λ j d e. Served-move g i d p g.m g.next free (elim (ℕ_discrete i j) [
      | yes here ↦ waits d (ground arith)
      | no there ↦ w.served j d (ground arith)
    ]);
  }
    where
      moved : (x : ℕ) (l : Str) (d : ℕ) → g.pc x ≡ running l d → i ≢ x
      moved x l d runs e = free l d (ap g.pc e ∙ runs)

-- Every step keeps the invariant.
pub Step-Inv : {g h : Group} → Step g h → Inv g → Inv h
Step-Inv (leads i k at free) v = lead-Inv v i k at free
Step-Inv (joins i k c at known) v = move_to-Inv v i (waiting c) (λ l d e. cc)
Step-Inv (finishes i k c r at) v = finish-Inv v i k c r at
Step-Inv (panics i k c at) v = move_to-Inv v i idle (λ l d e. cc)
Step-Inv (wakes i c r at known) v = move_to-Inv v i (returned r) (λ l d e. cc)
Step-Inv (cancels i c at) v = move_to-Inv v i (returned (err context_error)) (λ l d e. cc)
Step-Inv (leaves i r at) v = move_to-Inv v i idle (λ l d e. cc)

Step-Calm : {g h : Group} → (s : Step g h) → Quiet s → Calm g → Calm h
Step-Calm (leads i k at free) quiet w = lead-Calm w i k at free
Step-Calm (joins i k c at known) quiet w =
    move_to-Calm w i (waiting c) (λ l d e. cc)
      (λ d e. let (x, runs) = w.run_by k c known in inr (x, k, runs ∙ ap (running k) (ap waited e)))
  where
    waited : Pc → ℕ
    waited (waiting d) = d
    waited _ = c
Step-Calm (finishes i k c r at) quiet w = finish-Calm w i k c r at
Step-Calm (panics i k c at) quiet w = absurd quiet
Step-Calm (wakes i c r at known) quiet w = move_to-Calm w i (returned r) (λ l d e. cc) (λ d e. cc)
Step-Calm (cancels i c at) quiet w =
    move_to-Calm w i (returned (err context_error)) (λ l d e. cc) (λ d e. cc)
Step-Calm (leaves i r at) quiet w = move_to-Calm w i idle (λ l d e. cc) (λ d e. cc)

pub Reach-Inv : {g : Group} → Reach g → Inv g
Reach-Inv start = start-Inv
Reach-Inv (later r s) = Step-Inv s (Reach-Inv r)

Reach-Calm : {g : Group} (r : Reach g) → AllQuiet r → Calm g
Reach-Calm start quiet = start-Calm
Reach-Calm (later r s) (quiets, quiet) = Step-Calm s quiet (Reach-Calm r quiets)

-- In every state that goroutines can reach, at most one of them runs the loader for a key.
pub one_load :
    {g : Group}
    → Reach g
    → (i j c d : ℕ) (k : Str) → g.pc i ≡ running k c
    → g.pc j ≡ running k d
    → i ≡ j
one_load {g} r i j c d k p q =
    let v = Reach-Inv r in ground (arith, v.listed i c k p, v.listed j d k q, v.single i j c k k p)

-- No wake-up is lost without a panic: in every state that is reached by steps in which no loader panics, a
-- goroutine that waits waits for a call whose outcome is there, or which some goroutine is running.
pub waits-Served :
    {g : Group} (r : Reach g) → AllQuiet r → (i c : ℕ) → g.pc i ≡ waiting c → Served g c
waits-Served r quiet i c p = (Reach-Calm r quiet).served i c p
