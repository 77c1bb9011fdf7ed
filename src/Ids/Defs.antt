-- ===== src/Ids/Defs.antt =====
-- id_generator.go: `IDGenerator`. Sequence numbers, lengths and durations are not negative, and the
-- expiry is at least a second, as Redis wants it. The time comes in formatted.
use go_cachex.Base.{
  ℕ, zero, suc, ◌+◌, ◌-◌, ◌*◌, ◌/◌, ◌%◌, Bool, true, false, not, ◌&&◌, Option, none, some, List, [],
  ◌∷◌, ◌++◌, ltb, leb, if◌then◌else◌, ℤ, pos, negsuc, length, map, codes,
}
use go_cachex.Cache.{Str, second}
use go_cachex.Redis.{Turn, Fault, Outcome, good, bad, outcome_of}
use go_cachex.Ids.Server.{Counters}

pub data IdError : Type 0 where
  no_client not_positive : IdError
  failed : Fault → IdError

-- `on_sequence_init` is what the callback returns, if there is one.
pub record IdGenerator : Type 0 where
  pub has_client : Bool
  pub key_prefix : Str
  pub time_format : Str
  pub seq_length : ℕ
  pub expire : ℕ
  pub seq_start : ℕ
  pub id_prefix : Str
  pub id_suffix : Str
  pub separator : Str
  pub on_sequence_init : Option ℕ

unfoldable pub new_id_generator : Bool → IdGenerator
new_id_generator has_client = record {
  has_client = has_client;
  key_prefix = codes "default:key:prefix:";
  time_format = codes "2006010215";
  seq_length = 6;
  expire = 7200 * second;
  seq_start = 1;
  id_prefix = [];
  id_suffix = [];
  separator = [];
  on_sequence_init = none;
}

unfoldable pub with_key_prefix : Str → IdGenerator → IdGenerator
with_key_prefix prefix g = record g { key_prefix = prefix }

unfoldable pub with_time_format : Str → IdGenerator → IdGenerator
with_time_format format g = record g { time_format = format }

unfoldable pub with_sequence_length : ℕ → IdGenerator → IdGenerator
with_sequence_length n g = record g { seq_length = n }

unfoldable pub with_expire : ℕ → IdGenerator → IdGenerator
with_expire d g = record g { expire = d }

unfoldable pub with_sequence_start : ℕ → IdGenerator → IdGenerator
with_sequence_start start g = record g { seq_start = start }

unfoldable pub with_id_prefix : Str → IdGenerator → IdGenerator
with_id_prefix prefix g = record g { id_prefix = prefix }

unfoldable pub with_id_suffix : Str → IdGenerator → IdGenerator
with_id_suffix suffix g = record g { id_suffix = suffix }

unfoldable pub with_separator : Str → IdGenerator → IdGenerator
with_separator separator g = record g { separator = separator }

unfoldable pub with_sequence_init_callback : Option ℕ → IdGenerator → IdGenerator
with_sequence_init_callback start g = record g { on_sequence_init = start }

unfoldable pub get_redis_key : IdGenerator → Str → Str
get_redis_key g time_prefix = g.key_prefix ++ time_prefix

-- The decimal digits of a number; a number has at most as many digits as it counts, and one.
unfoldable pub digits_on : ℕ → ℕ → Str
digits_on zero n = []
digits_on (suc fuel) n =
    let rest = digits_on fuel (n / 10) ++ (48 + n % 10) ∷ [] in
    if ltb n 10 then (48 + n) ∷ [] else rest

unfoldable pub digits : ℕ → Str
unfolding digits_on
digits n = digits_on (suc n) n

abbrev pub zeros : ℕ → Str
zeros zero = []
zeros (suc n) = 48 ∷ zeros n

-- `%0*d`
unfoldable pub zero_padded : ℕ → ℕ → Str
unfolding digits
zero_padded width n = zeros (width - length (digits n)) ++ digits n

unfoldable pub format_id : IdGenerator → Str → ℕ → Str
unfolding zero_padded
format_id g time_prefix seq =
    let seq_str = zero_padded g.seq_length seq in
    let id = time_prefix ++ (g.separator ++ seq_str) in (g.id_prefix ++ id) ++ g.id_suffix

-- `seqStart`, or what the callback gives.
unfoldable pub start_of : IdGenerator → ℕ
start_of g = elim g.on_sequence_init [ none ↦ g.seq_start | some n ↦ n ]

unfoldable pub numbers_from : ℕ → ℕ → List ℕ
numbers_from n zero = []
numbers_from n (suc k) = n ∷ numbers_from (suc n) k

module _ (r : Counters) where
  abbrev pub has_key : ℕ → Str → r.State → Bool
  has_key now k s = elim (r.count now k s) [ none ↦ false | some _ ↦ true ]

  -- The first step of both scripts: a new key starts before the first number, if that is not 1.
  unfoldable pub init_key : ℕ → Str → ℕ → ℕ → r.State → r.State
  init_key now k expire start s =
      if not (has_key now k s) && ltb 1 start
      then r.set now k (start - 1) (expire * second) s
      else s

  -- The script of `GenerateID`.
  unfoldable pub next_script : ℕ → Str → ℕ → ℕ → r.State → r.State × ℕ
  unfolding init_key
  next_script now k expire start s =
      let (s', seq) = r.incr_by now k 1 (init_key now k expire start s) in
      (
        if not (has_key now k s) && leb start 1 then r.expire now k (expire * second) s' else s',
        seq,
      )

  -- The script of `GenerateIDs`.
  unfoldable pub next_n_script : ℕ → Str → ℕ → ℕ → ℕ → r.State → r.State × List ℕ
  unfolding init_key numbers_from
  next_n_script now k expire n start s =
      let (s', seq) = r.incr_by now k n (init_key now k expire start s) in
      (s', numbers_from (seq + 1 - n) n)

  abbrev pub mapped : {A B : Type 0} → (A → B) → Outcome Fault A → Outcome IdError B
  mapped f (good a) = good (f a)
  mapped f (bad e) = bad (failed e)

  unfoldable pub generate_id : Turn → Str → IdGenerator → r.State → r.State × Outcome IdError Str
  unfolding next_script get_redis_key start_of
  generate_id turn time_prefix g s =
      if not g.has_client
      then (s, bad no_client)
      else (let (s', o) = outcome_of turn.net s (
            next_script turn.at (get_redis_key g time_prefix) (g.expire / second) (start_of g) s) in
          (s', mapped (format_id g time_prefix) o))

  unfoldable pub generate_ids :
      Turn → Str → ℤ → IdGenerator → r.State → r.State × Outcome IdError (List Str)
  unfolding next_n_script get_redis_key start_of
  generate_ids turn time_prefix (negsuc n) g s =
      (s, bad (if not g.has_client then no_client else not_positive))
  generate_ids turn time_prefix (pos zero) g s =
      (s, bad (if not g.has_client then no_client else not_positive))
  generate_ids turn time_prefix (pos (suc n)) g s =
      if not g.has_client
      then (s, bad no_client)
      else (let (s', o) = outcome_of turn.net s (
            next_n_script turn.at (get_redis_key g time_prefix) (g.expire / second) (suc n)
              (start_of g) s) in
          (s', mapped (map (format_id g time_prefix)) o))

  -- `ResetSequence`; `others` is what other clients do between its two calls.
  unfoldable pub reset_sequence :
      Turn
      → Turn
      → (r.State → r.State)
      → Str
      → IdGenerator
      → r.State
      → r.State × Outcome IdError (Unit {0})
  unfolding get_redis_key start_of
  reset_sequence first next others time_prefix g s =
      let k = get_redis_key g time_prefix in
      if not g.has_client
      then (s, bad no_client)
      else elim (outcome_of first.net s (s, has_key first.at k s)).1 [
        | bad e ↦ (s, bad (failed e))
        | good there ↦
            let s' = others s in
            if there
            then (s, good tt)
            else if ltb 1 (start_of g)
            then (let (t, o) =
                  outcome_of next.net s' (r.set next.at k (start_of g - 1) g.expire s', tt) in
                (t, mapped (λ u. u) o))
            else (s, good tt)
      ]

  unfoldable pub force_reset_sequence :
      Turn → Str → IdGenerator → r.State → r.State × Outcome IdError (Unit {0})
  unfolding get_redis_key
  force_reset_sequence turn time_prefix g s =
      if not g.has_client
      then (s, bad no_client)
      else (let (s', o) =
            outcome_of turn.net s (r.del turn.at (get_redis_key g time_prefix) s, tt) in
          (s', mapped (λ u. u) o))

  -- A missing key counts 0.
  unfoldable pub get_sequence_by_time : Turn → Str → IdGenerator → r.State → Outcome IdError ℕ
  unfolding get_redis_key
  get_sequence_by_time turn time_prefix g s =
      if not g.has_client
      then bad no_client
      else mapped (λ (n : ℕ). n)
          (outcome_of turn.net s
            (s, elim (r.count turn.at (get_redis_key g time_prefix) s) [ none ↦ 0 | some n ↦ n ])).1
