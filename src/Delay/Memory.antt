-- ===== src/Delay/Memory.antt =====
-- A server in memory for the delayed queue: scores, fields and lists as functions, with the members that
-- were ever added, in whose order the due ones are found.
use go_cachex.Base.{
  ℕ, ◌-◌, ◌≡◌, refl, Bool, false, ◌&&◌, ◌||◌, Option, none, some, List, [], ◌∷◌, take, drop, leb,
  arith, if◌then◌else◌, ◌+◌, Bool-cases, Option-cases, inl, inr,
}
use go_cachex.Cache.{Str}
use go_cachex.Delay.Server.{Server, IsServer, AllDue, count_of, same}

pub record Store : Type 0 where
  pub scores : Str → Str → Option ℕ
  pub fields : Str → Str → Option Str
  pub lists : Str → List Str
  pub known : List Str

abbrev pub empty_store : Store
empty_store = record { scores = λ k v. none; fields = λ k v. none; lists = λ k. []; known = [] }

-- The function with another value at one place.
abbrev pub put {ℓ} : {A : Type ℓ} → Str → Str → A → (Str → Str → A) → Str → Str → A
put k v a f j m = if same j k && same m v then a else f j m

abbrev pub is_due : ℕ → Option ℕ → Bool
is_due now none = false
is_due now (some t) = leb t now

unfoldable pub is_known : Str → List Str → Bool
is_known v [] = false
is_known v (w ∷ ws) = same v w || is_known v ws

-- At most `count` of the members.
unfoldable pub due_members : (Str → Option ℕ) → ℕ → ℕ → List Str → List Str
due_members score now count [] = []
due_members score now count (v ∷ vs) =
    let more = due_members score now (count - 1) vs in
    let rest = due_members score now count vs in
    if is_due now (score v) && leb 1 count then v ∷ more else rest

unfoldable pub count_members : (Str → Option ℕ) → List Str → ℕ
count_members score [] = 0
count_members score (v ∷ vs) = count_of (score v) + count_members score vs

abbrev pub memory : Server
memory = record {
  State = Store;
  score = λ k v s. s.scores k v;
  zadd = λ k n v s. record s {
    scores = put k v (some n) s.scores;
    known = if is_known v s.known then s.known else v ∷ s.known;
  };
  zrem = λ k v s. (record s { scores = put k v none s.scores }, count_of (s.scores k v));
  due = λ k now count s. due_members (s.scores k) now count s.known;
  zcard = λ k s. count_members (s.scores k) s.known;
  field = λ k v s. s.fields k v;
  hset = λ k v d s. record s { fields = put k v (some d) s.fields };
  hdel = λ k v s. record s { fields = put k v none s.fields };
  items = λ k s. s.lists k;
  lpush = λ k d s. record s { lists = λ j. if same j k then d ∷ s.lists j else s.lists j };
  lrange = λ k first count s. take count (drop first (s.lists k));
}

due_members-AllDue :
    (k : Str) (now count : ℕ) (vs : List Str) (s : Store)
    → AllDue memory k now (due_members (s.scores k) now count vs) s
unfolding due_members
due_members-AllDue k now count [] s = tt
due_members-AllDue k now count (v ∷ vs) s =
    elim (Bool-cases (is_due now (s.scores k v) && leb 1 count)) [
      | inr skipped ↦ rw skipped (due_members-AllDue k now count vs s)
      | inl found ↦ rw found (
        elim (Option-cases (s.scores k v)) [
          | inl gone ↦ absurd (cc (rw gone at found))
          | inr (t, at) ↦ (t, at, ground arith)
        ],
        due_members-AllDue k now (count - 1) vs s,
      )
    ]

items-lpush_lem :
    (k d : Str) (s : Store) → (if same k k then d ∷ s.lists k else s.lists k) ≡ d ∷ s.lists k
items-lpush_lem k d s = ground arith

pub memory_server : IsServer memory
memory_server = record {
  score-zadd = λ j k n m v s. refl;
  score-zrem = λ j k m v s. refl;
  zrem_count = λ k v s. refl;
  score-hset = λ j k m v d s. refl;
  score-hdel = λ j k m v s. refl;
  score-lpush = λ j k m d s. refl;
  field-zadd = λ j k n m v s. refl;
  field-zrem = λ j k m v s. refl;
  field-hset = λ j k m v d s. refl;
  field-hdel = λ j k m v s. refl;
  field-lpush = λ j k m d s. refl;
  items-zrem = λ j k v s. refl;
  items-hdel = λ j k v s. refl;
  items-lpush = items-lpush_lem;
  due_lem = λ k now count s. due_members-AllDue k now count s.known s;
}
