-- ===== src/Versions/Defs.antt =====
-- resource_version.go: `VersionTracker`, over any server with the string commands. A version is a
-- number; how strconv and the client write it as text and read it back is a parameter.
use go_cachex.Base.{
  ℕ, Bool, true, not, Option, none, some, List, [], ◌∷◌, ◌++◌, ◌==◌, if◌then◌else◌, codes,
}
use go_cachex.Cache.{Str}
use go_cachex.Lock.{if_not_empty}
use go_cachex.Redis.{Strings, Turn, Fault, Outcome, good, bad, outcome_of}

pub data VersionError : Type 0 where
  unavailable version_not_found not_a_number : VersionError
  failed : Fault → VersionError

pub record VersionTracker : Type 0 where
  pub has_client : Bool
  pub prefix : Str

unfoldable pub new_version_tracker : Bool → Str → VersionTracker
new_version_tracker has_client prefix = record {
  has_client = has_client;
  prefix = if_not_empty prefix (codes "cachex:version:");
}

unfoldable pub get_version_key : VersionTracker → Str → Str
get_version_key v id = v.prefix ++ id

-- The number and the error of `strconv.ParseInt`, whose number counts also beside an error.
pub record Numerals : Type 0 where
  pub write : ℕ → Str
  pub parse : Str → ℕ × Bool

module _ (r : Strings) (n : Numerals) where
  abbrev pub replied : Outcome Fault (Unit {0}) → Outcome VersionError (Unit {0})
  replied (good _) = good tt
  replied (bad e) = bad (failed e)

  unfoldable pub update_version :
      Turn → Str → ℕ → VersionTracker → r.State → r.State × Outcome VersionError (Unit {0})
  unfolding get_version_key
  update_version turn id version v s =
      if not v.has_client
      then (s, good tt)
      else (let (s', o) =
            outcome_of turn.net s (r.set turn.at (get_version_key v id) (n.write version) s, tt) in
          (s', replied o))

  -- The number and the error that `GetVersion` returns.
  unfoldable pub read_version : Outcome Fault (Option Str) → ℕ × Option VersionError
  read_version (bad e) = (0, some (failed e))
  read_version (good none) = (0, some version_not_found)
  read_version (good (some text)) =
      let (version, fine) = n.parse text in (version, if fine then none else some not_a_number)

  unfoldable pub get_version : Turn → Str → VersionTracker → r.State → ℕ × Option VersionError
  unfolding get_version_key read_version
  get_version turn id v s =
      if not v.has_client
      then (0, some unavailable)
      else read_version (outcome_of turn.net s (s, r.value turn.at (get_version_key v id) s)).1

  unfoldable pub compare_version : ℕ → ℕ × Option VersionError → Bool × ℕ
  compare_version last (current, some version_not_found) = (true, 0)
  compare_version last (current, some _) = (true, current)
  compare_version last (current, none) = (not (current == last), current)

  -- Has it changed since `last`, and the latest number.
  unfoldable pub has_changed : Turn → Str → ℕ → VersionTracker → r.State → Bool × ℕ
  unfolding get_version compare_version
  has_changed turn id last v s =
      if not v.has_client then (true, 0) else compare_version last (get_version turn id v s)

  -- The pipeline of `BatchUpdateVersion`: the commands run one after the other.
  unfoldable pub set_each : ℕ → List Str → ℕ → VersionTracker → r.State → r.State
  unfolding get_version_key
  set_each now [] version v s = s
  set_each now (id ∷ ids) version v s =
      set_each now ids version v (r.set now (get_version_key v id) (n.write version) s)

  unfoldable pub batch_update_version :
      Turn → List Str → ℕ → VersionTracker → r.State → r.State × Outcome VersionError (Unit {0})
  unfolding set_each
  batch_update_version turn ids version v s =
      if not v.has_client
      then (s, good tt)
      else (let (s', o) = outcome_of turn.net s (set_each turn.at ids version v s, tt) in
          (s', replied o))

  unfoldable pub del_each : ℕ → List Str → VersionTracker → r.State → r.State
  unfolding get_version_key
  del_each now [] v s = s
  del_each now (id ∷ ids) v s = del_each now ids v (r.del now (get_version_key v id) s).0

  unfoldable pub delete_versions :
      Turn → List Str → VersionTracker → r.State → r.State × Outcome VersionError (Unit {0})
  unfolding del_each
  delete_versions turn ids v s =
      if not v.has_client
      then (s, good tt)
      else (let (s', o) = outcome_of turn.net s (del_each turn.at ids v s, tt) in (s', replied o))

  unfoldable pub delete_version :
      Turn → Str → VersionTracker → r.State → r.State × Outcome VersionError (Unit {0})
  unfolding delete_versions
  delete_version turn id v s = delete_versions turn (id ∷ []) v s

  -- A missing version is set to `now`, the clock; `others` is what other clients do before.
  unfoldable pub create_version :
      Turn
      → (r.State → r.State)
      → ℕ
      → Str
      → VersionTracker
      → r.State
      → ℕ × Option VersionError
      → r.State × Outcome VersionError ℕ
  unfolding update_version
  create_version next others now id v s (current, none) = (s, good current)
  create_version next others now id v s (current, some version_not_found) =
      let (s', o) = update_version next id now v (others s) in
      (s', elim o [ good _ ↦ good now | bad e ↦ bad e ])
  create_version next others now id v s (current, some e) = (s, bad e)

  unfoldable pub get_or_create_version :
      Turn
      → Turn
      → (r.State → r.State)
      → ℕ
      → Str
      → VersionTracker
      → r.State
      → r.State × Outcome VersionError ℕ
  unfolding get_version create_version
  get_or_create_version first next others now id v s =
      if not v.has_client
      then (s, good now)
      else create_version next others now id v s (get_version first id v s)

  -- `Touch` writes the clock.
  unfoldable pub touch :
      Turn → ℕ → Str → VersionTracker → r.State → r.State × Outcome VersionError (Unit {0})
  unfolding update_version
  touch turn now id v s = update_version turn id now v s

  unfoldable pub touch_all :
      Turn → ℕ → List Str → VersionTracker → r.State → r.State × Outcome VersionError (Unit {0})
  unfolding batch_update_version
  touch_all turn now ids v s = batch_update_version turn ids now v s
