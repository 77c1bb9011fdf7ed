-- ===== src/Versions/Changes.antt =====
-- resource_version.go: when a node sees that a version has changed.
use go_cachex.Base.{ℕ, ◌≤◌, ◌≡◌, true, not, ◌==◌, arith}
use go_cachex.Cache.{Str}
use go_cachex.Redis.{Strings, IsStrings, Turn, delivered}
use go_cachex.Versions.Defs.{VersionTracker, Numerals, get_version_key, update_version, has_changed}

-- After an update that was served, a node that asks and is served sees the new number, and sees a
-- change exactly if its last number is another one.
pub has_changed-update_version :
    (r : Strings) (laws : IsStrings r) (n : Numerals) (turn next : Turn) (id : Str)
    → (version last : ℕ) (v : VersionTracker) (s : r.State) → v.has_client ≡ true
    → turn.net ≡ delivered
    → next.net ≡ delivered
    → turn.at ≤ next.at
    → n.parse (n.write version) ≡ (version, true)
    → has_changed r n next id last v (update_version r n turn id version v s).0
      ≡ (not (version == last), version)
unfolding has_changed update_version
has_changed-update_version r laws n turn next id version last v s client sent asked later back =
    ground (arith, laws.value-set turn.at next.at (get_version_key v id) (n.write version) s later)
