-- ===== src/Levels/Multi.antt =====
-- multi_level_cache.go: `MultiLevelCache` over any handler in memory and an `AdvancedCache`, and
-- `CachePattern`.
use go_cachex.Base.{
  ℕ, ◌+◌, ◌*◌, ◌/◌, ◌==◌, Bool, true, false, Option, none, some, [], ◌∷◌, ◌++◌, if◌then◌else◌, ℤ,
  pos, codes,
}
use go_cachex.Cache.{Str, Slice, Result, ok, err}
use go_cachex.Redis.{Turn, Outcome, good, bad}
use go_cachex.Lru.{if_le_zero}
use go_cachex.Lock.{if_not_empty, minute}
use go_cachex.Handler.{Handler}
use go_cachex.Levels.Server.{Server}
use go_cachex.Levels.Advanced
use go_cachex.Levels.Advanced.{AdvancedCache, AdvancedError, Formats, new_advanced_cache, hit_of}

pub record MultiLevelConfig : Type 0 where
  pub namespace : Str
  pub l1_size : ℤ
  pub l1_ttl : ℤ
  pub l2_ttl : ℤ
  pub enable_compression : Bool

pub record Stats : Type 0 where
  pub l1_hits : ℕ
  pub l2_hits : ℕ
  pub misses : ℕ
  pub l1_sets : ℕ
  pub l2_sets : ℕ

-- In percent.
unfoldable pub hit_rate_of : ℕ → ℕ → ℕ → ℕ
hit_rate_of l1 l2 missed =
    let total = l1 + l2 + missed in if total == 0 then 0 else (l1 + l2) * 100 / total

-- `E` are the errors of a loader or of a database.
pub data MultiError (E : Type 0) : Type 0 where
  no_loader : MultiError E
  load_failed : E → MultiError E
  far_failed : AdvancedError → MultiError E

module _ (l1 : Handler) (r : Server) (T E : Type 0) (f : Formats T) where
  pub record MultiLevelCache : Type 0 where
    pub namespace : Str
    pub l1_ttl : ℕ
    pub l2_ttl : ℕ
    pub near : l1.State
    pub far : AdvancedCache
    pub stats : Stats

  -- `make_near` makes the handler in memory, of a given size.
  unfoldable pub new_multi_level_cache : (ℕ → l1.State) → MultiLevelConfig → MultiLevelCache
  unfolding if_le_zero new_advanced_cache
  new_multi_level_cache make_near c =
      let namespace = if_not_empty c.namespace (codes "mlc") in
      let l2_ttl = if_le_zero c.l2_ttl (60 * minute) in
      record {
        namespace = namespace;
        l1_ttl = if_le_zero c.l1_ttl (5 * minute);
        l2_ttl = l2_ttl;
        near = make_near (if_le_zero c.l1_size 1000);
        far = new_advanced_cache (record {
          no_compression = if c.enable_compression then false else true;
          min_size_for_compress = pos 0;
          default_ttl = l2_ttl;
          namespace = namespace;
          enable_metrics = false;
        });
        stats = record { l1_hits = 0; l2_hits = 0; misses = 0; l1_sets = 0; l2_sets = 0 };
      }

  abbrev pub count : (Stats → Stats) → MultiLevelCache → MultiLevelCache
  count g m = record m { stats = g m.stats }

  -- The write to the handler in memory, whose error is dropped.
  unfoldable pub fill_near : ℕ → Str → Option Str → MultiLevelCache → MultiLevelCache
  fill_near now key none m = m
  fill_near now key (some d) m = record m {
    near = (l1.set_with_ttl now (some key) (some d) (pos m.l1_ttl) m.near).0;
  }

  abbrev pub from_far : Outcome AdvancedError (Unit {0}) → Outcome (MultiError E) (Unit {0})
  from_far (good _) = good tt
  from_far (bad e) = bad (far_failed e)

  abbrev pub set_counts : Option Str → Stats → Stats
  set_counts none s = s
  set_counts (some d) s = record s { l1_sets = s.l1_sets + 1 }

  abbrev pub far_counts : Outcome AdvancedError (Unit {0}) → Stats → Stats
  far_counts (bad e) s = s
  far_counts (good _) s = record s { l2_sets = s.l2_sets + 1 }

  unfoldable pub set :
      ℕ
      → Turn
      → Str
      → T
      → MultiLevelCache
      → r.State
      → MultiLevelCache × r.State × Outcome (MultiError E) (Unit {0})
  unfolding fill_near Advanced.set
  set now turn key v m s =
      let g = count (set_counts (f.marshal v)) (fill_near now key (f.marshal v) m) in
      let (far, s', o) = Advanced.set r T f turn key v (some g.l2_ttl) g.far s in
      (count (far_counts o) (record g { far = far }), s', from_far o)

  -- A hit is `some`, with what its text says.
  unfoldable pub read_near : Result Slice → Option (Option T)
  read_near (err e) = none
  read_near (ok none) = some none
  read_near (ok (some d)) = some (f.unmarshal d)

  abbrev pub near_counts : Option (Option T) → Stats → Stats
  near_counts none s = s
  near_counts (some o) s = record s { l1_hits = s.l1_hits + 1 }

  abbrev pub value_of : Option (Option T) → Option T
  value_of none = none
  value_of (some o) = o

  unfoldable pub load :
      ℕ
      → Turn
      → Option (Outcome E T)
      → Str
      → MultiLevelCache
      → r.State
      → MultiLevelCache × r.State × Outcome (MultiError E) T
  unfolding set
  load now turn none key m s = (m, s, bad no_loader)
  load now turn (some (bad e)) key m s = (m, s, bad (load_failed e))
  load now turn (some (good v)) key m s =
      let (m', s', _) = set now turn key v m s in (m', s', good v)

  -- From L2, or else from the loader, which may be missing; `others` is what happens to the server while
  -- the loader runs.
  unfoldable pub get_far :
      ℕ
      → Turn
      → Turn
      → (r.State → r.State)
      → Option (Outcome E T)
      → Str
      → MultiLevelCache
      → r.State
      → MultiLevelCache × r.State × Outcome (MultiError E) T
  unfolding Advanced.get hit_of fill_near load
  get_far now reads writes others loader key m s =
      let (far, o) = Advanced.get r T f reads key m.far s in
      let g = record m { far = far } in
      elim (hit_of r T f o) [
        | some v ↦ (
          fill_near now key (f.marshal v) (count (λ s. record s { l2_hits = s.l2_hits + 1 }) g),
          s,
          good v,
        )
        | none ↦
            load now writes loader key (count (λ s. record s { misses = s.misses + 1 }) g)
              (others s)
      ]

  unfoldable pub get :
      ℕ
      → Turn
      → Turn
      → (r.State → r.State)
      → Option (Outcome E T)
      → Str
      → MultiLevelCache
      → r.State
      → MultiLevelCache × r.State × Outcome (MultiError E) T
  unfolding read_near get_far
  get now reads writes others loader key m s =
      let (near, found) = l1.get now (some key) m.near in
      let o = read_near found in
      let g = count (near_counts o) (record m { near = near }) in
      elim (value_of o) [
        | some v ↦ (g, s, good v)
        | none ↦ get_far now reads writes others loader key g s
      ]

  unfoldable pub invalidate_l1 : Str → MultiLevelCache → MultiLevelCache
  invalidate_l1 key m = record m { near = (l1.del (some key) m.near).0 }

  unfoldable pub delete :
      Turn
      → Str
      → MultiLevelCache
      → r.State
      → MultiLevelCache × r.State × Outcome (MultiError E) (Unit {0})
  unfolding invalidate_l1 Advanced.delete
  delete turn key m s =
      let g = invalidate_l1 key m in
      let (far, s', o) = Advanced.delete r T f turn (key ∷ []) g.far s in
      (record g { far = far }, s', from_far o)

  -- `clear_near` is `Clear` of the handler in memory.
  unfoldable pub clear :
      (l1.State → l1.State)
      → Turn
      → Turn
      → (r.State → r.State)
      → MultiLevelCache
      → r.State
      → MultiLevelCache × r.State × Outcome (MultiError E) (Unit {0})
  unfolding Advanced.clear
  clear clear_near lists deletes others m s =
      let (far, s', o) =
        Advanced.clear r T f lists deletes others (m.namespace ++ b'*' ∷ []) m.far s in
      (record m { near = clear_near m.near; far = far }, s', from_far o)

  -- `Write` of `CacheAsideOperation`, until it starts the goroutine of the second deletion, which is a
  -- `delete`; `written` is the outcome of the database. `WriteThrough` follows.
  unfoldable pub write_aside :
      Turn
      → Outcome E (Unit {0})
      → Str
      → MultiLevelCache
      → r.State
      → MultiLevelCache × r.State × Outcome (MultiError E) (Unit {0})
  unfolding delete
  write_aside turn (bad e) key m s = (m, s, bad (load_failed e))
  write_aside turn (good _) key m s = let (m', s', _) = delete turn key m s in (m', s', good tt)

  unfoldable pub write_through :
      ℕ
      → Turn
      → Outcome E (Unit {0})
      → Str
      → T
      → MultiLevelCache
      → r.State
      → MultiLevelCache × r.State × Outcome (MultiError E) (Unit {0})
  unfolding set
  write_through now turn (bad e) key v m s = (m, s, bad (load_failed e))
  write_through now turn (good _) key v m s = set now turn key v m s

  -- `WriteBehind` is `set`, and then, if that succeeds, this goroutine.
  unfoldable pub write_behind_later :
      Turn → Outcome E (Unit {0}) → Str → MultiLevelCache → r.State → MultiLevelCache × r.State
  unfolding delete
  write_behind_later turn (good _) key m s = (m, s)
  write_behind_later turn (bad e) key m s = let (m', s', _) = delete turn key m s in (m', s')
