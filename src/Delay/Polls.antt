-- ===== src/Delay/Polls.antt =====
-- delay_queue.go: the loops of `pollLuaScript`, against those of the two scripts that it stands for.
use go_cachex.Base.{ℕ, ◌≡◌, refl, sym, ap, ◌∙◌, List, [], ◌∷◌, ◌++◌, Option-cases, inl, inr}
use mathlib.Core.List.{append_assoc, append-nil}
use go_cachex.Cache.{Str}
use go_cachex.Delay.Server.{Server}
use go_cachex.Delay.Scripts.{or_false, take_each, requeue_each, poll_stale, poll_ready, poll_script}

module _ (r : Server) (zkey pkey hkey : Str) where
  poll_stale-eq-requeue_each :
      (now : ℕ) (ms : List Str) (s : r.State)
      → poll_stale r zkey pkey now ms s ≡ requeue_each r pkey zkey now ms s
  unfolding poll_stale requeue_each
  poll_stale-eq-requeue_each now [] s = refl
  poll_stale-eq-requeue_each now (m ∷ ms) s =
      poll_stale-eq-requeue_each now ms (r.zadd zkey now m (r.zrem pkey m s).0)

  -- The table grows at its end by what the loop of the dequeue finds.
  poll_ready-eq-take_each :
      (visible : ℕ) (ms tasks : List Str) (s : r.State)
      → let x = take_each r zkey pkey hkey visible ms s in
        poll_ready r zkey pkey hkey visible ms tasks s ≡ (x.0, tasks ++ x.1)
  unfolding poll_ready take_each
  poll_ready-eq-take_each visible [] tasks s = ap (λ l. (s, l)) (sym (append-nil tasks))
  poll_ready-eq-take_each visible (m ∷ ms) tasks s =
      let s' = r.zadd pkey visible m (r.zrem zkey m s).0 in
      let rest = (take_each r zkey pkey hkey visible ms s').1 in
      elim (Option-cases (r.field hkey m s)) [
        | inl gone ↦ rw gone (poll_ready-eq-take_each visible ms tasks s')
        | inr (d, there) ↦ rw there (
            poll_ready-eq-take_each visible ms (tasks ++ d ∷ []) s'
            ∙ ap (λ l. ((take_each r zkey pkey hkey visible ms s').0, l))
                (append_assoc tasks (d ∷ []) rest))
      ]

  -- The combined script returns the stale tasks and then takes the ones that are due, as the two others.
  pub poll_script_lem :
      (now batch visible : ℕ) (s : r.State)
      → let s' = requeue_each r pkey zkey now (r.due pkey now batch s) s in
        let x = take_each r zkey pkey hkey visible (r.due zkey now batch s') s' in
        poll_script r zkey pkey hkey now batch visible s ≡ (x.0, or_false x.1)
  unfolding poll_script
  poll_script_lem now batch visible s =
      let stale = r.due pkey now batch s in
      let s' = requeue_each r pkey zkey now stale s in
      ap
        (λ (t : r.State).
          let x = poll_ready r zkey pkey hkey visible (r.due zkey now batch t) [] t in
          (x.0, or_false x.1))
        (poll_stale-eq-requeue_each now stale s)
      ∙ ap (λ (x : r.State × List Str). (x.0, or_false x.1))
          (poll_ready-eq-take_each visible (r.due zkey now batch s') [] s')
