-- ===== src/Controller/Reconcile/Changed.antt =====
-- What a reconciliation leaves of the resource in memory.
use teiid_operator.Prelude.{◌≡◌, refl, Bool, true, List, [], ◌∷◌, ◌++◌}
use teiid_operator.Result.{Result, ok, err, panic, not_found, conflict, failed}
use teiid_operator.Exec.{Exec, caught, continue, lift}
use teiid_operator.Vdb.{VirtualDatabase}
use teiid_operator.Controller.Cluster.{Cluster, Context}
use teiid_operator.Controller.Actions.{Action}
use teiid_operator.Controller.Deep.{has_changes}
use teiid_operator.Controller.Reconcile.{Requeue, store_changes, finish, invoke, run_actions}
use teiid_operator.Controller.Reconcile.Laws.{NoneHandles}

module _ {W : Type 0} (cluster : Cluster W) where
  finished :
      (stored : Result (Unit {0})) (r : Result Requeue) (t : Context W)
      → (continue stored (λ _. lift r) t).1.vdb ≡ t.vdb
  finished (ok u) r t = refl
  finished (err e) r t = refl

  store_changes-vdb :
      (b : Bool) (r : Result (Unit {0})) (rest : Exec (Context W) Requeue) (t : Context W)
      → b ≡ true
      → (store_changes cluster b r rest t).1.vdb ≡ t.vdb
  unfolding store_changes
  store_changes-vdb b r rest t h = rw h (finished (cluster.update_vdb t.vdb t.world).0 (finish r) _)

  caught-vdb :
      (r : Result (Unit {0})) (k : Result (Unit {0}) → Exec (Context W) Requeue) (t : Context W)
      → (k r t).1.vdb ≡ t.vdb
      → let end : Result (Result (Unit {0})) × Context W = caught r t in
        (continue end.0 k end.1).1.vdb ≡ t.vdb
  caught-vdb (ok u) k t h = h
  caught-vdb (err not_found) k t h = h
  caught-vdb (err conflict) k t h = h
  caught-vdb (err panic) k t h = refl
  caught-vdb (err (failed text)) k t h = h

  invoke-vdb :
      (instance : VirtualDatabase) (a : Action W) (rest : Exec (Context W) Requeue) (s : Context W)
      → has_changes instance (a.handle s).1.vdb ≡ true
      → (invoke cluster true instance a rest s).1.vdb ≡ (a.handle s).1.vdb
  unfolding invoke
  invoke-vdb instance a rest s h = caught-vdb (a.handle s).0 _ (a.handle s).1 (
      store_changes-vdb (has_changes instance (a.handle s).1.vdb) (a.handle s).0 rest (a.handle s).1
        h)

  -- The first action that takes the resource decides alone, where it changes it.
  pub run_actions-changed :
      (s : Context W) (before after : List (Action W)) (a : Action W)
      → NoneHandles cluster s.vdb before
      → a.can_handle s.vdb ≡ true
      → has_changes s.vdb (a.handle s).1.vdb ≡ true
      → (run_actions cluster s.vdb (before ++ a ∷ after) s).1.vdb ≡ (a.handle s).1.vdb
  unfolding run_actions invoke
  run_actions-changed s [] after a n t h = rw t (invoke-vdb s.vdb a _ s h)
  run_actions-changed s (b ∷ before) after a n t h =
      rw n.0 (run_actions-changed s before after a n.1 t h)
