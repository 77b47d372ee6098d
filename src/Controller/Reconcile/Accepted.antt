-- ===== src/Controller/Reconcile/Accepted.antt =====
-- The result of a reconciliation where the API server accepts what is written.
use teiid_operator.Prelude.{◌≡◌, refl, Bool, true, List, [], ◌∷◌, ◌++◌, arith}
use teiid_operator.Result.{Result, ok, err, is_ok}
use teiid_operator.Exec.{Exec, caught, continue, lift}
use teiid_operator.Vdb.{VirtualDatabase}
use teiid_operator.Controller.Cluster.{Cluster, Context}
use teiid_operator.Controller.Actions.{Action}
use teiid_operator.Controller.Deep.{has_changes}
use teiid_operator.Controller.Reconcile.{Requeue, done, store_changes, finish, invoke, run_actions}
use teiid_operator.Controller.Reconcile.Laws.{NoneHandles}

module _ {W : Type 0} (cluster : Cluster W) where
  -- No update of a resource is refused.
  abbrev pub Accepts : Type 0
  Accepts = (v : VirtualDatabase) (w : W) → is_ok (cluster.update_vdb v w).0 ≡ true

  finished :
      (stored r : Result (Unit {0})) (t : Context W)
      → is_ok stored ≡ true
      → is_ok r ≡ true
      → (continue stored (λ _. lift (finish r)) t).0 ≡ ok done
  unfolding finish
  finished (ok u) (ok x) t h k = refl
  finished (ok u) (err e) t h k = ground (arith, k)
  finished (err e) r t h k = ground (arith, h)

  module _ (accepts : Accepts) where
    store_changes-done :
        (b : Bool) (r : Result (Unit {0})) (rest : Exec (Context W) Requeue) (t : Context W)
        → b ≡ true
        → is_ok r ≡ true
        → (store_changes cluster b r rest t).0 ≡ ok done
    unfolding store_changes
    store_changes-done b r rest t h k = rw h (
        finished (cluster.update_vdb t.vdb t.world).0 r
          (record t { world = (cluster.update_vdb t.vdb t.world).1 }) (accepts t.vdb t.world) k)

    caught-done :
        (r : Result (Unit {0})) (k : Result (Unit {0}) → Exec (Context W) Requeue) (t : Context W)
        → is_ok r ≡ true
        → (k r t).0 ≡ ok done
        → let end : Result (Result (Unit {0})) × Context W = caught r t in
          (continue end.0 k end.1).0 ≡ ok done
    caught-done (ok u) k t g h = h
    caught-done (err e) k t g h = ground (arith, g)

    -- An action that takes the resource, changes it and returns no error ends the run.
    pub run_actions-done :
        (s : Context W) (before after : List (Action W)) (a : Action W)
        → NoneHandles cluster s.vdb before
        → a.can_handle s.vdb ≡ true
        → has_changes s.vdb (a.handle s).1.vdb ≡ true
        → is_ok (a.handle s).0 ≡ true
        → (run_actions cluster s.vdb (before ++ a ∷ after) s).0 ≡ ok done
    unfolding run_actions invoke
    run_actions-done s [] after a n t h k = rw t (
        caught-done (a.handle s).0 _ (a.handle s).1 k (
          store_changes-done (has_changes s.vdb (a.handle s).1.vdb) (a.handle s).0 _ (a.handle s).1
            h k))
    run_actions-done s (b ∷ before) after a n t h k =
        rw n.0 (run_actions-done s before after a n.1 t h k)
