-- ===== src/Controller/Reconcile/Stored.antt =====
-- What a reconciliation that ends well leaves in the cluster.
use teiid_operator.Prelude.{◌≡◌, refl, Bool, true, false, List, [], ◌∷◌, arith}
use teiid_operator.Result.{Result, ok, err, panic, not_found, conflict, failed, is_ok}
use teiid_operator.Exec.{Exec, caught, continue, lift}
use teiid_operator.Vdb.{VirtualDatabase}
use teiid_operator.Controller.Cluster.{Cluster, Context}
use teiid_operator.Controller.Actions.{Action}
use teiid_operator.Controller.Deep.{has_changes}
use teiid_operator.Controller.Reconcile.{Requeue, done, store_changes, finish, invoke, run_actions}

module _ {W : Type 0} (cluster : Cluster W) where
  -- What the API server documents of an update that succeeds: the resource is read as it was written.
  abbrev pub ReadsWrites : Type 0
  ReadsWrites =
      (v : VirtualDatabase) (w : W)
      → is_ok (cluster.update_vdb v w).0 ≡ true
      → (cluster.get_vdb v.namespace v.name (cluster.update_vdb v w).1).0 ≡ ok v

  -- Where the run is over and nothing is to be looked at again, the cluster has the resource in memory.
  abbrev pub Stored : Result Requeue × Context W → Type 0
  Stored end =
      end.0 ≡ ok done
      → (cluster.get_vdb end.1.vdb.namespace end.1.vdb.name end.1.world).0 ≡ ok end.1.vdb

  pub written :
      (stored : Result (Unit {0})) (v : VirtualDatabase) (w : W)
      → (is_ok stored ≡ true → (cluster.get_vdb v.namespace v.name w).0 ≡ ok v)
      → let end : Result Requeue × Context W =
          continue stored (λ _. lift (ok done)) (record { vdb = v; world = w }) in
        end.0 ≡ ok done → (cluster.get_vdb v.namespace v.name end.1.world).0 ≡ ok v
  written (ok u) v w h e = h refl
  written (err x) v w h e = ground (arith, e)

  module _ (reads : ReadsWrites) where
    after_update :
        (stored : Result (Unit {0})) (r : Result Requeue) (t : Context W)
        → (is_ok stored ≡ true → (cluster.get_vdb t.vdb.namespace t.vdb.name t.world).0 ≡ ok t.vdb)
        → Stored (continue stored (λ _. lift r) t)
    after_update (ok u) r t h e = h refl
    after_update (err x) r t h e = ground (arith, e)

    store_changes-Stored :
        (b : Bool) (r : Result (Unit {0})) (rest : Exec (Context W) Requeue) (t : Context W)
        → ((t' : Context W) → Stored (rest t'))
        → Stored (store_changes cluster b r rest t)
    unfolding store_changes
    store_changes-Stored true r rest t k =
        after_update (cluster.update_vdb t.vdb t.world).0 (finish r) _ (reads t.vdb t.world)
    store_changes-Stored false r rest t k = k t

    caught-Stored :
        (r : Result (Unit {0})) (k : Result (Unit {0}) → Exec (Context W) Requeue) (t : Context W)
        → Stored (k r t)
        → let end : Result (Result (Unit {0})) × Context W = caught r t in
          Stored (continue end.0 k end.1)
    caught-Stored (ok u) k t h e = h e
    caught-Stored (err not_found) k t h e = h e
    caught-Stored (err conflict) k t h e = h e
    caught-Stored (err panic) k t h e = ground (arith, e)
    caught-Stored (err (failed text)) k t h e = h e

    invoke-Stored :
        (b : Bool) (instance : VirtualDatabase) (a : Action W) (rest : Exec (Context W) Requeue)
        (s : Context W)
        → ((t : Context W) → Stored (rest t))
        → Stored (invoke cluster b instance a rest s)
    unfolding invoke
    invoke-Stored false instance a rest s k = k s
    invoke-Stored true instance a rest s k = caught-Stored (a.handle s).0 _ (a.handle s).1 (
        store_changes-Stored (has_changes instance (a.handle s).1.vdb) (a.handle s).0 rest
          (a.handle s).1 k)

    pub run_actions-Stored :
        (instance : VirtualDatabase) (actions : List (Action W)) (s : Context W)
        → Stored (run_actions cluster instance actions s)
    unfolding run_actions
    run_actions-Stored instance [] s e = ground (arith, e)
    run_actions-Stored instance (a ∷ later) s e =
        invoke-Stored (a.can_handle s.vdb) instance a (run_actions cluster instance later) s
          (run_actions-Stored instance later) e
