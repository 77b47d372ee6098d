-- ===== src/Controller/Steps/Reconciled.antt =====
-- What Reconcile leaves in the cluster, pkg/controller/virtualdatabase/virtualdatabase_controller.go.
use teiid_operator.Prelude.{◌≡◌, refl, ap, sym, ◌∙◌, Bool, true, false, ◌⊎◌, inl, inr, subst}
use teiid_operator.Text.{Str}
use teiid_operator.Result.{Result, ok}
use teiid_operator.Vdb.{VirtualDatabase}
use teiid_operator.Controller.Config.{Config}
use teiid_operator.Controller.Cluster.{Cluster, Context}
use teiid_operator.Controller.Updater.{is_vdb_updated, redeploy_vdb}
use teiid_operator.Controller.Reconcile.{
  Requeue, done, process, reconcile_instance, start, when_fetched, reconcile, run_actions,
}
use teiid_operator.Controller.Reconcile.Stored.{ReadsWrites, run_actions-Stored, written}
use teiid_operator.Controller.Steps.{build_steps, reconcile_vdb}
use teiid_operator.Controller.Steps.Once.{build_steps-Advance}
use teiid_operator.Controller.Transitions.{Advance}

module _ {W : Type 0} (cluster : Cluster W) where
  -- The cluster has an advance of the resource, or its redeployment.
  abbrev pub HasNext : VirtualDatabase → W → Type 0
  HasNext u w =
      (v : VirtualDatabase) × ((cluster.get_vdb u.namespace u.name w).0 ≡ ok v)
      × ((v ≡ redeploy_vdb cluster u) ⊎ Advance cluster u v)

module _ {W : Type 0} (cluster : Cluster W) (config : Config) where
  pub same_key :
      (u v : VirtualDatabase) (w : W)
      → v.namespace ≡ u.namespace
      → v.name ≡ u.name
      → (cluster.get_vdb v.namespace v.name w).0 ≡ ok v
      → (cluster.get_vdb u.namespace u.name w).0 ≡ ok v
  same_key u v w n m h =
      ap (λ x. (cluster.get_vdb x u.name w).0) (sym n)
      ∙ (ap (λ x. (cluster.get_vdb v.namespace x w).0) (sym m) ∙ h)

  redeploy_key :
      (u : VirtualDatabase)
      → ((redeploy_vdb cluster u).namespace ≡ u.namespace)
        × ((redeploy_vdb cluster u).name ≡ u.name)
  unfolding redeploy_vdb
  redeploy_key u = (refl, refl)

  process-HasNext :
      (reads : ReadsWrites cluster) (b : Bool) (u : VirtualDatabase) (w : W)
      → let end : Result Requeue × Context W =
          process cluster b u (build_steps cluster config) (record { vdb = u; world = w }) in
        end.0 ≡ ok done → HasNext cluster u end.1.world
  unfolding process
  process-HasNext reads true u w e =
      let v = redeploy_vdb cluster u in
      let stored : Result (Unit {0}) × W = cluster.update_vdb v w in
      let key = redeploy_key u in
      (v, same_key u v _ key.0 key.1 (written cluster stored.0 v stored.1 (reads v w) e), inl refl)
  process-HasNext reads false u w e =
      let s : Context W = record { vdb = u; world = w } in
      let a = build_steps-Advance cluster config s in
      let end : Result Requeue × Context W = run_actions cluster u (build_steps cluster config) s in
      (
        end.1.vdb,
        same_key u end.1.vdb end.1.world a.2 a.1
            (run_actions-Stored cluster reads u (build_steps cluster config) s e),
        inr a,
      )

  fetched-HasNext :
      (reads : ReadsWrites cluster) (namespace name : Str) (u : VirtualDatabase) (w : W)
      → let end : Result Requeue × W =
          when_fetched cluster namespace name (build_steps cluster config) (ok u) w in
        end.0 ≡ ok done → HasNext cluster u end.1
  unfolding when_fetched start reconcile_instance
  fetched-HasNext reads namespace name u w e =
      process-HasNext reads (is_vdb_updated cluster u) u w e

  -- Where the cluster reads a resource as it was written: a reconciliation that fetches a resource and ends
  -- without an error and without a request to come back has stored in the cluster the redeployment of
  -- that resource, or an advance of it.
  pub reconcile_vdb-HasNext :
      (reads : ReadsWrites cluster) (namespace name : Str) (u : VirtualDatabase) (w : W)
      → (cluster.get_vdb namespace name w).0 ≡ ok u
      → (reconcile_vdb cluster config namespace name w).0 ≡ ok done
      → HasNext cluster u (reconcile_vdb cluster config namespace name w).1
  unfolding reconcile_vdb reconcile
  reconcile_vdb-HasNext reads namespace name u w f e =
      go (cluster.get_vdb namespace name w).0 (cluster.get_vdb namespace name w).1 f e
    where
      go :
          (r : Result VirtualDatabase) (w' : W)
          → r ≡ ok u
          → let end : Result Requeue × W =
              when_fetched cluster namespace name (build_steps cluster config) r w' in
            end.0 ≡ ok done → HasNext cluster u end.1
      go r w' f e =
          subst
            (λ x.
              let end : Result Requeue × W =
                when_fetched cluster namespace name (build_steps cluster config) x w' in
              end.0 ≡ ok done → HasNext cluster u end.1)
            (sym f) (fetched-HasNext reads namespace name u w') e
