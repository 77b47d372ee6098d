-- ===== src/Controller/Steps/Arrived.antt =====
-- A reconciliation that ends a wait, pkg/controller/virtualdatabase/virtualdatabase_controller.go.
use teiid_operator.Prelude.{◌≡◌, sym, Bool, true, false, subst, arith}
use teiid_operator.Text.{Str}
use teiid_operator.Result.{Result, ok}
use teiid_operator.Vdb.{VirtualDatabase, Phase}
use teiid_operator.Controller.Config.{Config}
use teiid_operator.Controller.Cluster.{Cluster, Context}
use teiid_operator.Controller.Updater.{is_vdb_updated}
use teiid_operator.Controller.Reconcile.{
  Requeue, done, process, reconcile_instance, start, when_fetched, reconcile, run_actions,
}
use teiid_operator.Controller.Reconcile.Accepted.{Accepts}
use teiid_operator.Controller.Reconcile.Stored.{ReadsWrites, run_actions-Stored}
use teiid_operator.Controller.Steps.{build_steps, reconcile_vdb}
use teiid_operator.Controller.Steps.Once.{build_steps-Advance}
use teiid_operator.Controller.Steps.Arrivals.{Arrives}
use teiid_operator.Controller.Steps.Waits.{build_steps-Arrives}
use teiid_operator.Controller.Steps.Reconciled.{same_key}

module _ {W : Type 0} (cluster : Cluster W) where
  -- The reconciliation is over, and the cluster has the resource in the phase.
  abbrev pub IsStoredIn : VirtualDatabase → Phase → Result Requeue × W → Type 0
  IsStoredIn u q end =
      (end.0 ≡ ok done)
      × (v : VirtualDatabase) × ((cluster.get_vdb u.namespace u.name end.1).0 ≡ ok v)
      × (v.status.phase ≡ q)

module _ {W : Type 0} (cluster : Cluster W) (config : Config) (accepts : Accepts cluster)
    (reads : ReadsWrites cluster) where
  process-IsStoredIn :
      (b : Bool) (u : VirtualDatabase) (w : W) (p q : Phase)
      → b ≡ false
      → u.status.phase ≡ p
      → Arrives cluster (record { vdb = u; world = w }) p q
      → let end : Result Requeue × Context W =
          process cluster b u (build_steps cluster config) (record { vdb = u; world = w }) in
        IsStoredIn cluster u q (end.0, end.1.world)
  unfolding process
  process-IsStoredIn true u w p q b h a = ground (arith, b)
  process-IsStoredIn false u w p q b h a =
      let s : Context W = record { vdb = u; world = w } in
      let end : Result Requeue × Context W = run_actions cluster u (build_steps cluster config) s in
      let (over, phase) = build_steps-Arrives cluster config accepts s p q h a in
      let next = build_steps-Advance cluster config s in
      (
        over,
        end.1.vdb,
        same_key cluster config u end.1.vdb end.1.world next.2 next.1
            (run_actions-Stored cluster reads u (build_steps cluster config) s over),
        phase,
      )

  fetched-IsStoredIn :
      (namespace name : Str) (u : VirtualDatabase) (w : W) (p q : Phase)
      → is_vdb_updated cluster u ≡ false
      → u.status.phase ≡ p
      → Arrives cluster (record { vdb = u; world = w }) p q
      → IsStoredIn cluster u q
          (when_fetched cluster namespace name (build_steps cluster config) (ok u) w)
  unfolding when_fetched start reconcile_instance
  fetched-IsStoredIn namespace name u w p q b h a =
      process-IsStoredIn (is_vdb_updated cluster u) u w p q b h a

  -- Where the cluster refuses no update of a resource and reads a resource as it was written: a
  -- reconciliation that fetches a resource which does not count as updated, and which does not have to
  -- wait or sees what it waits for, ends without an error and without a request to come back, and has
  -- stored the resource in the next phase. A resource does not have to wait at the creation of the cache
  -- store and at the services. The image is built, or has failed, as the last build of the base image
  -- says that is not waiting to run, or the newest build of the service, counted from one; the key
  -- stores are made where their secret is there; and the deployment is running where it has a condition
  -- of being available, and in error where it has conditions, neither one of being available nor one of
  -- progress, and four observed generations at least.
  pub reconcile_vdb-Arrives :
      (namespace name : Str) (u : VirtualDatabase) (w : W) (p q : Phase)
      → (cluster.get_vdb namespace name w).0 ≡ ok u
      → is_vdb_updated cluster u ≡ false
      → u.status.phase ≡ p
      → Arrives cluster (record { vdb = u; world = (cluster.get_vdb namespace name w).1 }) p q
      → IsStoredIn cluster u q (reconcile_vdb cluster config namespace name w)
  unfolding reconcile_vdb reconcile
  reconcile_vdb-Arrives namespace name u w p q f b h a =
      subst
        (λ r. IsStoredIn cluster u q (
          when_fetched cluster namespace name (build_steps cluster config) r
            (cluster.get_vdb namespace name w).1))
        (sym f) (fetched-IsStoredIn namespace name u (cluster.get_vdb namespace name w).1 p q b h a)
