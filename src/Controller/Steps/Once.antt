-- ===== src/Controller/Steps/Once.antt =====
-- One run over the actions of the operator.
use teiid_operator.Prelude.{◌≡◌, refl, sym, Bool, true, false, List, [], ◌∷◌, arith}
use teiid_operator.Text.{text_Eq}
use teiid_operator.Result.{Result, ok, err, not_found, conflict, panic, failed}
use teiid_operator.Exec.{Exec, caught, continue}
use teiid_operator.Vdb.{
  VirtualDatabase, Phase, create_cache_store, service_image_finished, service_created,
}
use teiid_operator.Controller.Config.{Config}
use teiid_operator.Controller.Cluster.{Cluster, Context}
use teiid_operator.Controller.Actions.{
  Action, cache_store_can_handle, create_service_can_handle, create_certificate_can_handle,
}
use teiid_operator.Controller.Deep.{has_changes, has_changes-false, same_resource}
use teiid_operator.Controller.Reconcile.{Requeue, store_changes, invoke, run_actions}
use teiid_operator.Controller.Initialize.{initialize_action}
use teiid_operator.Controller.CacheStore.{cache_store_action}
use teiid_operator.Controller.BuilderImage.{s2i_builder_image_action}
use teiid_operator.Controller.ServiceImage.{service_image_action}
use teiid_operator.Controller.Services.Handle.{create_service_action}
use teiid_operator.Controller.Certificates.{create_certificate_action}
use teiid_operator.Controller.Deployment.{deployment_action}
use teiid_operator.Controller.Monitor.{prometheus_monitor_action}
use teiid_operator.Controller.Steps.{build_steps}
use teiid_operator.Controller.Transitions.{Advance, still}
use teiid_operator.Controller.Transitions.Ends.{Ends, Ends-call}
use teiid_operator.Controller.Transitions.Early.{
  initialize_handle-Advance, cache_store_handle-Advance,
}
use teiid_operator.Controller.Transitions.Builds.{
  s2i_builder_image_handle-Advance, service_image_handle-Advance,
}
use teiid_operator.Controller.Transitions.Late.{
  create_service_handle-Advance, create_certificate_handle-Advance, deployment_handle-Advance,
  prometheus_monitor_handle-Advance,
}

cache_store_only : (p : Phase) → cache_store_can_handle p ≡ true → p ≡ create_cache_store
cache_store_only p h = ground (arith, h)

create_service_only : (p : Phase) → create_service_can_handle p ≡ true → p ≡ service_image_finished
create_service_only p h = ground (arith, h)

create_certificate_only : (p : Phase) → create_certificate_can_handle p ≡ true → p ≡ service_created
create_certificate_only p h = ground (arith, h)

module _ {W : Type 0} (cluster : Cluster W) where
  -- An action that advances a resource that it takes.
  abbrev pub IsStep : Action W → Type 0
  IsStep a = (s : Context W) → a.can_handle s.vdb ≡ true → Ends (Advance cluster s.vdb) (a.handle s)

  abbrev pub AllSteps : List (Action W) → Type 0
  AllSteps [] = Unit
  AllSteps (a ∷ actions) = IsStep a × AllSteps actions

  -- Where nothing changed, the rest of the actions sees the resource that was read.
  unchanged : (u v : VirtualDatabase) → Advance cluster u v → has_changes u v ≡ false → v ≡ u
  unchanged u v a h =
      let (spec, status) = has_changes-false u v h in
      same_resource v u a.1 a.2 (sym spec) (sym status)

  store_changes-Advance :
      (u : VirtualDatabase) (b : Bool) (r : Result (Unit {0})) (rest : Exec (Context W) Requeue)
      (t : Context W)
      → Advance cluster u t.vdb
      → (b ≡ false → t.vdb ≡ u)
      → ((w : W) → Ends (Advance cluster u) (rest (record { vdb = u; world = w })))
      → Ends (Advance cluster u) (store_changes cluster b r rest t)
  unfolding store_changes
  store_changes-Advance u true r rest t a e k =
      Ends-call (Advance cluster u) (cluster.update_vdb t.vdb) _ t a (λ _ w. a)
  store_changes-Advance u false r rest t a e k = rw (e refl) (k t.world)

  invoke-Advance :
      (u : VirtualDatabase) (b : Bool) (a : Action W) (rest : Exec (Context W) Requeue) (w : W)
      → (b ≡ true → Ends (Advance cluster u) (a.handle (record { vdb = u; world = w })))
      → ((x : W) → Ends (Advance cluster u) (rest (record { vdb = u; world = x })))
      → Ends (Advance cluster u) (invoke cluster b u a rest (record { vdb = u; world = w }))
  unfolding invoke
  invoke-Advance u false a rest w h k = k w
  invoke-Advance u true a rest w h k =
      let end : Result (Unit {0}) × Context W = a.handle (record { vdb = u; world = w }) in
      go end.0 end.1 (h refl)
    where
      go :
          (r : Result (Unit {0})) (t : Context W)
          → Advance cluster u t.vdb
          → let c : Result (Result (Unit {0})) × Context W = caught r t in
            Ends
              (Advance cluster u)
              (continue c.0 (λ x. λ y. store_changes cluster (has_changes u y.vdb) x rest y) c.1)
      go (ok x) t p = store_changes-Advance u _ (ok x) rest t p (unchanged u t.vdb p) k
      go (err not_found) t p =
          store_changes-Advance u _ (err not_found) rest t p (unchanged u t.vdb p) k
      go (err conflict) t p =
          store_changes-Advance u _ (err conflict) rest t p (unchanged u t.vdb p) k
      go (err panic) t p = p
      go (err (failed text)) t p =
          store_changes-Advance u _ (err (failed text)) rest t p (unchanged u t.vdb p) k

  run_actions-Advance :
      (u : VirtualDatabase) (actions : List (Action W))
      → AllSteps actions
      → (w : W)
      → Ends (Advance cluster u) (run_actions cluster u actions (record { vdb = u; world = w }))
  unfolding run_actions
  run_actions-Advance u [] h w = still cluster u
  run_actions-Advance u (a ∷ later) h w =
      invoke-Advance u (a.can_handle u) a (run_actions cluster u later) w
        (h.0 (record { vdb = u; world = w })) (run_actions-Advance u later h.1)

module _ {W : Type 0} (cluster : Cluster W) (config : Config) where
  build_steps-AllSteps : AllSteps cluster (build_steps cluster config)
  unfolding build_steps initialize_action cache_store_action s2i_builder_image_action
      service_image_action create_service_action create_certificate_action deployment_action
      prometheus_monitor_action
  build_steps-AllSteps = (
    (λ s h. initialize_handle-Advance cluster s),
    (
      (λ s h. cache_store_handle-Advance cluster s (cache_store_only s.vdb.status.phase h)),
      (
        (λ s h. s2i_builder_image_handle-Advance cluster config s),
        (
          (λ s h. service_image_handle-Advance cluster config s),
          (
            (λ s h.
                create_service_handle-Advance cluster s (create_service_only s.vdb.status.phase h)),
            (
              (λ s h.
                  create_certificate_handle-Advance cluster s
                    (create_certificate_only s.vdb.status.phase h)),
              (
                (λ s h. deployment_handle-Advance cluster config s),
                ((λ s h. prometheus_monitor_handle-Advance cluster config s), tt),
              ),
            ),
          ),
        ),
      ),
    ),
  )

  -- A run over the actions, whatever the calls of the cluster return, moves the phase of the resource along
  -- one edge of the diagram at most; it keeps the name, the namespace and the source of the build; and the
  -- digest in the status stays or is that of the source.
  pub build_steps-Advance :
      (s : Context W)
      → Ends (Advance cluster s.vdb) (run_actions cluster s.vdb (build_steps cluster config) s)
  build_steps-Advance s =
      run_actions-Advance cluster s.vdb (build_steps cluster config) build_steps-AllSteps s.world
