-- ===== src/Controller/Frame/Written.antt =====
-- What a reconciliation writes: Reconcile of pkg/controller/virtualdatabase/virtualdatabase_controller.go.
use teiid_operator.Prelude.{◌≡◌, refl, Bool, true, false, ◌⊎◌, inl, inr, List, [], ◌∷◌}
use teiid_operator.Text.{Str}
use teiid_operator.Result.{Result, ok, err, not_found, conflict, panic, failed}
use teiid_operator.Exec.{Exec, caught, continue}
use teiid_operator.Vdb.{VirtualDatabase}
use teiid_operator.Controller.Config.{Config}
use teiid_operator.Controller.Cluster.{Cluster, Context}
use teiid_operator.Controller.Actions.{Action}
use teiid_operator.Controller.Updater.{is_vdb_updated, redeploy_vdb}
use teiid_operator.Controller.ConsoleLinks.{remove_console_link}
use teiid_operator.Controller.Deep.{has_changes}
use teiid_operator.Controller.Reconcile.{
  Requeue, done, finish, store_changes, invoke, run_actions, process, reconcile_instance, start,
  clean_up, when_fetched, reconcile,
}
use teiid_operator.Controller.Steps.{build_steps, reconcile_vdb}
use teiid_operator.Controller.Steps.Once.{build_steps-Advance}
use teiid_operator.Controller.Transitions.{Advance}
use teiid_operator.Controller.Initialize.{initialize_action}
use teiid_operator.Controller.CacheStore.{cache_store_action}
use teiid_operator.Controller.BuilderImage.{s2i_builder_image_action}
use teiid_operator.Controller.ServiceImage.{service_image_action}
use teiid_operator.Controller.Services.Handle.{create_service_action}
use teiid_operator.Controller.Certificates.{create_certificate_action}
use teiid_operator.Controller.Deployment.{deployment_action}
use teiid_operator.Controller.Monitor.{prometheus_monitor_action}
use teiid_operator.Controller.Frame.{Keeps, OfWorld, Frame, Keeps-bind}
use teiid_operator.Controller.Frame.Objects.{remove_console_link-Keeps}
use teiid_operator.Controller.Frame.Early.{
  initialize_handle-Keeps, cache_store_handle-Keeps, s2i_builder_image_handle-Keeps,
  service_image_handle-Keeps,
}
use teiid_operator.Controller.Frame.Late.{
  create_service_handle-Keeps, create_certificate_handle-Keeps, prometheus_monitor_handle-Keeps,
}
use teiid_operator.Controller.Frame.Tending.{deployment_handle-Keeps}

module _ {W : Type 0} (P : W → Type 0) (cluster : Cluster W) where
  -- The resource in memory was the last write, if there was one.
  abbrev pub Wrote : Context W → Type 0
  Wrote t = P t.world ⊎ ((w : W) × P w × (t.world ≡ (cluster.update_vdb t.vdb w).1))

  abbrev AllKeep : List (Action W) → Type 0
  AllKeep [] = Unit
  AllKeep (a ∷ actions) = Keeps (OfWorld P) a.handle × AllKeep actions

  -- What a resource that was fetched may be written as.
  abbrev pub IsNext : VirtualDatabase → VirtualDatabase → Type 0
  IsNext u v =
      ((is_vdb_updated cluster u ≡ true) × (v ≡ redeploy_vdb cluster u))
      ⊎ ((is_vdb_updated cluster u ≡ false) × Advance cluster u v)

  -- One write of a next version of the resource, after which nothing is called.
  abbrev pub WroteNext : Str → Str → W → W → Type 0
  WroteNext namespace name start end =
      (u : VirtualDatabase) × (v : VirtualDatabase) × (w : W) × ((cluster.get_vdb namespace name
          start).0
        ≡ ok u)
      × IsNext u v
      × P w
      × (end ≡ (cluster.update_vdb v w).1)

  stored_world :
      (stored : Result (Unit {0}) × W) (v : VirtualDatabase) (r : Result Requeue)
      → let end : Result Requeue × Context W =
          continue stored.0 (λ _ s. (r, s)) (record { vdb = v; world = stored.1 }) in
        end.1.world ≡ stored.1
  stored_world (ok a, x) v r = refl
  stored_world (err e, x) v r = refl

  stored-Wrote :
      (stored : Result (Unit {0}) × W) (v : VirtualDatabase) (w : W) (r : Result Requeue)
      → P w
      → stored.1 ≡ (cluster.update_vdb v w).1
      → Wrote (continue stored.0 (λ _ s. (r, s)) (record { vdb = v; world = stored.1 })).1
  stored-Wrote (ok a, x) v w r p e = inr (w, p, e)
  stored-Wrote (err x, y) v w r p e = inr (w, p, e)

  store_changes-Wrote :
      (b : Bool) (r : Result (Unit {0})) (rest : Exec (Context W) Requeue) (t : Context W)
      → P t.world
      → ((t' : Context W) → P t'.world → Wrote (rest t').1)
      → Wrote (store_changes cluster b r rest t).1
  unfolding store_changes
  store_changes-Wrote true r rest t p k =
      stored-Wrote (cluster.update_vdb t.vdb t.world) t.vdb t.world (finish r) p refl
  store_changes-Wrote false r rest t p k = k t p

  caught-Wrote :
      (r : Result (Unit {0})) (k : Result (Unit {0}) → Exec (Context W) Requeue) (t : Context W)
      → P t.world
      → Wrote (k r t).1
      → let end : Result (Result (Unit {0})) × Context W = caught r t in
        Wrote (continue end.0 k end.1).1
  caught-Wrote (ok u) k t p h = h
  caught-Wrote (err not_found) k t p h = h
  caught-Wrote (err conflict) k t p h = h
  caught-Wrote (err panic) k t p h = inl p
  caught-Wrote (err (failed text)) k t p h = h

  invoke-Wrote :
      (b : Bool) (u : VirtualDatabase) (a : Action W) (rest : Exec (Context W) Requeue)
      (s : Context W)
      → P s.world
      → Keeps (OfWorld P) a.handle
      → ((t : Context W) → P t.world → Wrote (rest t).1)
      → Wrote (invoke cluster b u a rest s).1
  unfolding invoke
  invoke-Wrote false u a rest s p h k = k s p
  invoke-Wrote true u a rest s p h k =
      let t : Context W = (a.handle s).1 in
      caught-Wrote (a.handle s).0 _ t (h s p)
        (store_changes-Wrote (has_changes u t.vdb) (a.handle s).0 rest t (h s p) k)

  run_actions-Wrote :
      (u : VirtualDatabase) (actions : List (Action W)) (s : Context W)
      → P s.world
      → AllKeep actions
      → Wrote (run_actions cluster u actions s).1
  unfolding run_actions
  run_actions-Wrote u [] s p h = inl p
  run_actions-Wrote u (a ∷ later) s p (h, hs) =
      invoke-Wrote (a.can_handle s.vdb) u a (run_actions cluster u later) s p h
        (λ t q. run_actions-Wrote u later t q hs)

module _ {W : Type 0} (P : W → Type 0) (cluster : Cluster W) (config : Config)
    (frame : Frame P cluster) where
  build_steps-AllKeep : AllKeep P cluster (build_steps cluster config)
  unfolding build_steps initialize_action cache_store_action s2i_builder_image_action
      service_image_action create_service_action create_certificate_action deployment_action
      prometheus_monitor_action
  build_steps-AllKeep = (
    initialize_handle-Keeps frame,
    (
      cache_store_handle-Keeps frame,
      (
        s2i_builder_image_handle-Keeps frame config,
        (
          service_image_handle-Keeps frame config,
          (
            create_service_handle-Keeps frame,
            (
              create_certificate_handle-Keeps frame,
              (
                deployment_handle-Keeps frame config,
                (prometheus_monitor_handle-Keeps frame config, tt),
              ),
            ),
          ),
        ),
      ),
    ),
  )

  process-WroteNext :
      (b : Bool) (namespace name : Str) (u : VirtualDatabase) (w x : W)
      → is_vdb_updated cluster u ≡ b
      → (cluster.get_vdb namespace name x).0 ≡ ok u
      → P w
      → let end : W =
          (process cluster b u
            (build_steps cluster config)
            (record { vdb = u; world = w })).1.world in
        P end ⊎ WroteNext P cluster namespace name x end
  unfolding process
  process-WroteNext true namespace name u w x b g p =
      let v : VirtualDatabase = redeploy_vdb cluster u in
      inr
        (u, v, w, g, inl (b, refl), p, stored_world P cluster (cluster.update_vdb v w) v (ok done))
  process-WroteNext false namespace name u w x b g p =
      let s : Context W = record { vdb = u; world = w } in
      elim (run_actions-Wrote P cluster u (build_steps cluster config) s p build_steps-AllKeep) [
        | inl q ↦ inl q
        | inr q ↦ inr (u, _, q.0, g, inr (b, build_steps-Advance cluster config s), q.1, q.2)
      ]

  clean_up-Keeps :
      (namespace name : Str) (r : Result (Unit {0})) → Keeps P (clean_up cluster namespace name r)
  unfolding clean_up
  clean_up-Keeps namespace name (ok a) =
      Keeps-bind P (remove_console_link cluster namespace name) _
        (remove_console_link-Keeps frame namespace name) (λ a w p. p)
  clean_up-Keeps namespace name (err e) = λ w p. p

  when_fetched-WroteNext :
      (namespace name : Str) (r : Result VirtualDatabase) (w x : W)
      → (cluster.get_vdb namespace name x).0 ≡ r
      → P w
      → let end : W = (when_fetched cluster namespace name (build_steps cluster config) r w).1 in
        P end ⊎ WroteNext P cluster namespace name x end
  unfolding when_fetched start reconcile_instance
  when_fetched-WroteNext namespace name (ok u) w x g p =
      process-WroteNext (is_vdb_updated cluster u) namespace name u w x refl g p
  when_fetched-WroteNext namespace name (err not_found) w x g p =
      inl (clean_up-Keeps namespace name _ _ (frame.console_link_exists w p))
  when_fetched-WroteNext namespace name (err conflict) w x g p = inl p
  when_fetched-WroteNext namespace name (err panic) w x g p = inl p
  when_fetched-WroteNext namespace name (err (failed t)) w x g p = inl p

  -- A property of the cluster that every call keeps, except the update of the resource, is kept by a whole
  -- reconciliation; or else the reconciliation fetched the resource, and its last call, before which the
  -- property still held, updates the resource: where it counts as updated, to its redeployment, and where
  -- not, to an advance of it. So no reconciliation updates the resource twice, or does anything after it.
  pub reconcile_vdb-WroteNext :
      (namespace name : Str) (w : W)
      → P w
      → let end : W = (reconcile_vdb cluster config namespace name w).1 in
        P end ⊎ WroteNext P cluster namespace name w end
  unfolding reconcile_vdb reconcile
  reconcile_vdb-WroteNext namespace name w p =
      when_fetched-WroteNext namespace name (cluster.get_vdb namespace name w).0
        (cluster.get_vdb namespace name w).1 w refl (frame.get_vdb namespace name w p)
