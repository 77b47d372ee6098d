-- ===== src/Controller/Transitions/Builds.antt =====
-- The steps of s2i_builder_image.go and service_image.go in the diagram of the phases.
use teiid_operator.Prelude.{◌≡◌, refl, ◌⊎◌, inl, inr, List, [], ◌∷◌}
use teiid_operator.Result.{Result, ok, err}
use teiid_operator.Vdb.{
  VirtualDatabase, Phase, initial, create_cache_store, s2i_ready, builder_image,
  builder_image_finished, builder_image_failed, service_image, service_image_finished,
  service_image_failed, service_created, keystore_created, deploying, running, error, deleting,
}
use teiid_operator.Controller.Config.{Config}
use teiid_operator.Controller.Cluster.{
  Cluster, Context, BuildPhase, BuildRun, complete, failed, cancelled, other,
}
use teiid_operator.Controller.Actions.{with_phase}
use teiid_operator.Controller.BuilderImage.{
  judge_build, judge_builds, start_builder, monitor_builder, builder_image_step,
  s2i_builder_image_handle, prepare_builder, get_builds,
}
use teiid_operator.Controller.ServiceImage.{
  judge_service_build, start_service_build, monitor_service_image, service_image_step,
  service_image_handle, build_service_image, note_build, latest_build, no_build,
}
use teiid_operator.Controller.Transitions.{
  Moves, Advance, still, along, base_started, base_finished, base_failed, service_started,
  service_refused, service_finished, service_failed,
}
use teiid_operator.Controller.Transitions.Ends.{Ends, Ends-call, Ends-guarded}

-- The phases of the base image's build.
abbrev IsBase : Phase → Type 0
IsBase p = (p ≡ builder_image) ⊎ (p ≡ builder_image_finished) ⊎ (p ≡ builder_image_failed)

judge_build-IsBase : (p : Phase) (b : BuildPhase) → IsBase p → IsBase (judge_build p b)
unfolding judge_build
judge_build-IsBase p complete h = inr (inl refl)
judge_build-IsBase p BuildPhase.error h = inr (inr refl)
judge_build-IsBase p failed h = inr (inr refl)
judge_build-IsBase p cancelled h = inr (inr refl)
judge_build-IsBase p BuildPhase.running h = inl refl
judge_build-IsBase p other h = h

judge_builds-IsBase :
    (p : Phase) (builds : List BuildRun) → IsBase p → IsBase (judge_builds p builds)
unfolding judge_builds
judge_builds-IsBase p [] h = h
judge_builds-IsBase p (b ∷ builds) h =
    judge_builds-IsBase (judge_build p b.phase) builds (judge_build-IsBase p b.phase h)

IsBase-Moves : (p q : Phase) → p ≡ builder_image → IsBase q → Moves p q
IsBase-Moves p q h (inl e) = rw (h, e) (inl refl)
IsBase-Moves p q h (inr (inl e)) = rw (h, e) (inr base_finished)
IsBase-Moves p q h (inr (inr e)) = rw (h, e) (inr base_failed)

judge_service_build-Moves :
    (p : Phase) (b : BuildPhase) → p ≡ service_image → Moves p (judge_service_build p b)
unfolding judge_service_build
judge_service_build-Moves p complete h = inr (rw h service_finished)
judge_service_build-Moves p BuildPhase.error h = inr (rw h service_failed)
judge_service_build-Moves p failed h = inr (rw h service_failed)
judge_service_build-Moves p cancelled h = inr (rw h service_failed)
judge_service_build-Moves p BuildPhase.running h = inl h
judge_service_build-Moves p other h = inl refl

module _ {W : Type 0} (cluster : Cluster W) (config : Config) where
  start_builder-Advance :
      (s : Context W)
      → s.vdb.status.phase ≡ s2i_ready
      → Ends (Advance cluster s.vdb) (start_builder cluster config s)
  unfolding start_builder
  start_builder-Advance s h =
      Ends-call (Advance cluster s.vdb) (prepare_builder cluster config s.vdb) _ s
        (still cluster s.vdb) (λ _ w. along cluster s.vdb builder_image (inr (rw h base_started)))

  monitor_builder-Advance :
      (s : Context W)
      → s.vdb.status.phase ≡ builder_image
      → Ends (Advance cluster s.vdb) (monitor_builder cluster config s)
  unfolding monitor_builder
  monitor_builder-Advance s h =
      Ends-call (Advance cluster s.vdb) (get_builds cluster config s.vdb) _ s (still cluster s.vdb)
        (λ builds w. along cluster s.vdb (judge_builds s.vdb.status.phase builds) (
          IsBase-Moves s.vdb.status.phase _ h
            (judge_builds-IsBase s.vdb.status.phase builds (inl h))))

  builder_image_step-Advance :
      (p : Phase) (s : Context W)
      → s.vdb.status.phase ≡ p
      → Ends (Advance cluster s.vdb) (builder_image_step cluster config p s)
  unfolding builder_image_step
  builder_image_step-Advance s2i_ready s h = start_builder-Advance s h
  builder_image_step-Advance builder_image s h = monitor_builder-Advance s h
  builder_image_step-Advance initial s h = still cluster s.vdb
  builder_image_step-Advance create_cache_store s h = still cluster s.vdb
  builder_image_step-Advance builder_image_finished s h = still cluster s.vdb
  builder_image_step-Advance builder_image_failed s h = still cluster s.vdb
  builder_image_step-Advance service_image s h = still cluster s.vdb
  builder_image_step-Advance service_image_finished s h = still cluster s.vdb
  builder_image_step-Advance service_image_failed s h = still cluster s.vdb
  builder_image_step-Advance service_created s h = still cluster s.vdb
  builder_image_step-Advance keystore_created s h = still cluster s.vdb
  builder_image_step-Advance deploying s h = still cluster s.vdb
  builder_image_step-Advance running s h = still cluster s.vdb
  builder_image_step-Advance error s h = still cluster s.vdb
  builder_image_step-Advance deleting s h = still cluster s.vdb

  pub s2i_builder_image_handle-Advance :
      (s : Context W) → Ends (Advance cluster s.vdb) (s2i_builder_image_handle cluster config s)
  unfolding s2i_builder_image_handle
  s2i_builder_image_handle-Advance s = builder_image_step-Advance s.vdb.status.phase s refl

  note_build-Advance :
      (u : VirtualDatabase) (r : Result (Unit {0})) (s : Context W)
      → u.status.phase ≡ builder_image_finished
      → s.vdb ≡ with_phase service_image u
      → Ends (Advance cluster u) (note_build cluster config r s)
  unfolding note_build
  note_build-Advance u (ok _) s h e = rw e (inr (rw h service_started), refl, refl, refl, inl refl)
  note_build-Advance u (err x) s h e = rw e (inr (rw h service_refused), refl, refl, refl, inl refl)

  start_service_build-Advance :
      (s : Context W)
      → s.vdb.status.phase ≡ builder_image_finished
      → Ends (Advance cluster s.vdb) (start_service_build cluster config s)
  unfolding start_service_build
  start_service_build-Advance s h =
      let v = with_phase service_image s.vdb in
      Ends-guarded (Advance cluster s.vdb) (build_service_image cluster config v)
        (note_build cluster config) (record s { vdb = v })
        (along cluster s.vdb service_image (inr (rw h service_started)))
        (λ r w. note_build-Advance s.vdb r (record { vdb = v; world = w }) h refl)

  monitor_service_image-Advance :
      (s : Context W)
      → s.vdb.status.phase ≡ service_image
      → Ends (Advance cluster s.vdb) (monitor_service_image cluster config s)
  unfolding monitor_service_image
  monitor_service_image-Advance s h =
      Ends-call (Advance cluster s.vdb) (cluster.list_builds s.vdb.namespace s.vdb.name) _ s
        (still cluster s.vdb)
        (λ builds w.
          along cluster s.vdb
            (judge_service_build s.vdb.status.phase (latest_build builds 0 no_build).phase)
            (judge_service_build-Moves s.vdb.status.phase (latest_build builds 0 no_build).phase h))

  service_image_step-Advance :
      (p : Phase) (s : Context W)
      → s.vdb.status.phase ≡ p
      → Ends (Advance cluster s.vdb) (service_image_step cluster config p s)
  unfolding service_image_step
  service_image_step-Advance builder_image_finished s h = start_service_build-Advance s h
  service_image_step-Advance service_image s h = monitor_service_image-Advance s h
  service_image_step-Advance initial s h = still cluster s.vdb
  service_image_step-Advance create_cache_store s h = still cluster s.vdb
  service_image_step-Advance s2i_ready s h = still cluster s.vdb
  service_image_step-Advance builder_image s h = still cluster s.vdb
  service_image_step-Advance builder_image_failed s h = still cluster s.vdb
  service_image_step-Advance service_image_finished s h = still cluster s.vdb
  service_image_step-Advance service_image_failed s h = still cluster s.vdb
  service_image_step-Advance service_created s h = still cluster s.vdb
  service_image_step-Advance keystore_created s h = still cluster s.vdb
  service_image_step-Advance deploying s h = still cluster s.vdb
  service_image_step-Advance running s h = still cluster s.vdb
  service_image_step-Advance error s h = still cluster s.vdb
  service_image_step-Advance deleting s h = still cluster s.vdb

  pub service_image_handle-Advance :
      (s : Context W) → Ends (Advance cluster s.vdb) (service_image_handle cluster config s)
  unfolding service_image_handle
  service_image_handle-Advance s = service_image_step-Advance s.vdb.status.phase s refl
