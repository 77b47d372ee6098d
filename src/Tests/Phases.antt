-- ===== src/Tests/Phases.antt =====
-- The steps in the diagram of the phases.
use teiid_operator.Prelude.{
  ℕ, ◌≡◌, ◌≢◌, refl, ◌⊎◌, true, false, [], ◌∷◌, ◌∙◌, sym, ◌+◌, ◌≤◌, arith, nat_Eq,
}
use teiid_operator.Text.{codes, text_beq}
use teiid_operator.Result.{ok, is_ok, Ensures}
use teiid_operator.Exec.{pure}
use teiid_operator.Envvar.{get}
use teiid_operator.Envvar.Unique.{IsUnique}
use teiid_operator.Vdb.{
  VirtualDatabase, create_cache_store, s2i_ready, service_image_finished, service_created,
  service_image_failed, deploying,
}
use teiid_operator.Controller.Cluster.{Cluster, Context, BuildRun, complete, failed}
use teiid_operator.Controller.Actions.{with_phase}
use teiid_operator.Controller.Digest.{digest_input, compute_for_virtual_database}
use teiid_operator.Controller.Updater.{is_vdb_updated, redeploy_vdb}
use teiid_operator.Controller.Updater.Versions.{redeploy_vdb-is_vdb_updated}
use teiid_operator.Controller.Reconcile.{requeue_after, run_actions}
use teiid_operator.Controller.Transitions.{Advance}
use teiid_operator.Controller.Transitions.Ends.{Ends, Finishes}
use teiid_operator.Controller.Steps.{build_steps}
use teiid_operator.Controller.Steps.Once.{build_steps-Advance}
use teiid_operator.Controller.Steps.Runs.{build_steps-is_final}
use teiid_operator.Controller.Steps.Progress.{after, Climb, start, moved, Climb-bound}
use teiid_operator.Controller.Steps.Ahead.{run_phase}
use teiid_operator.Controller.Initialize.{initialize_action}
use teiid_operator.Controller.Services.Handle.{create_service_handle}
use teiid_operator.Controller.Services.Outcome.{Served, create_service_handle-Served}
use teiid_operator.Controller.Infinispan.{credentials, shared_configuration}
use teiid_operator.Controller.CacheStore.{
  cache_store_action, cache_store_handle, ignore_cache_store,
}
use teiid_operator.Controller.CacheStore.Outcome.{
  Stored, cache_store_handle-Stored, cache_store_handle-configured,
}
use teiid_operator.Controller.ServiceImage.{latest_build, no_build}
use teiid_operator.Controller.ServiceImage.Latest.{Among, AtMost, number, latest_build-greatest}
use teiid_operator.Controller.Environments.{deployment_environments}
use teiid_operator.Controller.Environments.Kept.{Has, deployment_environments-Has}
use teiid_operator.Tests.Samples.{cluster_with, unavailable, empty_secret, resource, config}

-- A cluster with secrets and one without.
abbrev full : Cluster ℕ
full = cluster_with (pure empty_secret)

abbrev empty : Cluster ℕ
empty = cluster_with unavailable

abbrev at : VirtualDatabase → Context ℕ
at vdb = record { vdb = vdb; world = 7 }

-- A resource whose digest is that of its source.
abbrev current : VirtualDatabase
current = redeploy_vdb full (resource deploying)

current_lem : is_vdb_updated full current ≡ false
current_lem = (redeploy_vdb-is_vdb_updated full (resource deploying)).0

build_steps-Advance_example : Ends (Advance full (resource service_created)) (
    run_actions full
      (resource service_created)
      (build_steps full config)
      (at (resource service_created)))
build_steps-Advance_example = build_steps-Advance full config (at (resource service_created))

outdated : is_vdb_updated full (resource deploying) ≡ true
unfolding is_vdb_updated text_beq compute_for_virtual_database digest_input
outdated = refl

stored_next : (after empty config (resource create_cache_store) 7).status.phase ≡ s2i_ready
unfolding build_steps initialize_action cache_store_action
stored_next =
    run_phase empty (at (resource create_cache_store)) (initialize_action empty ∷ []) _
      (cache_store_action empty) create_cache_store s2i_ready (refl, tt) refl refl
      (cache_store_handle-Stored empty (at (resource create_cache_store))).1.1
      (λ e. ground (arith, e))

phases_differ : s2i_ready ≢ create_cache_store
phases_differ h = ground (arith, h)

moves_on : (after empty config (resource create_cache_store) 7).status.phase ≢ create_cache_store
moves_on h = phases_differ (sym stored_next ∙ h)

-- From the creation of the cache store, one run that changes the phase.
one_move :
    Climb empty config 1
      (resource create_cache_store)
      (after empty config (resource create_cache_store) 7)
one_move = moved 7 start moves_on

Climb-bound_example : 1 + 1 ≤ 10
Climb-bound_example = Climb-bound empty config one_move

build_steps-is_final_example :
    run_actions full
      (resource service_image_failed)
      (build_steps full config)
      (at (resource service_image_failed))
    ≡ (ok (requeue_after 5), at (resource service_image_failed))
build_steps-is_final_example =
    build_steps-is_final full config (at (resource service_image_failed)) refl

create_service_handle-Served_example :
    Finishes
      (λ v. Served (resource service_image_finished) v × (v.status.phase ≡ service_created))
      (create_service_handle empty (at (resource service_image_finished)))
create_service_handle-Served_example =
    create_service_handle-Served empty (at (resource service_image_finished))

cache_store_handle-Stored_example :
    Finishes
      (λ v. Stored (resource create_cache_store) v × (v.status.phase ≡ s2i_ready))
      (cache_store_handle empty (at (resource create_cache_store)))
cache_store_handle-Stored_example =
    cache_store_handle-Stored empty (at (resource create_cache_store))

stocked_lem :
    is_ok
      (credentials full
        (resource create_cache_store)
        (ignore_cache_store full (resource create_cache_store) 7).1).0
    ≡ true
unfolding credentials shared_configuration
stocked_lem = refl

cache_store_handle-configured_example :
    (cache_store_handle full (at (resource create_cache_store))).1.vdb
    ≡ with_phase s2i_ready (resource create_cache_store)
cache_store_handle-configured_example =
    cache_store_handle-configured full (at (resource create_cache_store)) stocked_lem

abbrev failed_build : BuildRun
failed_build = record { phase = failed; number = codes "9" }

abbrev complete_build : BuildRun
complete_build = record { phase = complete; number = codes "10" }

latest_build-greatest_example :
    ((latest_build (complete_build ∷ failed_build ∷ []) 0 no_build ≡ no_build)
      ⊎ Among
          (latest_build (complete_build ∷ failed_build ∷ []) 0 no_build)
          (complete_build ∷ failed_build ∷ []))
    × AtMost
        (number (latest_build (complete_build ∷ failed_build ∷ []) 0 no_build))
        (complete_build ∷ failed_build ∷ [])
latest_build-greatest_example = latest_build-greatest (complete_build ∷ failed_build ∷ [])

deployment_environments-Has_example :
    Ensures
      (λ envs.
        IsUnique envs
        × Has (codes "DB_USER") (get (resource deploying).spec.env (codes "DB_USER")) envs)
      (deployment_environments empty config (resource deploying) 7).0
deployment_environments-Has_example =
    deployment_environments-Has empty config (resource deploying) (codes "DB_USER") 7
