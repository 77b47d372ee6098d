-- ===== src/Tests/Ways.antt =====
-- A resource that is redeployed, and initialized after that.
use teiid_operator.Prelude.{ℕ, ◌≡◌, ◌≢◌, refl, sym, ◌∙◌, true, false, List, [], ◌∷◌, arith}
use teiid_operator.Text.{text_Eq, text_beq}
use teiid_operator.Vdb.{VirtualDatabase, Phase, initial, create_cache_store}
use teiid_operator.Controller.Cluster.{Cluster}
use teiid_operator.Controller.Digest.{
  compute_for_virtual_database, digest_input, compute_config_digest,
}
use teiid_operator.Controller.Updater.{is_vdb_updated, redeploy_vdb}
use teiid_operator.Controller.Updater.Versions.{redeploy_vdb-is_vdb_updated}
use teiid_operator.Controller.Kubernetes.{
  environment_properties_exists, validate_environment_property_names,
}
use teiid_operator.Controller.Initialize.{initialize_handle, initialize_action, init, sources_exist}
use teiid_operator.Controller.Steps.{build_steps}
use teiid_operator.Controller.Steps.Ahead.{run_phase}
use teiid_operator.Controller.Steps.Progress.{after}
use teiid_operator.Controller.Steps.Trail.{Life, created, moved, redeployed, Came, Life-Came}
use teiid_operator.Tests.Samples.{cluster_with, unavailable, resource, config}

abbrev empty : Cluster ℕ
empty = cluster_with unavailable

abbrev fresh : VirtualDatabase
fresh = resource initial

outdated : is_vdb_updated empty fresh ≡ true
unfolding is_vdb_updated text_beq compute_for_virtual_database digest_input
outdated = refl

abbrev current : VirtualDatabase
current = redeploy_vdb empty fresh

current_lem : (is_vdb_updated empty current ≡ false) × (current.status.phase ≡ initial)
current_lem = redeploy_vdb-is_vdb_updated empty fresh

initialized :
    (initialize_handle empty (record { vdb = current; world = 7 })).1.vdb.status.phase
    ≡ create_cache_store
unfolding initialize_handle redeploy_vdb environment_properties_exists sources_exist init
    validate_environment_property_names compute_config_digest text_beq
initialized = refl

moves_on : (after empty config current 7).status.phase ≡ create_cache_store
unfolding build_steps initialize_action redeploy_vdb
moves_on =
    run_phase empty (record { vdb = current; world = 7 }) [] _ (initialize_action empty) initial
      create_cache_store tt refl refl initialized (λ e. ground (arith, e))

phases_differ : create_cache_store ≢ initial
phases_differ h = ground (arith, h)

abbrev trail : List Phase
trail = (after empty config current 7).status.phase ∷ current.status.phase ∷ []

history : Life empty config fresh trail (after empty config current 7)
history =
    moved 7 (redeployed created outdated) current_lem.0
      (λ h. phases_differ (sym moves_on ∙ (h ∙ current_lem.1)))

Life-Came_example : Came empty config fresh trail (after empty config current 7)
Life-Came_example = Life-Came empty config history refl
