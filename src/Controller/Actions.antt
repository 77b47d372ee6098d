-- ===== src/Controller/Actions.antt =====
-- The steps of a reconciliation: interface Action of pkg/controller/virtualdatabase/action.go, and the
-- CanHandle methods of the eight actions, each on the phase that the resource is in.
use teiid_operator.Prelude.{Bool, true, false}
use teiid_operator.Exec.{Exec, update}
use teiid_operator.Vdb.{
  VirtualDatabase, Phase, initial, create_cache_store, s2i_ready, builder_image,
  builder_image_finished, service_image, service_image_finished, service_created, keystore_created,
  deploying, running,
}
use teiid_operator.Controller.Cluster.{Context}

pub record Action (W : Type 0) : Type 0 where
  pub can_handle : VirtualDatabase → Bool
  pub handle : Exec (Context W) (Unit {0})

abbrev pub initialize_can_handle : Phase → Bool
initialize_can_handle initial = true
initialize_can_handle _ = false

abbrev pub cache_store_can_handle : Phase → Bool
cache_store_can_handle create_cache_store = true
cache_store_can_handle _ = false

abbrev pub s2i_builder_image_can_handle : Phase → Bool
s2i_builder_image_can_handle s2i_ready = true
s2i_builder_image_can_handle builder_image = true
s2i_builder_image_can_handle _ = false

abbrev pub service_image_can_handle : Phase → Bool
service_image_can_handle builder_image_finished = true
service_image_can_handle service_image = true
service_image_can_handle _ = false

abbrev pub create_service_can_handle : Phase → Bool
create_service_can_handle service_image_finished = true
create_service_can_handle _ = false

abbrev pub create_certificate_can_handle : Phase → Bool
create_certificate_can_handle service_created = true
create_certificate_can_handle _ = false

abbrev pub deployment_can_handle : Phase → Bool
deployment_can_handle keystore_created = true
deployment_can_handle deploying = true
deployment_can_handle running = true
deployment_can_handle _ = false

abbrev pub prometheus_monitor_can_handle : Phase → Bool
prometheus_monitor_can_handle running = true
prometheus_monitor_can_handle _ = false

-- The writes of a handler to the resource in memory.
abbrev pub with_phase : Phase → VirtualDatabase → VirtualDatabase
with_phase p vdb = record vdb { status = record vdb.status { phase = p } }

abbrev pub edit : {W : Type 0} → (VirtualDatabase → VirtualDatabase) → Exec (Context W) (Unit {0})
edit f = update (λ s. record s { vdb = f s.vdb })
