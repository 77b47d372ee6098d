-- ===== src/Controller/Transitions.antt =====
-- The diagram of the phases of a resource, and what a step of pkg/controller/virtualdatabase may do to the
-- resource in memory.
pub mod Ends
pub mod Early
pub mod Builds
pub mod Late
use teiid_operator.Prelude.{◌≡◌, ◌⊎◌, inl, inr, refl}
use teiid_operator.Vdb.{
  VirtualDatabase, Phase, initial, create_cache_store, s2i_ready, builder_image,
  builder_image_finished, builder_image_failed, service_image, service_image_finished,
  service_image_failed, service_created, keystore_created, deploying, running, error,
}
use teiid_operator.Controller.Cluster.{Cluster}
use teiid_operator.Controller.Digest.{compute_for_virtual_database}
use teiid_operator.Controller.Actions.{with_phase}

pub data Edge : Phase → Phase → Type 0 where
  initialized : Edge initial create_cache_store
  stored : Edge create_cache_store s2i_ready
  base_started : Edge s2i_ready builder_image
  base_finished : Edge builder_image builder_image_finished
  base_failed : Edge builder_image builder_image_failed
  service_started : Edge builder_image_finished service_image
  service_refused : Edge builder_image_finished error
  service_finished : Edge service_image service_image_finished
  service_failed : Edge service_image service_image_failed
  served : Edge service_image_finished service_created
  certified : Edge service_created keystore_created
  deployed : Edge keystore_created deploying
  ready : Edge deploying running
  deployment_failed : Edge deploying error

-- One edge, or none.
abbrev pub Moves : Phase → Phase → Type 0
Moves p q = (p ≡ q) ⊎ Edge p q

-- The phase moves along one edge at most; name, namespace and the source of the build stay; and the digest
-- in the status stays, or is that of the source.
abbrev pub Advance : {W : Type 0} → Cluster W → VirtualDatabase → VirtualDatabase → Type 0
Advance cluster u v =
    Moves u.status.phase v.status.phase
    × (v.name ≡ u.name)
    × (v.namespace ≡ u.namespace)
    × (v.spec.build ≡ u.spec.build)
    × ((v.status.digest ≡ u.status.digest)
        ⊎ (v.status.digest ≡ compute_for_virtual_database cluster u))

module _ {W : Type 0} (cluster : Cluster W) where
  pub still : (u : VirtualDatabase) → Advance cluster u u
  still u = (inl refl, refl, refl, refl, inl refl)

  pub along :
      (u : VirtualDatabase) (q : Phase)
      → Moves u.status.phase q
      → Advance cluster u (with_phase q u)
  along u q m = (m, refl, refl, refl, inl refl)
