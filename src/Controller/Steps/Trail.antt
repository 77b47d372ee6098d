-- ===== src/Controller/Steps/Trail.antt =====
-- The way of a resource through the phases, over all its reconciliations.
use teiid_operator.Prelude.{
  ◌≡◌, ◌≢◌, refl, ap, sym, subst, ◌∙◌, ◌⊎◌, inl, inr, true, false, List, [], ◌∷◌,
}
use teiid_operator.Vdb.{
  VirtualDatabase, Spec, Phase, initial, create_cache_store, s2i_ready, builder_image,
  builder_image_finished, builder_image_failed, service_image, service_image_finished,
  service_image_failed, service_created, keystore_created, deploying, running, error, deleting,
}
use teiid_operator.Controller.Config.{Config}
use teiid_operator.Controller.Cluster.{Cluster}
use teiid_operator.Controller.Updater.{is_vdb_updated, redeploy_vdb}
use teiid_operator.Controller.Steps.Once.{build_steps-Advance}
use teiid_operator.Controller.Steps.Progress.{after}
use teiid_operator.Controller.Transitions.{
  Edge, initialized, stored, base_started, base_finished, base_failed, service_started,
  service_refused, service_finished, service_failed, served, certified, deployed, ready,
  deployment_failed,
}

-- The phases up to the build of the base image, the build of the service's image and the deployment, the
-- last one first.
abbrev pub to_base : List Phase
to_base = builder_image ∷ s2i_ready ∷ create_cache_store ∷ initial ∷ []

abbrev pub to_service : List Phase
to_service = service_image ∷ builder_image_finished ∷ to_base

abbrev pub to_deployment : List Phase
to_deployment = deploying ∷ keystore_created ∷ service_created ∷ service_image_finished ∷ to_service

-- The phases on the way from the initial phase to one that has one way, the last one first.
abbrev pub way : Phase → List Phase
way initial = initial ∷ []
way create_cache_store = create_cache_store ∷ initial ∷ []
way s2i_ready = s2i_ready ∷ create_cache_store ∷ initial ∷ []
way builder_image = to_base
way builder_image_finished = builder_image_finished ∷ to_base
way builder_image_failed = builder_image_failed ∷ to_base
way service_image = to_service
way service_image_finished = service_image_finished ∷ to_service
way service_image_failed = service_image_failed ∷ to_service
way service_created = service_created ∷ service_image_finished ∷ to_service
way keystore_created = keystore_created ∷ service_created ∷ service_image_finished ∷ to_service
way deploying = to_deployment
way running = running ∷ to_deployment
way error = []
way deleting = []

-- An error comes of the start of the service's build or of the deployment, and nothing comes to the phase of
-- deletion.
abbrev pub IsWay : Phase → List Phase → Type 0
IsWay error trail =
    (trail ≡ error ∷ builder_image_finished ∷ to_base) ⊎ (trail ≡ error ∷ to_deployment)
IsWay deleting trail = ⊥
IsWay p trail = trail ≡ way p

-- The history of a resource, with the phases that it was in since its creation or its last redeployment, the
-- last one first: runs over the actions on any state of the cluster, redeployments of a resource whose source
-- has changed, and edits of the specification by the user. A run that is not stored adds nothing.
pub data Life {W : Type 0} (cluster : Cluster W) (config : Config)
    : VirtualDatabase → List Phase → VirtualDatabase → Type 0 where
  created : {u : VirtualDatabase} → Life cluster config u (u.status.phase ∷ []) u
  moved :
      {u v : VirtualDatabase} {trail : List Phase} (w : W)
      → Life cluster config u trail v
      → is_vdb_updated cluster v ≡ false
      → (after cluster config v w).status.phase ≢ v.status.phase
      → Life cluster config u
          ((after cluster config v w).status.phase ∷ trail)
          (after cluster config v w)
  stayed :
      {u v : VirtualDatabase} {trail : List Phase} (w : W)
      → Life cluster config u trail v
      → is_vdb_updated cluster v ≡ false
      → (after cluster config v w).status.phase ≡ v.status.phase
      → Life cluster config u trail (after cluster config v w)
  redeployed :
      {u v : VirtualDatabase} {trail : List Phase}
      → Life cluster config u trail v
      → is_vdb_updated cluster v ≡ true
      → Life cluster config u ((redeploy_vdb cluster v).status.phase ∷ []) (redeploy_vdb cluster v)
  edited :
      {u v : VirtualDatabase} {trail : List Phase} (spec : Spec)
      → Life cluster config u trail v
      → Life cluster config u trail (record v { spec = spec })

-- An edge of the diagram continues a way.
Edge-IsWay : {p q : Phase} (trail : List Phase) → Edge p q → IsWay p trail → IsWay q (q ∷ trail)
Edge-IsWay trail initialized h = ap (λ t. create_cache_store ∷ t) h
Edge-IsWay trail stored h = ap (λ t. s2i_ready ∷ t) h
Edge-IsWay trail base_started h = ap (λ t. builder_image ∷ t) h
Edge-IsWay trail base_finished h = ap (λ t. builder_image_finished ∷ t) h
Edge-IsWay trail base_failed h = ap (λ t. builder_image_failed ∷ t) h
Edge-IsWay trail service_started h = ap (λ t. service_image ∷ t) h
Edge-IsWay trail service_refused h = inl (ap (λ t. error ∷ t) h)
Edge-IsWay trail service_finished h = ap (λ t. service_image_finished ∷ t) h
Edge-IsWay trail service_failed h = ap (λ t. service_image_failed ∷ t) h
Edge-IsWay trail served h = ap (λ t. service_created ∷ t) h
Edge-IsWay trail certified h = ap (λ t. keystore_created ∷ t) h
Edge-IsWay trail deployed h = ap (λ t. deploying ∷ t) h
Edge-IsWay trail ready h = ap (λ t. running ∷ t) h
Edge-IsWay trail deployment_failed h = inr (ap (λ t. error ∷ t) h)

module _ {W : Type 0} (cluster : Cluster W) (config : Config) where
  -- The resource is the same one, and came the way.
  abbrev pub Came : VirtualDatabase → List Phase → VirtualDatabase → Type 0
  Came u trail v = (v.name ≡ u.name) × (v.namespace ≡ u.namespace) × IsWay v.status.phase trail

  redeploy-Came :
      (u v : VirtualDatabase)
      → v.name ≡ u.name
      → v.namespace ≡ u.namespace
      → Came u ((redeploy_vdb cluster v).status.phase ∷ []) (redeploy_vdb cluster v)
  unfolding redeploy_vdb
  redeploy-Came u v n m = (n, m, refl)

  -- Over the whole history of a resource that was created in the initial phase, with runs on any states
  -- of the cluster while it does not count as updated, redeployments where it does, and edits, in any
  -- order, it keeps its name and its namespace, and since its creation or its last redeployment it has
  -- been in every phase on the way of the diagram from the initial phase to the one that it is in, in
  -- the order of the way and in each one once; to an error there are two ways, from the start of the
  -- build of the service and from the deployment.
  pub Life-Came :
      {u v : VirtualDatabase} {trail : List Phase}
      → Life cluster config u trail v
      → u.status.phase ≡ initial
      → Came u trail v
  Life-Came (created {u}) h = (refl, refl, rw h refl)
  Life-Came (moved {u} {v} {trail} w l e d) h =
      let (n, m, c) = Life-Came l h in
      let a = build_steps-Advance cluster config (record { vdb = v; world = w }) in
      (
        a.1 ∙ n,
        a.2 ∙ m,
        elim a.0 [ inl same ↦ absurd (d (sym same)) | inr edge ↦ Edge-IsWay trail edge c ],
      )
  Life-Came (stayed {u} {v} {trail} w l e same) h =
      let (n, m, c) = Life-Came l h in
      let a = build_steps-Advance cluster config (record { vdb = v; world = w }) in
      (a.1 ∙ n, a.2 ∙ m, subst (λ p. IsWay p trail) (sym same) c)
  Life-Came (redeployed {u} {v} l e) h = let (n, m, c) = Life-Came l h in redeploy-Came u v n m
  Life-Came (edited spec l) h = Life-Came l h
