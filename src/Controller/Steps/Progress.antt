-- ===== src/Controller/Steps/Progress.antt =====
-- How often the runs over the actions change the phase of a resource.
use teiid_operator.Prelude.{ℕ, suc, ◌+◌, ◌<◌, ◌≤◌, ◌≡◌, ◌≢◌, sym, ◌⊎◌, inl, inr, arith}
use teiid_operator.Vdb.{
  VirtualDatabase, Spec, Phase, initial, create_cache_store, s2i_ready, builder_image,
  builder_image_finished, service_image, service_image_finished, service_created, keystore_created,
  deploying,
}
use teiid_operator.Controller.Config.{Config}
use teiid_operator.Controller.Cluster.{Cluster, Context}
use teiid_operator.Controller.Reconcile.{run_actions}
use teiid_operator.Controller.Steps.{build_steps}
use teiid_operator.Controller.Steps.Once.{build_steps-Advance}
use teiid_operator.Controller.Transitions.{
  Edge, initialized, stored, base_started, base_finished, base_failed, service_started,
  service_refused, service_finished, service_failed, served, certified, deployed, ready,
  deployment_failed,
}

-- How far a resource has come.
abbrev pub rank : Phase → ℕ
rank initial = 0
rank create_cache_store = 1
rank s2i_ready = 2
rank builder_image = 3
rank builder_image_finished = 4
rank service_image = 5
rank service_image_finished = 6
rank service_created = 7
rank keystore_created = 8
rank deploying = 9
rank _ = 10

pub Edge-rank : {p q : Phase} → Edge p q → rank p < rank q
Edge-rank initialized = omega arith
Edge-rank stored = omega arith
Edge-rank base_started = omega arith
Edge-rank base_finished = omega arith
Edge-rank base_failed = omega arith
Edge-rank service_started = omega arith
Edge-rank service_refused = omega arith
Edge-rank service_finished = omega arith
Edge-rank service_failed = omega arith
Edge-rank served = omega arith
Edge-rank certified = omega arith
Edge-rank deployed = omega arith
Edge-rank ready = omega arith
Edge-rank deployment_failed = omega arith

rank_bound : (p : Phase) → rank p ≤ 10
rank_bound p = ground arith

-- A resource after a run over the actions, from the state `w` of the cluster.
abbrev pub after : {W : Type 0} → Cluster W → Config → VirtualDatabase → W → VirtualDatabase
after cluster config v w =
    (run_actions cluster v (build_steps cluster config) (record { vdb = v; world = w })).1.vdb

-- A history without a redeployment, in which `n` runs change the phase: runs on any states of the cluster,
-- and edits of the specification by the user.
pub data Climb {W : Type 0} (cluster : Cluster W) (config : Config)
    : ℕ → VirtualDatabase → VirtualDatabase → Type 0 where
  start : {u : VirtualDatabase} → Climb cluster config 0 u u
  moved :
      {n : ℕ} {u v : VirtualDatabase} (w : W)
      → Climb cluster config n u v
      → (after cluster config v w).status.phase ≢ v.status.phase
      → Climb cluster config (suc n) u (after cluster config v w)
  stayed :
      {n : ℕ} {u v : VirtualDatabase} (w : W)
      → Climb cluster config n u v
      → (after cluster config v w).status.phase ≡ v.status.phase
      → Climb cluster config n u (after cluster config v w)
  edited :
      {n : ℕ} {u v : VirtualDatabase} (spec : Spec)
      → Climb cluster config n u v
      → Climb cluster config n u (record v { spec = spec })

module _ {W : Type 0} (cluster : Cluster W) (config : Config) where
  -- A run over the actions that changes the phase of a resource brings it further, in the order from the
  -- initial phase to the running one and the failures: no run goes back.
  build_steps-rank :
      (s : Context W)
      → let v = (run_actions cluster s.vdb (build_steps cluster config) s).1.vdb in
        (v.status.phase ≡ s.vdb.status.phase) ⊎ (rank s.vdb.status.phase < rank v.status.phase)
  build_steps-rank s = elim (build_steps-Advance cluster config s).0 [
    | inl e ↦ inl (sym e)
    | inr e ↦ inr (Edge-rank e)
  ]

  climb :
      {n : ℕ} {u v : VirtualDatabase}
      → Climb cluster config n u v
      → rank u.status.phase + n ≤ rank v.status.phase
  climb start = omega arith
  climb (moved {n} {u} {v} w c h) = elim (build_steps-rank (record { vdb = v; world = w })) [
    | inl e ↦ elim (h e) [ ]
    | inr lt ↦ let c' = climb c in omega arith
  ]
  climb (stayed {n} {u} {v} w c h) = let c' = climb c in rw h c'
  climb (edited spec c) = climb c

  -- Until a redeployment, at most ten runs over the actions change the phase of a resource, whatever the
  -- calls of the cluster return and the user edits in between; and fewer, the further the resource had
  -- come.
  pub Climb-bound :
      {n : ℕ} {u v : VirtualDatabase} → Climb cluster config n u v → rank u.status.phase + n ≤ 10
  Climb-bound {v} c = let below = climb c in let top = rank_bound v.status.phase in omega arith
