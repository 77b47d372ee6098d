-- ===== src/Controller/Initialize/Outcome.antt =====
-- What a run of the step in pkg/controller/virtualdatabase/initialize.go leaves behind.
use teiid_operator.Prelude.{
  ℕ, ◌≡◌, refl, ap, ◌≢◌, Bool, true, false, ◌⊎◌, inl, inr, Option, none, some, [], arith,
}
use teiid_operator.Text.{Str}
use teiid_operator.Result.{Result, ok, err, is_ok}
use teiid_operator.Exec.{continue}
use teiid_operator.Vdb.{VirtualDatabase, initial, create_cache_store}
use teiid_operator.Controller.Cluster.{Cluster, Context}
use teiid_operator.Controller.Digest.{digest_input, compute_for_virtual_database}
use teiid_operator.Controller.Kubernetes.{
  validate_environment_property_names, environment_properties_exists,
}
use teiid_operator.Controller.Kubernetes.Total.{
  environment_properties_exists-IsTotal, sources_exist-IsTotal,
}
use teiid_operator.Controller.Initialize.{
  with_failure, default_replicas, init, invalid_names, configuration_missing, sources_exist,
  write_config_digest, initialize, when_sources_exist, when_environment_exists, when_names_valid,
  when_initial, initialize_handle,
}
use teiid_operator.Controller.Actions.{initialize_can_handle}

-- The phase of the next step, no failure, a number of replicas, and the digest of the source.
abbrev pub IsInitialized : {W : Type 0} → Cluster W → VirtualDatabase → Type 0
IsInitialized cluster vdb =
    (vdb.status.phase ≡ create_cache_store)
    × (vdb.status.failure ≡ [])
    × (vdb.spec.replicas ≢ none)
    × (vdb.status.digest ≡ compute_for_virtual_database cluster vdb)

-- The resource as it was but for a message.
abbrev pub IsHeld : VirtualDatabase → VirtualDatabase → Type 0
IsHeld before after =
    (after ≡ with_failure configuration_missing before)
    ⊎ (after ≡ with_failure invalid_names before)

some≢none : (n : ℕ) → some n ≢ none
some≢none n h = ground (arith, h)

default_replicas-some : (r : Option ℕ) → default_replicas r ≢ none
unfolding default_replicas
default_replicas-some none = some≢none 1
default_replicas-some (some n) = some≢none n

module _ {W : Type 0} (cluster : Cluster W) where
  abbrev pub Outcome : VirtualDatabase → Result (Unit {0}) × Context W → Type 0
  Outcome before end = IsInitialized cluster end.1.vdb ⊎ IsHeld before end.1.vdb

  write_config_digest-Outcome :
      (before : VirtualDatabase) (r : Result Str) (s : Context W)
      → IsInitialized cluster s.vdb
      → Outcome before (write_config_digest cluster r s)
  unfolding write_config_digest compute_for_virtual_database digest_input
  write_config_digest-Outcome before (ok d) s h = inl h
  write_config_digest-Outcome before (err e) s h = inl h

  initialize-Outcome : (s : Context W) → Outcome s.vdb (initialize cluster s)
  unfolding initialize compute_for_virtual_database digest_input init
  initialize-Outcome s =
      write_config_digest-Outcome s.vdb _ _
        (refl, refl, default_replicas-some s.vdb.spec.replicas, refl)

  when_sources_exist-Outcome :
      (r : Result Bool) (vdb : VirtualDatabase) (w : W)
      → is_ok r ≡ true
      → Outcome vdb (continue r (when_sources_exist cluster) (record { vdb = vdb; world = w }))
  unfolding when_sources_exist
  when_sources_exist-Outcome (ok true) vdb w h =
      initialize-Outcome (record { vdb = vdb; world = w })
  when_sources_exist-Outcome (ok false) vdb w h = inr (inl refl)
  when_sources_exist-Outcome (err e) vdb w h = ground (arith, h)

  when_environment_exists-Outcome :
      (r : Result Bool) (vdb : VirtualDatabase) (w : W)
      → is_ok r ≡ true
      → Outcome vdb (continue r (when_environment_exists cluster) (record { vdb = vdb; world = w }))
  unfolding when_environment_exists
  when_environment_exists-Outcome (ok true) vdb w h =
      let found : Result Bool × W = sources_exist cluster vdb.namespace vdb.spec.data_sources w in
      when_sources_exist-Outcome found.0 vdb found.1
        (sources_exist-IsTotal cluster vdb.namespace vdb.spec.data_sources w)
  when_environment_exists-Outcome (ok false) vdb w h = inr (inl refl)
  when_environment_exists-Outcome (err e) vdb w h = ground (arith, h)

  when_names_valid-Outcome :
      (r : Result (Unit {0})) (s : Context W) → Outcome s.vdb (when_names_valid cluster r s)
  unfolding when_names_valid
  when_names_valid-Outcome (ok _) s =
      let found : Result Bool × W =
        environment_properties_exists cluster s.vdb.namespace s.vdb.spec.env s.world in
      when_environment_exists-Outcome found.0 s.vdb found.1
        (environment_properties_exists-IsTotal cluster s.vdb.namespace s.vdb.spec.env s.world)
  when_names_valid-Outcome (err e) s = inr (inr refl)

  when_initial-Outcome :
      (b : Bool) (s : Context W) → b ≡ true → Outcome s.vdb (when_initial cluster b s)
  unfolding when_initial
  when_initial-Outcome true s h =
      when_names_valid-Outcome (validate_environment_property_names s.vdb.spec.env) s
  when_initial-Outcome false s h = ground (arith, h)

  -- From the initial phase, the step either leaves a resource that is initialized (it is in the phase of
  -- the next step, without a failure, with a number of replicas and with the digest of its source), or it
  -- writes nothing but one of its two messages. The first holds also where it returns an error, that of
  -- the configuration's digest.
  pub initialize_handle-Outcome :
      (s : Context W) → s.vdb.status.phase ≡ initial → Outcome s.vdb (initialize_handle cluster s)
  unfolding initialize_handle
  initialize_handle-Outcome s h =
      when_initial-Outcome (initialize_can_handle s.vdb.status.phase) s (ap initialize_can_handle h)
