-- ===== src/Controller/Transitions/Early.antt =====
-- The steps of initialize.go and cachestore.go in the diagram of the phases.
use teiid_operator.Prelude.{◌≡◌, refl, Bool, true, false, arith, inl, inr}
use teiid_operator.Text.{Str}
use teiid_operator.Result.{Result, ok, err}
use teiid_operator.Vdb.{VirtualDatabase, Phase, initial, create_cache_store, s2i_ready}
use teiid_operator.Controller.Cluster.{Cluster, Context}
use teiid_operator.Controller.Kubernetes.{environment_properties_exists}
use teiid_operator.Controller.Actions.{initialize_can_handle}
use teiid_operator.Controller.Initialize.{
  init, write_config_digest, initialize, when_sources_exist, when_environment_exists,
  when_names_valid, when_initial, initialize_handle, sources_exist,
}
use teiid_operator.Controller.Infinispan.{Details, credentials}
use teiid_operator.Controller.CacheStore.{
  ignore_cache_store, record_cache_store, when_create, unless_ignored, cache_store_handle,
  found_details, create_new_cache_store,
}
use teiid_operator.Controller.Transitions.{Advance, still, along, initialized, stored}
use teiid_operator.Controller.Transitions.Ends.{Ends, Ends-if, Ends-call, Ends-bind}

initial_only : (p : Phase) → initialize_can_handle p ≡ true → p ≡ initial
initial_only p h = ground (arith, h)

module _ {W : Type 0} (cluster : Cluster W) where
  write_config_digest-Advance :
      (u : VirtualDatabase) (r : Result Str) (s : Context W)
      → Advance cluster u s.vdb
      → Ends (Advance cluster u) (write_config_digest cluster r s)
  unfolding write_config_digest
  write_config_digest-Advance u (ok d) s a = a
  write_config_digest-Advance u (err e) s a = a

  initialize-Advance :
      (s : Context W)
      → s.vdb.status.phase ≡ initial
      → Ends (Advance cluster s.vdb) (initialize cluster s)
  unfolding initialize init
  initialize-Advance s h =
      write_config_digest-Advance s.vdb _ _ (inr (rw h initialized), refl, refl, refl, inr refl)

  when_sources_exist-Advance :
      (b : Bool) (s : Context W)
      → s.vdb.status.phase ≡ initial
      → Ends (Advance cluster s.vdb) (when_sources_exist cluster b s)
  unfolding when_sources_exist
  when_sources_exist-Advance true s h = initialize-Advance s h
  when_sources_exist-Advance false s h = still cluster s.vdb

  when_environment_exists-Advance :
      (b : Bool) (s : Context W)
      → s.vdb.status.phase ≡ initial
      → Ends (Advance cluster s.vdb) (when_environment_exists cluster b s)
  unfolding when_environment_exists
  when_environment_exists-Advance true s h =
      Ends-call (Advance cluster s.vdb)
        (sources_exist cluster s.vdb.namespace s.vdb.spec.data_sources) (when_sources_exist cluster)
        s (still cluster s.vdb) (λ b w. when_sources_exist-Advance b (record s { world = w }) h)
  when_environment_exists-Advance false s h = still cluster s.vdb

  when_names_valid-Advance :
      (r : Result (Unit {0})) (s : Context W)
      → s.vdb.status.phase ≡ initial
      → Ends (Advance cluster s.vdb) (when_names_valid cluster r s)
  unfolding when_names_valid
  when_names_valid-Advance (ok _) s h =
      Ends-call (Advance cluster s.vdb)
        (environment_properties_exists cluster s.vdb.namespace s.vdb.spec.env)
        (when_environment_exists cluster) s (still cluster s.vdb)
        (λ b w. when_environment_exists-Advance b (record s { world = w }) h)
  when_names_valid-Advance (err e) s h = still cluster s.vdb

  when_initial-Advance :
      (b : Bool) (s : Context W)
      → (b ≡ true → s.vdb.status.phase ≡ initial)
      → Ends (Advance cluster s.vdb) (when_initial cluster b s)
  unfolding when_initial
  when_initial-Advance true s h = when_names_valid-Advance _ s (h refl)
  when_initial-Advance false s h = still cluster s.vdb

  pub initialize_handle-Advance :
      (s : Context W) → Ends (Advance cluster s.vdb) (initialize_handle cluster s)
  unfolding initialize_handle
  initialize_handle-Advance s =
      when_initial-Advance (initialize_can_handle s.vdb.status.phase) s
        (initial_only s.vdb.status.phase)

  -- The phase is still that of `u`; the text of the cache store may be new.
  abbrev StoreOnly : VirtualDatabase → VirtualDatabase → Type 0
  StoreOnly u v = Advance cluster u v × (v.status.phase ≡ u.status.phase)

  record_cache_store-StoreOnly :
      (d : Details) (found : Bool) (r : Result (Unit {0})) (s : Context W)
      → Ends (StoreOnly s.vdb) (record_cache_store cluster d found r s)
  unfolding record_cache_store
  record_cache_store-StoreOnly d found (err e) s = (still cluster s.vdb, refl)
  record_cache_store-StoreOnly d true (ok _) s = ((inl refl, refl, refl, refl, inl refl), refl)
  record_cache_store-StoreOnly d false (ok _) s = ((inl refl, refl, refl, refl, inl refl), refl)

  when_create-StoreOnly :
      (d : Details × Bool) (s : Context W) → Ends (StoreOnly s.vdb) (when_create cluster d s)
  unfolding when_create
  when_create-StoreOnly (d, found) s =
      let made : Result (Unit {0}) × W = create_new_cache_store cluster d s.world in
      Ends-if (StoreOnly s.vdb) d.create_if_not_found _ _ s
        (record_cache_store-StoreOnly d found made.0 (record s { world = made.1 }))
        (still cluster s.vdb, refl)

  unless_ignored-Advance :
      (ignored : Bool) (s : Context W)
      → s.vdb.status.phase ≡ create_cache_store
      → Ends (Advance cluster s.vdb) (unless_ignored cluster ignored s)
  unfolding unless_ignored
  unless_ignored-Advance true s h = along cluster s.vdb s2i_ready (inr (rw h stored))
  unless_ignored-Advance false s h =
      let known : Result Details × W = credentials cluster s.vdb s.world in
      Ends-call (Advance cluster s.vdb) (found_details cluster s.vdb known.0) _
        (record s { world = known.1 }) (still cluster s.vdb)
        (λ d w.
          Ends-bind (Advance cluster s.vdb) (StoreOnly s.vdb) (when_create cluster d) _
            (record s { world = w }) (when_create-StoreOnly d (record s { world = w })) (λ v p. p.0)
            (λ x t p. (inr (rw h stored), p.0.1, p.0.2, p.0.3, p.0.4)))

  pub cache_store_handle-Advance :
      (s : Context W)
      → s.vdb.status.phase ≡ create_cache_store
      → Ends (Advance cluster s.vdb) (cache_store_handle cluster s)
  unfolding cache_store_handle
  cache_store_handle-Advance s h =
      Ends-call (Advance cluster s.vdb) (ignore_cache_store cluster s.vdb) (unless_ignored cluster)
        s (still cluster s.vdb) (λ b w. unless_ignored-Advance b (record s { world = w }) h)
