-- ===== src/Controller/CacheStore/Outcome.antt =====
-- How cachestore.go of pkg/controller/virtualdatabase ends.
use teiid_operator.Prelude.{◌≡◌, refl, Bool, true, false, ◌++◌, arith}
use teiid_operator.Result.{Result, ok, err, is_ok, Ensures}
use teiid_operator.Text.{Str, codes}
use teiid_operator.Exec.{pure, continue, ◌>>=◌, ◌>>◌}
use teiid_operator.Vdb.{VirtualDatabase, s2i_ready}
use teiid_operator.Controller.Cluster.{Cluster, Context, Secret, call}
use teiid_operator.Controller.Actions.{with_phase, edit}
use teiid_operator.Controller.Kubernetes.{has_server_group}
use teiid_operator.Controller.Kubernetes.Total.{IsTotal, bind-IsTotal}
use teiid_operator.Controller.Infinispan.{
  Details, infinispan_server_group, when_crd_available, is_infinispan_operator_available,
  credentials, shared_configuration, read_infinispan_details,
}
use teiid_operator.Controller.CacheStore.{
  ignore_cache_store, found_details, create_new_cache_store, record_cache_store, when_create,
  unless_ignored, cache_store_handle,
}
use teiid_operator.Controller.Transitions.Ends.{Finishes, Finishes-bind, Finishes-call, Finishes-if}

-- All but the phase and the text of the cache store.
abbrev pub Stored : VirtualDatabase → VirtualDatabase → Type 0
Stored u v =
    (v.name ≡ u.name)
    × (v.namespace ≡ u.namespace)
    × (v.spec ≡ u.spec)
    × (v.status.failure ≡ u.status.failure)

module _ {W : Type 0} (cluster : Cluster W) where
  has_server_group-IsTotal : (name : Str) → IsTotal (has_server_group cluster name)
  unfolding has_server_group
  has_server_group-IsTotal name w = refl

  when_crd_available-IsTotal :
      (namespace : Str) (b : Bool) → IsTotal (when_crd_available cluster namespace b)
  unfolding when_crd_available
  when_crd_available-IsTotal namespace true w = refl
  when_crd_available-IsTotal namespace false w = refl

  is_infinispan_operator_available-IsTotal :
      (namespace : Str) → IsTotal (is_infinispan_operator_available cluster namespace)
  unfolding is_infinispan_operator_available
  is_infinispan_operator_available-IsTotal namespace =
      bind-IsTotal (has_server_group cluster infinispan_server_group)
        (when_crd_available cluster namespace) (has_server_group-IsTotal infinispan_server_group)
        (when_crd_available-IsTotal namespace)

  ignore_cache_store-IsTotal : (vdb : VirtualDatabase) → IsTotal (ignore_cache_store cluster vdb)
  unfolding ignore_cache_store
  ignore_cache_store-IsTotal vdb =
      bind-IsTotal (is_infinispan_operator_available cluster vdb.namespace) _
        (is_infinispan_operator_available-IsTotal vdb.namespace) (λ there w. refl)

  found_details-IsTotal :
      (vdb : VirtualDatabase) (r : Result Details) → IsTotal (found_details cluster vdb r)
  unfolding found_details
  found_details-IsTotal vdb (ok d) w = refl
  found_details-IsTotal vdb (err e) w = refl

  record_cache_store-Stored :
      (d : Details) (found : Bool) (r : Result (Unit {0})) (s : Context W)
      → Finishes (Stored s.vdb) (record_cache_store cluster d found r s)
  unfolding record_cache_store
  record_cache_store-Stored d found (err e) s = (refl, (refl, refl, refl, refl))
  record_cache_store-Stored d true (ok _) s = (refl, (refl, refl, refl, refl))
  record_cache_store-Stored d false (ok _) s = (refl, (refl, refl, refl, refl))

  when_create-Stored :
      (d : Details × Bool) (s : Context W) → Finishes (Stored s.vdb) (when_create cluster d s)
  unfolding when_create
  when_create-Stored (d, found) s =
      let made : Result (Unit {0}) × W = create_new_cache_store cluster d s.world in
      Finishes-if (Stored s.vdb) d.create_if_not_found _ _ s
        (record_cache_store-Stored d found made.0 (record s { world = made.1 }))
        (refl, (refl, refl, refl, refl))

  unless_ignored-Stored :
      (ignored : Bool) (s : Context W)
      → Finishes
          (λ v. Stored s.vdb v × (v.status.phase ≡ s2i_ready))
          (unless_ignored cluster ignored s)
  unfolding unless_ignored
  unless_ignored-Stored true s = (refl, ((refl, refl, refl, refl), refl))
  unless_ignored-Stored false s =
      let Q : VirtualDatabase → Type 0 = λ v. Stored s.vdb v × (v.status.phase ≡ s2i_ready) in
      let known : Result Details × W = credentials cluster s.vdb s.world in
      Finishes-call Q (found_details cluster s.vdb known.0) _ (record s { world = known.1 })
        (found_details-IsTotal s.vdb known.0 known.1)
        (λ d w.
          Finishes-bind Q (Stored s.vdb) (when_create cluster d) _ (record s { world = w })
            (when_create-Stored d (record s { world = w })) (λ _ t p. (refl, (p, refl))))

  -- The step returns no error, whatever the calls of the cluster return, and it ends in the phase after it;
  -- name, namespace, specification and failure stay. A cache store that could not be created is not
  -- reported.
  pub cache_store_handle-Stored :
      (s : Context W)
      → Finishes (λ v. Stored s.vdb v × (v.status.phase ≡ s2i_ready)) (cache_store_handle cluster s)
  unfolding cache_store_handle
  cache_store_handle-Stored s =
      Finishes-call (λ v. Stored s.vdb v × (v.status.phase ≡ s2i_ready))
        (ignore_cache_store cluster s.vdb) (unless_ignored cluster) s
        (ignore_cache_store-IsTotal s.vdb s.world)
        (λ b w. unless_ignored-Stored b (record s { world = w }))

  then_read :
      (r : Result Secret) (w : W)
      → Ensures
          (λ d. d.create_if_not_found ≡ false)
          (continue r (λ secret. pure (read_infinispan_details secret)) w).0
  unfolding read_infinispan_details
  then_read (ok secret) w = refl
  then_read (err e) w = tt

  -- A configuration that is read never asks for the creation of a store.
  credentials-create :
      (vdb : VirtualDatabase) (w : W)
      → Ensures (λ d. d.create_if_not_found ≡ false) (credentials cluster vdb w).0
  unfolding credentials
  credentials-create vdb w =
      let own : Result Secret × W =
        cluster.get_secret vdb.namespace (vdb.name ++ codes "-cache-store") w in
      let shared : Result Secret × W = shared_configuration cluster vdb.namespace own.0 own.1 in
      then_read shared.0 shared.1

  configured :
      (r : Result Details) (t : Context W)
      → is_ok r ≡ true
      → Ensures (λ d. d.create_if_not_found ≡ false) r
      → ((call (found_details cluster t.vdb r) >>= λ d.
            when_create cluster d >> edit (with_phase s2i_ready))
          t).1.vdb
        ≡ with_phase s2i_ready t.vdb
  unfolding found_details when_create
  configured (ok d) t h e = rw e refl
  configured (err x) t h e = ground (arith, h)

  unless_ignored-configured :
      (ignored : Bool) (s : Context W)
      → is_ok (credentials cluster s.vdb s.world).0 ≡ true
      → (unless_ignored cluster ignored s).1.vdb ≡ with_phase s2i_ready s.vdb
  unfolding unless_ignored
  unless_ignored-configured true s h = refl
  unless_ignored-configured false s h =
      let known : Result Details × W = credentials cluster s.vdb s.world in
      configured known.0 (record s { world = known.1 }) h (credentials-create s.vdb s.world)

  -- Where the secret with the configuration of a cache store can be read, the step changes nothing of the
  -- resource but the phase.
  pub cache_store_handle-configured :
      (s : Context W)
      → is_ok (credentials cluster s.vdb (ignore_cache_store cluster s.vdb s.world).1).0 ≡ true
      → (cache_store_handle cluster s).1.vdb ≡ with_phase s2i_ready s.vdb
  unfolding cache_store_handle
  cache_store_handle-configured s h =
      let ignored : Result Bool × W = ignore_cache_store cluster s.vdb s.world in
      go ignored.0 ignored.1 (ignore_cache_store-IsTotal s.vdb s.world) h
    where
      go :
          (r : Result Bool) (w : W)
          → is_ok r ≡ true
          → is_ok (credentials cluster s.vdb w).0 ≡ true
          → (continue r (unless_ignored cluster) (record s { world = w })).1.vdb
            ≡ with_phase s2i_ready s.vdb
      go (ok b) w e h = unless_ignored-configured b (record s { world = w }) h
      go (err x) w e h = ground (arith, e)
