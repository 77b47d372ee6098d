-- ===== src/Controller/Environments/Kept.antt =====
-- What the environment of a deployment keeps of the resource's own variables.
use teiid_operator.Prelude.{
  ◌≡◌, refl, ◌∙◌, Bool, true, false, Option, none, some, List, [], ◌==◌, if◌then◌else◌,
}
use teiid_operator.Text.{Str, text_Eq, codes}
use teiid_operator.Result.{Result, ok, err, Ensures}
use teiid_operator.Exec.{Exec, pure, continue}
use teiid_operator.Envvar.{EnvVar, get, combine, add_missing, clone}
use teiid_operator.Envvar.Lookup.{get-combine, get-add_missing, get-clone}
use teiid_operator.Envvar.Unique.{IsUnique, combine-IsUnique}
use teiid_operator.Proxy.{Environ, http_settings, proxy_envs}
use teiid_operator.Proxy.Laws.{proxy_envs-keeps}
use teiid_operator.Vdb.{VirtualDatabase}
use teiid_operator.Vdbutil.{parse_data_sources_info_from_ddl}
use teiid_operator.Spring.Convert.{convert2_spring_properties}
use teiid_operator.Controller.Config.{Config}
use teiid_operator.Controller.Cluster.{Cluster}
use teiid_operator.Controller.Ddl.{fetch_ddl}
use teiid_operator.Controller.Environments.{
  get_default_envs, default_env, get_default_jaeger_envs, traces, add_tracing, credentials_as_env,
  add_cache_store, deployment_environments,
}

-- The entry that a name finds.
abbrev Finds : Str → EnvVar → List EnvVar → Type 0
Finds k e envs = get envs k ≡ some e

-- What a list finds for a name where another, which goes first, found an entry or nothing.
abbrev pub Has : Str → Option EnvVar → List EnvVar → Type 0
Has k none envs = Unit
Has k (some e) envs = Finds k e envs

Has-get : (k : Str) (envs : List EnvVar) → Has k (get envs k) envs
Has-get k envs = go (get envs k) refl
  where
    go : (o : Option EnvVar) → get envs k ≡ o → Has k o envs
    go none h = tt
    go (some e) h = h

Has-map :
    (k : Str) (o : Option EnvVar) (a b : List EnvVar)
    → ((e : EnvVar) → Finds k e a → Finds k e b)
    → Has k o a
    → Has k o b
Has-map k none a b f h = tt
Has-map k (some e) a b f h = f e h

combine-Finds : (a b : List EnvVar) (k : Str) (e : EnvVar) → Finds k e a → Finds k e (combine a b)
combine-Finds a b k e h = get-combine a b k ∙ rw h refl

add_missing-Finds :
    (a b : List EnvVar) (k : Str) (e : EnvVar) → Finds k e a → Finds k e (add_missing a b)
add_missing-Finds a b k e h = get-add_missing a b k ∙ rw h refl

get_default_envs-Finds :
    (os : Environ) (user : List EnvVar) (k : Str) (e : EnvVar)
    → Finds k e user
    → Finds k e (get_default_envs os user)
unfolding get_default_envs http_settings
get_default_envs-Finds os user k e h =
    add_missing-Finds (proxy_envs os (clone user)) (default_env (http_settings os (clone user)).1) k
      e (proxy_envs-keeps os (clone user) k (get-clone user k ∙ h))

module _ {W A B : Type 0} (Q : B → Type 0) where
  Ensures-continue :
      (r : Result A) (k : A → Exec W B) (w : W)
      → ((a : A) → Ensures Q (k a w).0)
      → Ensures Q (continue r k w).0
  Ensures-continue (ok a) k w h = h a
  Ensures-continue (err e) k w h = tt

  -- The same behind a value that has a property.
  Ensures-then :
      (P : A → Type 0) (r : Result A) (k : A → Exec W B) (w : W)
      → Ensures P r
      → ((a : A) → P a → Ensures Q (k a w).0)
      → Ensures Q (continue r k w).0
  Ensures-then P (ok a) k w p h = h a p
  Ensures-then P (err e) k w p h = tt

module _ {W : Type 0} (cluster : Cluster W) where
  add_tracing-Has :
      (vdb : VirtualDatabase) (envs : List EnvVar) (jaeger : Bool) (k : Str) (o : Option EnvVar)
      → Has k o envs
      → Has k o (add_tracing cluster vdb envs jaeger)
  unfolding add_tracing
  add_tracing-Has vdb envs true k o h =
      Has-map k o envs _ (combine-Finds envs (get_default_jaeger_envs vdb.name) k) h
  add_tracing-Has vdb envs false k o h = h

  store-Has :
      (vdb : VirtualDatabase) (envs : List EnvVar) (b : Bool) (k : Str) (o : Option EnvVar) (w : W)
      → Has k o envs
      → Ensures
          (Has k o)
          ((if b then pure envs else (λ x.
              continue
                (credentials_as_env cluster vdb.name vdb.namespace x).0
                (λ c. pure (combine envs c))
                (credentials_as_env cluster vdb.name vdb.namespace x).1))
            w).0
  store-Has vdb envs true k o w h = h
  store-Has vdb envs false k o w h =
      Ensures-continue (Has k o) (credentials_as_env cluster vdb.name vdb.namespace w).0 _
        (credentials_as_env cluster vdb.name vdb.namespace w).1
        (λ c. Has-map k o envs _ (combine-Finds envs c k) h)

  add_cache_store-Has :
      (vdb : VirtualDatabase) (envs : List EnvVar) (k : Str) (o : Option EnvVar) (w : W)
      → Has k o envs
      → Ensures (Has k o) (add_cache_store cluster vdb envs w).0
  unfolding add_cache_store
  add_cache_store-Has vdb envs k o w h = store-Has vdb envs (vdb.status.cache_store == []) k o w h

module _ {W : Type 0} (cluster : Cluster W) (config : Config) where
  -- The environment of a deployment, where there is one, names each variable once, whether the resource has
  -- variables or not; and each name that the resource has a variable of finds the entry that the resource
  -- gives it, whatever the defaults, the proxy, the tracing, the cache store and the data sources add.
  pub deployment_environments-Has :
      (vdb : VirtualDatabase) (k : Str) (w : W)
      → Ensures
          (λ envs. IsUnique envs × Has k (get vdb.spec.env k) envs)
          (deployment_environments cluster config vdb w).0
  unfolding deployment_environments
  deployment_environments-Has vdb k w =
      let o : Option EnvVar = get vdb.spec.env k in
      let Q : List EnvVar → Type 0 = λ envs. IsUnique envs × Has k o envs in
      let ddl : Result Str × W = fetch_ddl cluster config vdb (codes "/tmp/teiid.vdb") w in
      Ensures-continue Q ddl.0 _ ddl.1 λ text.
        Ensures-continue Q
          (convert2_spring_properties config.connection_factories vdb.spec.data_sources
            (parse_data_sources_info_from_ddl text))
          _ ddl.1
          λ sources.
            let seen : Result Bool × W = traces cluster vdb ddl.1 in
            Ensures-continue Q seen.0 _ seen.1 λ jaeger.
              let defaults = get_default_envs cluster.environ vdb.spec.env in
              let traced = add_tracing cluster vdb defaults jaeger in
              let kept =
                Has-map k o vdb.spec.env defaults
                  (get_default_envs-Finds cluster.environ vdb.spec.env k)
                  (Has-get k vdb.spec.env) in
              let cached : Result (List EnvVar) × W = add_cache_store cluster vdb traced seen.1 in
              Ensures-then Q (Has k o) cached.0 _ cached.1
                (add_cache_store-Has cluster vdb traced k o seen.1
                  (add_tracing-Has cluster vdb defaults jaeger k o kept))
                λ envs p. (
                  combine-IsUnique envs sources,
                  Has-map k o envs _ (combine-Finds envs sources k) p,
                )
