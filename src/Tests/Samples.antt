-- ===== src/Tests/Samples.antt =====
-- A cluster that answers nothing but requests for secrets, and a small resource.
use teiid_operator.Prelude.{ℕ, suc, none, [], ◌∷◌, ◌++◌}
use teiid_operator.Text.{Str, codes}
use teiid_operator.Result.{ok, err, not_found}
use teiid_operator.Exec.{Exec, pure, raise}
use teiid_operator.Envvar.{EnvVar}
use teiid_operator.Vdb.{VirtualDatabase, Phase}
use teiid_operator.Password.{Random}
use teiid_operator.Maven.Types.{Dependency}
use teiid_operator.Maven.Download.{Remote}
use teiid_operator.Archive.{Disk}
use teiid_operator.Controller.Config.{Config}
use teiid_operator.Controller.Cluster.{Cluster, Secret}

abbrev pub variable : Str → Str → EnvVar
variable n v = record { name = n; value = v; value_from = none }

abbrev pub unavailable : {W A : Type 0} → Exec W A
unavailable = raise not_found

abbrev pub offline : {W : Type 0} → Remote W
offline = record {
  create_file = λ name. pure tt;
  http_get = λ url. unavailable;
  write_file = λ name text. pure tt;
  read_file = λ name. unavailable;
  unmarshal_metadata = λ text. err not_found;
}

abbrev pub unmounted : {W : Type 0} → Disk W
unmounted = record {
  open_reader = λ src. unavailable;
  mkdir_all = λ p. unavailable;
  open_file = λ p. unavailable;
  open_entry = λ f. unavailable;
  copy = λ p content. unavailable;
  join = λ a b. a ++ codes "/" ++ b;
  clean = λ a. a;
  dir = λ a. a;
}

-- Draws the first number always, and does not shuffle.
abbrev pub zeros : {W : Type 0} → Random W
zeros = record { intn = λ n h w. ((0, h), w); shuffle = λ n w. ([], w) }

abbrev pub closed : {W : Type 0} → Cluster W
closed = record {
  get_vdb = λ x0 x1. unavailable;
  update_vdb = λ x0. unavailable;
  get_secret = λ x0 x1. unavailable;
  create_secret = λ x0 x1 x2. unavailable;
  get_config_map = λ x0 x1. unavailable;
  get_service = λ x0 x1. unavailable;
  create_service = λ x0. unavailable;
  get_route = λ x0 x1. unavailable;
  create_route = λ x0. unavailable;
  console_link_exists = unavailable;
  get_console_link = λ x0. unavailable;
  create_console_link = λ x0. unavailable;
  update_console_link = λ x0. unavailable;
  delete_console_link = λ x0. unavailable;
  get_deployment = λ x0 x1. unavailable;
  create_deployment = λ x0. unavailable;
  update_deployment = λ x0. unavailable;
  get_build_config = λ x0 x1. unavailable;
  create_build_config = λ x0. unavailable;
  update_build_config = λ x0. unavailable;
  list_builds = λ x0 x1. unavailable;
  start_binary_build = λ x0 x1 x2. unavailable;
  start_build = λ x0 x1. unavailable;
  get_image_stream = λ x0 x1. unavailable;
  create_image_stream = λ x0 x1. unavailable;
  create_docker_image_stream = λ x0 x1 x2 x3. unavailable;
  get_image_stream_tag = λ x0 x1. unavailable;
  list_jaegers = λ x0. unavailable;
  server_groups = unavailable;
  create_infinispan = λ x0. unavailable;
  list_prometheus_selectors = λ x0. unavailable;
  list_service_monitors = λ x0. unavailable;
  create_service_monitor = λ x0. unavailable;
  set_controller_reference = λ x0. unavailable;
  tar = λ x0. unavailable;
  sleep = λ w. w;
  random = zeros;
  read_service_ca = unavailable;
  disk = unmounted;
  remote = offline;
  environ = λ name. none;
  error_text = λ e. codes "refused";
  hash_text = λ text. text;
  encode_project = λ x0. err not_found;
  encode_settings = λ x0. err not_found;
  create_pkcs12_keystore = λ x0 x1 x2. err not_found;
  create_pkcs12_truststore = λ x0 x1. err not_found;
}

abbrev pub empty_secret : Secret
empty_secret = record { data_map = []; string_data = []; resource_version = codes "1" }

-- Its state is a number, which no call changes; `secrets` is what it answers for a secret.
abbrev pub cluster_with : Exec ℕ Secret → Cluster ℕ
cluster_with secrets = record closed { get_secret = λ namespace name. secrets }

-- Its state is the one resource that it stores.
abbrev pub storing : Cluster VirtualDatabase
storing = record closed {
  get_vdb = λ namespace name w. (ok w, w);
  update_vdb = λ vdb w. (ok tt, vdb);
}

-- Its state is how often a resource was written; it has one resource to read, whose key stores are there.
abbrev pub counting : VirtualDatabase → Cluster ℕ
counting vdb = record closed {
  get_vdb = λ namespace name w. (ok vdb, w);
  update_vdb = λ v w. (ok tt, suc w);
  get_secret = λ namespace name. pure empty_secret;
}

-- A resource of a phase, with a DDL and a variable.
abbrev pub resource : Phase → VirtualDatabase
resource p = record {
  name = codes "portfolio";
  namespace = codes "default";
  spec = record {
    replicas = none;
    env = variable (codes "DB_USER") (codes "sa") ∷ [];
    resources = record { limits = []; requests = [] };
    build = record {
      env = [];
      source = record {
        version = [];
        ddl = codes "CREATE DATABASE d";
        maven = [];
        open_api = [];
        dependencies = codes "a" ∷ [];
        maven_repositories = [];
      };
    };
    jaeger = [];
    data_sources = [];
    expose = [];
  };
  status = record {
    phase = p;
    digest = [];
    config_digest = [];
    failure = [];
    route = [];
    version = codes "1";
    cache_store = [];
  };
}

-- The same resource with its one dependency written at the end of the DDL.
abbrev pub shifted_resource : Phase → VirtualDatabase
shifted_resource p = record (resource p) {
  spec = record (resource p).spec {
    build = record (resource p).spec.build {
      source = record (resource p).spec.build.source {
        ddl = codes "CREATE DATABASE da";
        dependencies = [];
      };
    };
  };
}

abbrev pub config : Config
config = record {
  teiid_spring_boot_version = codes "1.6.0";
  spring_boot_version = codes "2.1.3";
  maven_repositories = [];
  build_image = record {
    registry = codes "docker.io";
    image_prefix = codes "fabric8";
    image_name = codes "s2i-java";
    tag = codes "latest";
  };
  match_labels = [];
  labels = [];
  connection_factories = [];
}

abbrev pub driver : Str → Dependency
driver artifact = record {
  group_id = codes "org.postgresql";
  artifact_id = artifact;
  version = codes "42";
  type = [];
  classifier = [];
  scope = [];
  exclusions = none;
}
