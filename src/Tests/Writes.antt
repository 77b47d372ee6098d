-- ===== src/Tests/Writes.antt =====
-- A reconciliation on a cluster that counts the writes of its resource, and a password.
use teiid_operator.Prelude.{ℕ, ◌≡◌, refl, ◌⊎◌}
use teiid_operator.Text.{codes}
use teiid_operator.Vdb.{service_created}
use teiid_operator.Controller.Cluster.{Cluster}
use teiid_operator.Controller.Steps.{reconcile_vdb}
use teiid_operator.Controller.Frame.{Frame}
use teiid_operator.Controller.Frame.Written.{WroteNext, reconcile_vdb-WroteNext}
use teiid_operator.Password.{random_password}
use teiid_operator.Password.Strength.{IsPassword, random_password-IsPassword}
use teiid_operator.Tests.Samples.{counting, resource, config, zeros}

abbrev to_certify : Cluster ℕ
to_certify = counting (resource service_created)

abbrev unwritten : Frame (λ n. n ≡ 0) to_certify
unwritten = record {
  get_vdb = λ a b w p. p;
  get_secret = λ a b w p. p;
  create_secret = λ a b c w p. p;
  get_config_map = λ a b w p. p;
  get_service = λ a b w p. p;
  create_service = λ a w p. p;
  get_route = λ a b w p. p;
  create_route = λ a w p. p;
  console_link_exists = λ w p. p;
  get_console_link = λ a w p. p;
  create_console_link = λ a w p. p;
  update_console_link = λ a w p. p;
  delete_console_link = λ a w p. p;
  get_deployment = λ a b w p. p;
  create_deployment = λ a w p. p;
  update_deployment = λ a w p. p;
  get_build_config = λ a b w p. p;
  create_build_config = λ a w p. p;
  update_build_config = λ a w p. p;
  list_builds = λ a b w p. p;
  start_binary_build = λ a b c w p. p;
  start_build = λ a b w p. p;
  get_image_stream = λ a b w p. p;
  create_image_stream = λ a b w p. p;
  create_docker_image_stream = λ a b c d w p. p;
  get_image_stream_tag = λ a b w p. p;
  list_jaegers = λ a w p. p;
  server_groups = λ w p. p;
  create_infinispan = λ a w p. p;
  list_prometheus_selectors = λ a w p. p;
  list_service_monitors = λ a w p. p;
  create_service_monitor = λ a w p. p;
  set_controller_reference = λ a w p. p;
  tar = λ a w p. p;
  read_service_ca = λ w p. p;
  disk = record {
    open_reader = λ a w p. p;
    mkdir_all = λ a w p. p;
    open_file = λ a w p. p;
    open_entry = λ a w p. p;
    copy = λ a b w p. p;
  };
  sleep = λ w p. p;
  intn = λ n h w p. p;
  shuffle = λ n w p. p;
  remote = record {
    create_file = λ a w p. p;
    http_get = λ a w p. p;
    write_file = λ a b w p. p;
    read_file = λ a w p. p;
  };
}

reconcile_vdb-WroteNext_example :
    let end : ℕ = (reconcile_vdb to_certify config (codes "default") (codes "portfolio") 0).1 in
    (end ≡ 0) ⊎ WroteNext (λ n. n ≡ 0) to_certify (codes "default") (codes "portfolio") 0 end
reconcile_vdb-WroteNext_example =
    reconcile_vdb-WroteNext (λ n. n ≡ 0) to_certify config unwritten (codes "default")
      (codes "portfolio") 0 refl

random_password-IsPassword_example : IsPassword (random_password {W = ℕ} zeros 0).0
random_password-IsPassword_example = random_password-IsPassword zeros 0
