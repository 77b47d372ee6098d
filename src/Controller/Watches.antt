-- ===== src/Controller/Watches.antt =====
-- The registration of the controller, pkg/controller/virtualdatabase/watch.go, and the samples of
-- pkg/util/openshift/webconsole.go, which it creates. The manager, its watches, the constructors of the
-- clients and the files in the binary are parameters.
pub mod Order
pub mod Wakes
use teiid_operator.Prelude.{
  ℕ, Bool, true, false, not, ◌||◌, Option, none, some, List, [], ◌∷◌, ◌==◌, nat_Eq,
}
use teiid_operator.Text.{Str, codes}
use teiid_operator.Table.{put}
use teiid_operator.Result.{Err, Result, ok, err}
use teiid_operator.Exec.{Exec, pure, lift, attempt, ◌>>=◌, ◌>>◌}
use teiid_operator.Vdb.{VirtualDatabase, Phase-discrete}
use teiid_operator.Controller.Deep.{differs}

-- The kinds of the objects that are watched.
pub data Kind : Type 0 where
  virtual_database : Kind
  build_config : Kind
  build : Kind
  image_stream : Kind
  deployment : Kind
  deployment_config : Kind
  persistent_volume_claim : Kind
  service : Kind
  route : Kind

-- Whose request a change puts into the queue: that of the controlling VirtualDatabase, or of the object.
pub data Handler : Type 0 where
  enqueue_request_for_owner : Handler
  enqueue_request_for_object : Handler

pub record Watch : Type 0 where
  pub kind : Kind
  pub handler : Handler
  pub has_predicate : Bool

abbrev pub watch_objects : List Kind
watch_objects = virtual_database ∷ build_config ∷ build ∷ image_stream ∷ deployment ∷ []

abbrev pub watch_owned_objects : List Kind
watch_owned_objects =
    deployment_config ∷ persistent_volume_claim ∷ service ∷ route ∷ build_config ∷ build
    ∷ image_stream ∷ []

abbrev pub owner_watch : Kind → Watch
owner_watch k = record { kind = k; handler = enqueue_request_for_owner; has_predicate = false }

abbrev pub primary_watch : Watch
primary_watch = record {
  kind = virtual_database;
  handler = enqueue_request_for_object;
  has_predicate = true;
}

-- A resource as an event has it, with the generation in its metadata.
pub record Observed : Type 0 where
  pub generation : ℕ
  pub vdb : VirtualDatabase

-- UpdateFunc and DeleteFunc of the predicate
unfoldable pub update_func : Observed → Observed → Bool
update_func old new =
    not (old.generation == new.generation)
    || differs Phase-discrete old.vdb.status.phase new.vdb.status.phase

unfoldable pub delete_func : Bool → Bool
delete_func delete_state_unknown = not delete_state_unknown

module _ {W C : Type 0} (new_controller : Exec W C) (watch : C → Watch → Exec W (Unit {0})) where
  unfoldable pub watch_all : C → List Kind → Exec W (Unit {0})
  watch_all c [] = pure tt
  watch_all c (object ∷ objects) = do watch c (owner_watch object); watch_all c objects

  unfoldable pub add : Exec W (Unit {0})
  unfolding watch_all
  add = do
    c ← new_controller
    watch_all c watch_objects
    watch c primary_watch
    watch_all c watch_owned_objects

-- `resMap[filename]` after the run over one file: the error of the first call that fails, or "Applied".
module _ {W V S : Type 0} (find_string : Str → Result Str) (unmarshal : Str → Result V)
    (get_console_yaml_sample : V → Result S) (create : S → Exec W (Unit {0}))
    (error_text : Err → Str) where
  unfoldable pub apply_sample : Str → Exec W (Unit {0})
  apply_sample filename = do
    yaml_str ← lift (find_string filename)
    teiid ← lift (unmarshal yaml_str)
    yaml_sample ← lift (get_console_yaml_sample teiid)
    create yaml_sample

  abbrev pub sample_status : Result (Unit {0}) → Str
  sample_status (ok _) = codes "Applied"
  sample_status (err e) = error_text e

  -- An empty box ends the run before the loop, with the same table.
  unfoldable pub create_console_yaml_samples :
      List Str → List (Str × Str) → Exec W (List (Str × Str))
  unfolding apply_sample put
  create_console_yaml_samples [] res_map = pure res_map
  create_console_yaml_samples (filename ∷ filenames) res_map = do
    r ← attempt (apply_sample filename)
    create_console_yaml_samples filenames (put res_map filename (sample_status r))

-- The clients of a reconciler; `none` is a reconciler without any.
pub record Clients (Image Build Monitor Jaeger Teiid : Type 0) : Type 0 where
  pub image_client : Image
  pub build_client : Build
  pub prometheus_client : Monitor
  pub jaeger_client : Jaeger
  pub client : Teiid

module _ {W A B : Type 0} where
  -- A constructor that fails ends newReconciler, without an error.
  abbrev pub or_empty : Exec W A → (A → Exec W (Option B)) → Exec W (Option B)
  or_empty new rest = attempt new >>= λ r. elim r [ ok a ↦ rest a | err _ ↦ pure none ]

module _ {W Image Build Monitor Jaeger Teiid : Type 0} (new_image : Exec W Image)
    (new_build : Exec W Build) (new_monitor : Exec W Monitor) (new_jaeger : Exec W Jaeger)
    (from_manager : Exec W Teiid) (console_yaml_sample_exists : Exec W (Unit {0}))
    (create_samples : Teiid → Exec W (List (Str × Str))) where
  unfoldable pub create_samples_if : Teiid → Result (Unit {0}) → Exec W (Unit {0})
  create_samples_if client (ok _) = do create_samples client; pure tt
  create_samples_if client (err _) = pure tt

  unfoldable pub new_reconciler : Exec W (Option (Clients Image Build Monitor Jaeger Teiid))
  unfolding create_samples_if
  new_reconciler = or_empty new_image (λ image_client. or_empty new_build (λ build_client.
      or_empty new_monitor (λ monitor_client. or_empty new_jaeger (λ jaeger_client.
        or_empty from_manager (λ client. do
          r ← attempt console_yaml_sample_exists
          create_samples_if client r
          pure (
              some (record {
                image_client = image_client;
                build_client = build_client;
                prometheus_client = monitor_client;
                jaeger_client = jaeger_client;
                client = client;
              })))))))
