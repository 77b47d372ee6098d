-- ===== src/Controller/Kubernetes/Resource.antt =====
-- ResourceInterface, pkg/util/kubernetes/resource.go, over any client and any kind of object.
pub mod Once
use teiid_operator.Prelude.{Bool, true, false, Option, none, some, List, []}
use teiid_operator.Text.{Str}
use teiid_operator.Result.{Result, ok, err, not_found}
use teiid_operator.Exec.{Exec, pure, raise, attempt, ◌>>=◌, ◌>>◌}

-- The client of the API server, for objects with a name and a namespace, and lists of them.
pub record Client (W Object Items : Type 0) : Type 0 where
  pub get_name : Object → Str
  pub get_namespace : Object → Str
  pub get : Str → Str → Exec W Object
  pub create : Object → Exec W (Unit {0})
  pub update : Object → Exec W (Unit {0})
  pub update_status : Object → Exec W (Unit {0})
  pub delete : Object → Exec W (Unit {0})
  pub list : Str → List (Str × Str) → Exec W Items

module _ {W Object Items : Type 0} (client : Client W Object Items) where
  -- The object that was bound, or none where there is none.
  unfoldable pub found : Result Object → Exec W (Option Object)
  found (ok object) = pure (some object)
  found (err not_found) = pure none
  found (err e) = raise e

  unfoldable pub fetch_with_key : Str → Str → Exec W (Option Object)
  unfolding found
  fetch_with_key namespace name = attempt (client.get namespace name) >>= found

  unfoldable pub fetch : Object → Exec W (Option Object)
  unfolding fetch_with_key
  fetch resource = fetch_with_key (client.get_namespace resource) (client.get_name resource)

  unfoldable pub create : Object → Exec W (Unit {0})
  create resource = client.create resource

  -- The Boolean says that the object was created.
  unfoldable pub create_unless : Object → Option Object → Exec W Bool
  unfolding create
  create_unless resource none = do create resource; pure true
  create_unless resource (some _) = pure false

  unfoldable pub create_if_not_exists : Object → Exec W Bool
  unfolding fetch create_unless
  create_if_not_exists resource = fetch resource >>= create_unless resource

  unfoldable pub list_with_namespace : Str → Exec W Items
  list_with_namespace namespace = client.list namespace []

  unfoldable pub list_with_namespace_and_label : Str → List (Str × Str) → Exec W Items
  list_with_namespace_and_label namespace labels = client.list namespace labels

  unfoldable pub delete : Object → Exec W (Unit {0})
  delete resource = client.delete resource

  unfoldable pub update : Object → Exec W (Unit {0})
  update resource = client.update resource

  unfoldable pub update_status : Object → Exec W (Unit {0})
  update_status resource = client.update_status resource
