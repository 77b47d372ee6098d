-- ===== src/Controller/Kubernetes/Resource/Once.antt =====
-- CreateIfNotExists of pkg/util/kubernetes/resource.go, called again.
use teiid_operator.Prelude.{◌≡◌, refl, ap, Bool, true, false, arith}
use teiid_operator.Text.{Str}
use teiid_operator.Result.{Result, ok, err, not_found, conflict, panic, failed, is_ok}
use teiid_operator.Exec.{continue, pure}
use teiid_operator.Controller.Kubernetes.Resource.{
  Client, found, fetch_with_key, fetch, create, create_unless, create_if_not_exists,
}

module _ {W Object Items : Type 0} (client : Client W Object Items) where
  -- What the API server documents: a read changes nothing that the next read of the object sees, and an
  -- object that was created is there.
  pub record IsStore : Type 0 where
    pub get-get :
        (namespace name : Str) (w : W)
        → (client.get namespace name (client.get namespace name w).1).0
          ≡ (client.get namespace name w).0
    pub get-create :
        (o : Object) (w : W)
        → is_ok (client.create o w).0 ≡ true
        → is_ok (client.get (client.get_namespace o) (client.get_name o) (client.create o w).1).0
          ≡ true

  module _ (store : IsStore) (o : Object) where
    -- The read of the object.
    abbrev pub looked_up : W → Result Object × W
    looked_up w = client.get (client.get_namespace o) (client.get_name o) w

    -- What follows a read of the object.
    abbrev after_read : Result Object → W → Result Bool × W
    after_read r w = let (x, w') = found client r w in continue x (create_unless client o) w'

    found_there : (r : Result Object) (w : W) → is_ok r ≡ true → after_read r w ≡ (ok false, w)
    unfolding found create_unless
    found_there (ok x) w h = refl
    found_there (err e) w h = ground (arith, h)

    there :
        (w : W)
        → is_ok (looked_up w).0 ≡ true
        → create_if_not_exists client o w ≡ (ok false, (looked_up w).1)
    unfolding create_if_not_exists fetch fetch_with_key
    there w h = found_there _ _ h

    after_create :
        (r : Result (Unit {0})) (w : W) (b : Bool)
        → (is_ok r ≡ true → is_ok (looked_up w).0 ≡ true)
        → let end : Result Bool × W = continue r (λ _. pure true) w in
          end.0 ≡ ok b → create_if_not_exists client o end.1 ≡ (ok false, (looked_up end.1).1)
    after_create (ok u) w b k h = there w (k refl)
    after_create (err e) w b k h = ground (arith, h)

    after_read-again :
        (r : Result Object) (w : W) (b : Bool)
        → (looked_up w).0 ≡ r
        → (after_read r w).0 ≡ ok b
        → create_if_not_exists client o (after_read r w).1
          ≡ (ok false, (looked_up (after_read r w).1).1)
    unfolding found create_unless create
    after_read-again (ok x) w b e h = there w (ap is_ok e)
    after_read-again (err not_found) w b e h =
        after_create (client.create o w).0 (client.create o w).1 b (store.get-create o w) h
    after_read-again (err conflict) w b e h = ground (arith, h)
    after_read-again (err panic) w b e h = ground (arith, h)
    after_read-again (err (failed t)) w b e h = ground (arith, h)

    -- Of an API server that stores what it is given: after a call of CreateIfNotExists that has returned
    -- without an error, a second call with the same object is one read of the object and no other call of
    -- the client, which leaves the state that the read leaves, and it returns `false`.
    pub create_if_not_exists-again :
        (w : W) (b : Bool)
        → (create_if_not_exists client o w).0 ≡ ok b
        → let w' : W = (create_if_not_exists client o w).1 in
          create_if_not_exists client o w' ≡ (ok false, (looked_up w').1)
    unfolding create_if_not_exists fetch fetch_with_key
    create_if_not_exists-again w b h =
        after_read-again _ _ b (store.get-get (client.get_namespace o) (client.get_name o) w) h
