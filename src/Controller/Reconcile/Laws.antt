-- ===== src/Controller/Reconcile/Laws.antt =====
-- What a reconciliation does, whatever the actions are.
use teiid_operator.Prelude.{◌∙◌, ◌≡◌, ◌≢◌, refl, Bool, true, false, List, [], ◌∷◌}
use teiid_operator.Result.{Result, ok, err, panic, not_found, conflict, failed}
use teiid_operator.Exec.{Exec, caught, continue}
use teiid_operator.Vdb.{VirtualDatabase}
use teiid_operator.Controller.Cluster.{Cluster, Context}
use teiid_operator.Controller.Actions.{Action}
use teiid_operator.Controller.Deep.{has_changes, has_changes_refl}
use teiid_operator.Controller.Reconcile.{Requeue, requeue_after, store_changes, invoke, run_actions}

module _ {W : Type 0} (cluster : Cluster W) where
  -- An action that takes the resource leaves it as it is, keeps a property of the cluster, and does not
  -- panic.
  abbrev pub IsQuiet : VirtualDatabase → (W → Type 0) → Action W → Type 0
  IsQuiet vdb P a =
      (w : W)
      → P w
      → a.can_handle vdb ≡ true
      → let end : Result (Unit {0}) × Context W = a.handle (record { vdb = vdb; world = w }) in
        (end.1.vdb ≡ vdb) × P end.1.world × (end.0 ≢ err panic)

  -- Every action of a list is quiet.
  abbrev pub AllQuiet : VirtualDatabase → (W → Type 0) → List (Action W) → Type 0
  AllQuiet vdb P [] = Unit
  AllQuiet vdb P (a ∷ later) = IsQuiet vdb P a × AllQuiet vdb P later

  -- No change.
  abbrev pub Steady : VirtualDatabase → (W → Type 0) → Result Requeue × Context W → Type 0
  Steady vdb P end = (end.0 ≡ ok (requeue_after 5)) × (end.1.vdb ≡ vdb) × P end.1.world

  store_changes-Steady :
      (vdb : VirtualDatabase) (P : W → Type 0) (r : Result (Unit {0}))
      (rest : Exec (Context W) Requeue) (v : VirtualDatabase) (w : W)
      → v ≡ vdb
      → P w
      → ((w' : W) → P w' → Steady vdb P (rest (record { vdb = vdb; world = w' })))
      → Steady vdb P
          (store_changes cluster (has_changes vdb v) r rest (record { vdb = v; world = w }))
  unfolding store_changes
  store_changes-Steady vdb P r rest v w e p k = rw (e, has_changes_refl vdb) (k w p)

  caught-Steady :
      (vdb : VirtualDatabase) (P : W → Type 0) (r : Result (Unit {0}))
      (k : Result (Unit {0}) → Exec (Context W) Requeue) (s : Context W)
      → r ≢ err panic
      → Steady vdb P (k r s)
      → let end : Result (Result (Unit {0})) × Context W = caught r s in
        Steady vdb P (continue end.0 k end.1)
  caught-Steady vdb P (ok u) k s n h = h
  caught-Steady vdb P (err not_found) k s n h = h
  caught-Steady vdb P (err conflict) k s n h = h
  caught-Steady vdb P (err panic) k s n h = absurd (n refl)
  caught-Steady vdb P (err (failed t)) k s n h = h

  invoke-Steady :
      (vdb : VirtualDatabase) (P : W → Type 0) (b : Bool) (a : Action W)
      (rest : Exec (Context W) Requeue) (w : W)
      → (b ≡ true
          → let end : Result (Unit {0}) × Context W = a.handle (record { vdb = vdb; world = w }) in
            (end.1.vdb ≡ vdb) × P end.1.world × (end.0 ≢ err panic))
      → P w
      → ((w' : W) → P w' → Steady vdb P (rest (record { vdb = vdb; world = w' })))
      → Steady vdb P (invoke cluster b vdb a rest (record { vdb = vdb; world = w }))
  unfolding invoke
  invoke-Steady vdb P false a rest w q p k = k w p
  invoke-Steady vdb P true a rest w q p k =
      let end : Result (Unit {0}) × Context W = a.handle (record { vdb = vdb; world = w }) in
      caught-Steady vdb P end.0 _ end.1 (q refl).2
        (store_changes-Steady vdb P end.0 rest end.1.vdb end.1.world (q refl).0 (q refl).1 k)

  -- Where every action that takes the resource leaves it as it is, does not panic and keeps a property of
  -- the cluster, the loop returns a request to come back in five seconds without an error, the resource
  -- unchanged and the property kept.
  pub run_actions-Steady :
      (vdb : VirtualDatabase) (P : W → Type 0) (actions : List (Action W))
      → AllQuiet vdb P actions
      → (w : W) → P w
      → Steady vdb P (run_actions cluster vdb actions (record { vdb = vdb; world = w }))
  unfolding run_actions
  run_actions-Steady vdb P [] q w p = (refl, refl, p)
  run_actions-Steady vdb P (a ∷ later) q w p =
      invoke-Steady vdb P (a.can_handle vdb) a (run_actions cluster vdb later) w (q.0 w p) p
        (run_actions-Steady vdb P later q.1)

  refused :
      (instance : VirtualDatabase) (a : Action W) (rest : Exec (Context W) Requeue) (s : Context W)
      → invoke cluster false instance a rest s ≡ rest s
  unfolding invoke
  refused instance a rest s = refl

  -- No action takes the resource.
  abbrev pub NoneHandles : VirtualDatabase → List (Action W) → Type 0
  NoneHandles vdb [] = Unit
  NoneHandles vdb (a ∷ actions) = (a.can_handle vdb ≡ false) × NoneHandles vdb actions

  -- A resource that no action takes is left alone.
  pub run_actions-NoneHandles :
      (actions : List (Action W)) (s : Context W)
      → NoneHandles s.vdb actions
      → run_actions cluster s.vdb actions s ≡ (ok (requeue_after 5), s)
  unfolding run_actions
  run_actions-NoneHandles [] s n = refl
  run_actions-NoneHandles (a ∷ later) s n =
      rw n.0
        (refused s.vdb a (run_actions cluster s.vdb later) s ∙ run_actions-NoneHandles later s n.1)
