-- ===== src/Controller/Reconcile.antt =====
-- Reconcile, pkg/controller/virtualdatabase/virtualdatabase_controller.go. The list of the actions is a
-- parameter: the loop is the same for any.
pub mod Laws
pub mod Changed
pub mod Stored
pub mod Accepted
use teiid_operator.Prelude.{ℕ, Bool, true, false, List, [], ◌∷◌, if◌then◌else◌}
use teiid_operator.Text.{Str}
use teiid_operator.Result.{Err, Result, ok, err, not_found}
use teiid_operator.Exec.{Exec, pure, raise, lift, gets, attempt, guarded, ◌>>=◌, ◌>>◌}
use teiid_operator.Vdb.{VirtualDatabase}
use teiid_operator.Controller.Cluster.{Cluster, Context, call}
use teiid_operator.Controller.Updater.{is_vdb_updated, redeploy_vdb}
use teiid_operator.Controller.Actions.{Action, edit}
use teiid_operator.Controller.ConsoleLinks.{remove_console_link}
use teiid_operator.Controller.Deep.{has_changes}

-- reconcile.Result: none, or the seconds after which the request comes back
pub data Requeue : Type 0 where
  done : Requeue
  requeue_after : ℕ → Requeue

unfoldable pub finish : Result (Unit {0}) → Result Requeue
finish (ok _) = ok done
finish (err e) = err e

module _ {W : Type 0} (cluster : Cluster W) where
  open cluster use {get_vdb, update_vdb, console_link_exists}

  -- After an action: where the resource changed it is stored, and the action's error comes back;
  -- otherwise the error is dropped and the loop goes on.
  unfoldable pub store_changes :
      Bool → Result (Unit {0}) → Exec (Context W) Requeue → Exec (Context W) Requeue
  unfolding finish
  store_changes true r rest = do
    target ← gets (λ s. s.vdb)
    call (update_vdb target)
    lift (finish r)
  store_changes false r rest = rest

  unfoldable pub invoke :
      Bool → VirtualDatabase → Action W → Exec (Context W) Requeue → Exec (Context W) Requeue
  unfolding store_changes
  invoke true instance a rest = do
    r ← guarded a.handle
    target ← gets (λ s. s.vdb)
    store_changes (has_changes instance target) r rest
  invoke false instance a rest = rest

  unfoldable pub run_actions : VirtualDatabase → List (Action W) → Exec (Context W) Requeue
  unfolding invoke
  run_actions instance [] = pure (requeue_after 5)
  run_actions instance (a ∷ later) = do
    target ← gets (λ s. s.vdb)
    invoke (a.can_handle target) instance a (run_actions instance later)

  unfoldable pub process : Bool → VirtualDatabase → List (Action W) → Exec (Context W) Requeue
  unfolding run_actions
  process true instance actions = do
    edit (redeploy_vdb cluster)
    target ← gets (λ s. s.vdb)
    call (update_vdb target)
    pure done
  process false instance actions = run_actions instance actions

  unfoldable pub reconcile_instance : VirtualDatabase → List (Action W) → Exec (Context W) Requeue
  unfolding process
  reconcile_instance instance actions = process (is_vdb_updated cluster instance) instance actions

  -- The actions work on a copy of the resource that was read.
  unfoldable pub start : VirtualDatabase → List (Action W) → Exec W Requeue
  unfolding reconcile_instance
  start instance actions w =
      let (r, s) = reconcile_instance instance actions (record { vdb = instance; world = w }) in
      (r, s.world)

  -- A resource that is gone loses its link, where the cluster has links.
  unfoldable pub clean_up : Str → Str → Result (Unit {0}) → Exec W Requeue
  clean_up namespace name (ok _) = do remove_console_link cluster namespace name; pure done
  clean_up namespace name (err _) = pure done

  unfoldable pub when_fetched :
      Str → Str → List (Action W) → Result VirtualDatabase → Exec W Requeue
  unfolding start clean_up
  when_fetched namespace name actions (ok instance) = start instance actions
  when_fetched namespace name actions (err not_found) =
      attempt console_link_exists >>= clean_up namespace name
  when_fetched namespace name actions (err e) = raise e

  unfoldable pub reconcile : List (Action W) → Str → Str → Exec W Requeue
  unfolding when_fetched
  reconcile actions namespace name = do
    r ← attempt (get_vdb namespace name)
    when_fetched namespace name actions r
