-- ===== src/Controller/Steps/Ahead.antt =====
-- The run of an action that moves the phase.
use teiid_operator.Prelude.{◌≡◌, ◌≢◌, sym, ap, ◌∙◌, ◌++◌, List, ◌∷◌, true}
use teiid_operator.Vdb.{VirtualDatabase, Phase}
use teiid_operator.Controller.Cluster.{Cluster, Context}
use teiid_operator.Controller.Actions.{Action}
use teiid_operator.Controller.Deep.{has_changes, has_changes-status}
use teiid_operator.Result.{Result, ok, is_ok}
use teiid_operator.Controller.Reconcile.{Requeue, done, run_actions}
use teiid_operator.Controller.Reconcile.Accepted.{Accepts, run_actions-done}
use teiid_operator.Controller.Reconcile.Laws.{NoneHandles}
use teiid_operator.Controller.Reconcile.Changed.{run_actions-changed}

module _ {W : Type 0} (cluster : Cluster W) where
  moved_changes : (u v : VirtualDatabase) → u.status.phase ≢ v.status.phase → has_changes u v ≡ true
  moved_changes u v n = has_changes-status u v (λ e. n (ap (λ s. s.phase) e))

  -- An action that changes the phase decides about the phase after the run.
  pub run_phase :
      (s : Context W) (before after : List (Action W)) (a : Action W) (p q : Phase)
      → NoneHandles cluster s.vdb before
      → a.can_handle s.vdb ≡ true
      → s.vdb.status.phase ≡ p
      → (a.handle s).1.vdb.status.phase ≡ q
      → p ≢ q
      → (run_actions cluster s.vdb (before ++ a ∷ after) s).1.vdb.status.phase ≡ q
  run_phase s before after a p q n t e f d =
      let c = moved_changes s.vdb (a.handle s).1.vdb (λ g. d (sym e ∙ g ∙ f)) in
      ap (λ v. v.status.phase) (run_actions-changed cluster s before after a n t c) ∙ f

  -- Where no update is refused and the action returns no error, the run is over after it.
  pub run_goes :
      (accepts : Accepts cluster) (s : Context W) (before after : List (Action W)) (a : Action W)
      (p q : Phase)
      → NoneHandles cluster s.vdb before
      → a.can_handle s.vdb ≡ true
      → s.vdb.status.phase ≡ p
      → (is_ok (a.handle s).0 ≡ true) × ((a.handle s).1.vdb.status.phase ≡ q)
      → p ≢ q
      → let end : Result Requeue × Context W = run_actions cluster s.vdb (before ++ a ∷ after) s in
        (end.0 ≡ ok done) × (end.1.vdb.status.phase ≡ q)
  run_goes accepts s before after a p q n t e (k, f) d =
      let c = moved_changes s.vdb (a.handle s).1.vdb (λ g. d (sym e ∙ g ∙ f)) in
      (
        run_actions-done cluster accepts s before after a n t c k,
        run_phase s before after a p q n t e f d,
      )
