-- ===== src/Actions/Pause.antt =====
-- Stopping and resuming a run that is paused.
use workflowui.Base.{◌≡◌, refl, ap, String, true, false, [], ◌∷◌, ◌++◌, none, if_both, if_true}
use workflowui.Store.{WorkflowState, set_running}
use workflowui.Debug.{set_paused_at}
use workflowui.Ws.{Client, notify, is_ready, notification}
use workflowui.Actions.{
  Session, Wire, is_truthy, leave_pause, continue_exec, run_or_resume, stop, on_client, on_flow,
}

module _ {V : Type 0} (method : String) (c : Client V) (h : is_ready c ≡ true) where
  notify_ready : (notify method none c).outputs ≡ c.outputs ++ notification method none ∷ []
  unfolding notify
  notify_ready = rw h refl

  notify-is_ready : is_ready (notify method none c) ≡ true
  unfolding notify
  notify-is_ready = if_both (λ (x : Client V). is_ready x ≡ true) (is_ready c) _ _ h h

module _ {N V : Type 0} where
  stop_running :
      (s : Session N V)
      → s.runner.workflow.is_running ≡ true
      → stop s ≡ on_flow (set_running false) (on_client (notify "workflow.stop" none) s)
  unfolding stop
  stop_running s h = rw h refl

  resume_paused :
      (wire : Wire V) (s : Session N V)
      → is_truthy s.runner.debug.paused_at_node_id ≡ true
      → run_or_resume wire s ≡ leave_pause "debug.continue" s
  unfolding run_or_resume continue_exec
  resume_paused wire s h = if_true (is_truthy s.runner.debug.paused_at_node_id) _ _ h

  leave_paused :
      (method : String) (s : Session N V)
      → is_truthy s.runner.debug.paused_at_node_id ≡ true
      → let t = leave_pause method s in
        (t.client ≡ notify method none s.client)
        × (t.runner.workflow ≡ s.runner.workflow)
        × (t.runner.debug ≡ set_paused_at none s.runner.debug)
  unfolding leave_pause
  leave_paused method s h = rw h (refl, refl, refl)

  -- Stopping a run that is paused leaves the pause in place, so that the next press of Run resumes
  -- instead: with an open socket the backend is sent 'workflow.stop' and 'debug.continue' and no
  -- request, and nothing runs afterwards.
  pub run_or_resume_stopped :
      (wire : Wire V) (s : Session N V)
      → s.runner.workflow.is_running ≡ true
      → is_truthy s.runner.debug.paused_at_node_id ≡ true
      → is_ready s.client ≡ true
      → let t = run_or_resume wire (stop s) in
        (t.client.outputs
          ≡ (s.client.outputs ++ notification "workflow.stop" none ∷ [])
            ++ notification "debug.continue" none ∷ [])
        × (t.runner.workflow.is_running ≡ false)
        × (t.runner.debug.paused_at_node_id ≡ none)
  unfolding set_running set_paused_at
  run_or_resume_stopped wire s busy paused ready =
      let u = on_flow (set_running false) (on_client (notify "workflow.stop" none) s) in
      let (client, flow, debug) = leave_paused "debug.continue" u paused in
      rw (stop_running s busy, resume_paused wire u paused)
        (
          rw client (
              rw
                (notify_ready "debug.continue" (notify "workflow.stop" none s.client)
                  (notify-is_ready "workflow.stop" s.client ready))
                (rw (notify_ready "workflow.stop" s.client ready) refl)),
          ap WorkflowState.is_running flow,
          rw debug refl,
        )
