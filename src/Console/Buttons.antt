-- ===== src/Console/Buttons.antt =====
-- A disabled button of the console hides nothing: its action does nothing by itself.
use workflowui.Base.{
  ◌≡◌, refl, sym, ◌∙◌, String, true, false, not, arith, if_true, if_false, if_cases,
}
use workflowui.Actions.{
  Session, Wire, is_truthy, run, run_or_resume, leave_pause, continue_exec, step_over, stop,
}
use workflowui.Console.{
  ButtonName, run_button, continue_button, step_button, stop_button, save_button, load_button,
  button, action, click,
}

module _ {N V : Type 0} where
  leave_unpaused :
      (method : String) (s : Session N V)
      → not (is_truthy s.runner.debug.paused_at_node_id) ≡ true
      → leave_pause method s ≡ s
  unfolding leave_pause
  leave_unpaused method s h = if_true (not (is_truthy s.runner.debug.paused_at_node_id)) _ _ h

  run_running :
      (wire : Wire V) (s : Session N V) → s.runner.workflow.is_running ≡ true → run wire s ≡ s
  unfolding run
  run_running wire s h = if_true s.runner.workflow.is_running _ _ h

  disabled_idle :
      (wire : Wire V) (b : ButtonName) (s : Session N V)
      → (button b s).disabled ≡ true
      → action wire b s ≡ s
  unfolding button action run_or_resume continue_exec step_over stop
  disabled_idle wire run_button s h =
      let unpaused : is_truthy s.runner.debug.paused_at_node_id ≡ false = ground arith in
      if_false (is_truthy s.runner.debug.paused_at_node_id) _ _ unpaused
      ∙ run_running wire s (ground arith)
  disabled_idle wire continue_button s h = leave_unpaused "debug.continue" s h
  disabled_idle wire step_button s h = leave_unpaused "debug.step_over" s h
  disabled_idle wire stop_button s h = if_true (not s.runner.workflow.is_running) _ _ h
  disabled_idle wire save_button s h = cc
  disabled_idle wire load_button s h = cc

  -- A click does what the action of the button does, whether the button is disabled or not: the
  -- buttons are disabled only where the action, which the keyboard also reaches, changes nothing.
  pub click-action :
      (wire : Wire V) (b : ButtonName) (s : Session N V) → click wire b s ≡ action wire b s
  unfolding click
  click-action wire b s =
      if_cases (λ t. t ≡ action wire b s) (button b s).disabled _ _
        (λ h. sym (disabled_idle wire b s h)) (λ h. refl)
