-- ===== src/Actions/Breakpoint.antt =====
-- What the keyboard's breakpoint toggle does to the breakpoints and sends to the backend.
use workflowui.Base.{
  ◌≡◌, refl, ap, sym, ◌∙◌, Bool-cases, inl, inr, String, some, is_some, if◌then◌else◌, if_cases,
}
use workflowui.Store.{WorkflowState}
use workflowui.Debug.{find_breakpoint}
use workflowui.Debug.Breakpoints.{find-apply, Command, add, remove, apply, meaning}
use workflowui.Runner.{truthy}
use workflowui.Ws.{call, default_call_timeout_ms}
use workflowui.Actions.{
  Session, Wire, disarm, arm, sync_breakpoint, toggle_breakpoint_at, toggle_breakpoint_on_selected,
}

module _ {N V : Type 0} where
  -- the breakpoint found for `j`, and the client after a call that is made during a run only
  pub record Toggled (wire : Wire V) (c : Command) (method id : String) (s t : Session N V)
      : Type 0 where
    pub breakpoints :
        (j : String)
        → find_breakpoint j t.runner.debug.breakpoints
          ≡ meaning c j (find_breakpoint j s.runner.debug.breakpoints)
    pub told : t.client ≡ (
        if s.runner.workflow.is_running
        then call method (some (wire.of_node_id id)) default_call_timeout_ms s.client
        else s.client)
    pub workflow : t.runner.workflow ≡ s.runner.workflow

  sync_breakpoint_lem :
      (wire : Wire V) (c : Command) (method id : String) (s t : Session N V)
      → t.client ≡ s.client
      → t.runner.workflow ≡ s.runner.workflow
      → t.runner.debug ≡ apply c s.runner.debug
      → Toggled wire c method id s (sync_breakpoint wire method id t)
  unfolding sync_breakpoint
  sync_breakpoint_lem wire c method id s t client flow debug =
      let known : (j : String) → _ = λ j. rw debug (find-apply c j s.runner.debug) in
      let flag = ap WorkflowState.is_running flow in
      if_cases (Toggled wire c method id s) t.runner.workflow.is_running _ _
        (λ busy. record {
          breakpoints = known;
          told = rw (sym flag ∙ busy, client) refl;
          workflow = flow;
        })
        (λ idle. record {
          breakpoints = known;
          told = rw (sym flag ∙ idle) client;
          workflow = flow;
        })

  pub disarm_lem :
      (wire : Wire V) (id : String) (s : Session N V)
      → Toggled wire (remove id) "debug.remove_breakpoint" id s (disarm wire id s)
  unfolding disarm apply
  disarm_lem wire id s =
      sync_breakpoint_lem wire (remove id) "debug.remove_breakpoint" id s _ refl refl refl

  pub arm_lem :
      (wire : Wire V) (id : String) (s : Session N V)
      → Toggled wire (add id) "debug.add_breakpoint" id s (arm wire id s)
  unfolding arm apply
  arm_lem wire id s = sync_breakpoint_lem wire (add id) "debug.add_breakpoint" id s _ refl refl refl

  -- With a node selected, the shortcut removes the node's breakpoint where it has one, enabled or
  -- not, and else adds an enabled one; no other node's breakpoint changes, and the backend is called
  -- with the node's id exactly if a run is going on.
  pub toggle_breakpoint_on_selected_lem :
      (wire : Wire V) (s : Session N V) (id : String)
      → truthy s.runner.workflow.selected_node_id ≡ some id
      → let t = toggle_breakpoint_on_selected wire s in
        if is_some (find_breakpoint id s.runner.debug.breakpoints)
        then Toggled wire (remove id) "debug.remove_breakpoint" id s t
        else Toggled wire (add id) "debug.add_breakpoint" id s t
  unfolding toggle_breakpoint_on_selected toggle_breakpoint_at
  toggle_breakpoint_on_selected_lem wire s id h =
      let b = is_some (find_breakpoint id s.runner.debug.breakpoints) in
      elim (Bool-cases b) [
        | inl here ↦ rw (here, toggle_breakpoint_on_selected, h, here) (disarm_lem wire id s)
        | inr absent ↦ rw (absent, toggle_breakpoint_on_selected, h, absent) (arm_lem wire id s)
      ]
