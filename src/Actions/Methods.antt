-- ===== src/Actions/Methods.antt =====
-- The actions of `useWorkflowActions`. The reply to 'workflow.execute' comes later, so `run` ends at
-- the call and `run_replied` and `run_failed` are what follows it.
use workflowui.Base.{
  ◌+◌, String, Bool, true, false, not, ◌&&◌, ◌||◌, Option, none, some, List, [], ◌∷◌, ◌++◌, map,
  filter, any, eqb, length, is_some, ◌==◌, if◌then◌else◌,
}
use workflowui.Store.{
  Node, Edge, WorkflowState, set_running, duplicate_node, remove_node, set_selected_node, set_nodes,
  export_workflow,
}
use workflowui.Debug.{
  Breakpoint, DebugState, clear_logs, set_paused_at, find_breakpoint, add_breakpoint,
  remove_breakpoint,
}
use workflowui.Toast.{ToastLevel, add_toast}
use workflowui.Runner.{◌<>◌, truthy, set_active_run_id}
use workflowui.Ws.{Client, call, notify, is_connected, default_call_timeout_ms}
use workflowui.Actions.Types.{Session, RunRequest, Wire, is_truthy}

-- `connected.has(id)`
abbrev pub is_linked : {V : Type 0} → List (Edge V) → String → Bool
is_linked edges id = any (λ e. e.source == id || e.target == id) edges

module _ {N V : Type 0} where
  abbrev pub on_flow : (WorkflowState N V → WorkflowState N V) → Session N V → Session N V
  on_flow f s = record s { runner = record s.runner { workflow = f s.runner.workflow } }

  abbrev pub on_debug : (DebugState V → DebugState V) → Session N V → Session N V
  on_debug f s = record s { runner = record s.runner { debug = f s.runner.debug } }

  abbrev pub on_client : (Client V → Client V) → Session N V → Session N V
  on_client f s = record s { client = f s.client }

  unfoldable pub show_toast : String → ToastLevel → Session N V → Session N V
  show_toast message level s = record s {
    runner = record s.runner { toasts = add_toast message level s.runner.toasts };
  }

  unfoldable pub active_nodes : WorkflowState N V → List (Node N V)
  active_nodes s =
      if eqb (length s.nodes) 1 then s.nodes else filter (λ n. is_linked s.edges n.id) s.nodes

  -- `activeIds.has(id)`
  abbrev pub is_active : List (Node N V) → String → Bool
  is_active active id = any (λ n. n.id == id) active

  unfoldable pub breakpoint_ids : List (Node N V) → List Breakpoint → List String
  breakpoint_ids active bs =
      map Breakpoint.node_id (filter (λ b. b.enabled && is_active active b.node_id) bs)

  unfoldable pub run_request : List (Node N V) → WorkflowState N V → DebugState V → RunRequest V
  unfolding breakpoint_ids
  run_request active s d = record {
    nodes = map (λ n. record { id = n.id; type = n.type; config = n.body.config }) active;
    edges =
        map
          (λ e. record {
            source = e.source;
            source_handle = e.source_handle;
            target = e.target;
            target_handle = e.target_handle;
          })
          s.edges;
    breakpoints = breakpoint_ids active d.breakpoints;
  }

  -- `run` from the choice of its nodes on
  unfoldable pub launch : Wire V → List (Node N V) → Session N V → Session N V
  unfolding show_toast run_request
  launch wire [] s =
      on_flow (set_running false) (show_toast "No connected nodes to execute" ToastLevel.warn s)
  launch wire (n ∷ ns) s =
      let request = run_request (n ∷ ns) s.runner.workflow s.runner.debug in
      on_client (call "workflow.execute" (some (wire.of_request request)) default_call_timeout_ms) s

  unfoldable pub run : Wire V → Session N V → Session N V
  unfolding show_toast active_nodes launch
  run wire s =
      if s.runner.workflow.is_running
      then s
      else if not (is_connected s.client)
      then show_toast "Backend not connected" ToastLevel.error s
      else if eqb (length s.runner.workflow.nodes) 0
      then show_toast "Add some nodes first" ToastLevel.warn s
      else launch wire (active_nodes s.runner.workflow)
          (on_debug clear_logs (on_flow (set_running true) s))

  -- `reply?.run_id ?? null`
  unfoldable pub run_replied : Wire V → Option V → Session N V → Session N V
  run_replied wire reply s = record s {
    runner = set_active_run_id (elim reply [ none ↦ none | some v ↦ wire.run_id v ]) s.runner;
  }

  -- the `catch` of `run`
  unfoldable pub run_failed : String → Session N V → Session N V
  unfolding show_toast
  run_failed message s =
      on_flow (set_running false) (show_toast ("Execution error: " <> message) ToastLevel.error s)

  unfoldable pub stop : Session N V → Session N V
  stop s =
      if not s.runner.workflow.is_running
      then s
      else on_flow (set_running false) (on_client (notify "workflow.stop" none) s)

  -- `continueExec` and `stepOver`, which differ in the method
  unfoldable pub leave_pause : String → Session N V → Session N V
  leave_pause method s =
      if not (is_truthy s.runner.debug.paused_at_node_id)
      then s
      else on_debug (set_paused_at none) (on_client (notify method none) s)

  unfoldable pub continue_exec : Session N V → Session N V
  unfolding leave_pause
  continue_exec s = leave_pause "debug.continue" s

  unfoldable pub step_over : Session N V → Session N V
  unfolding leave_pause
  step_over s = leave_pause "debug.step_over" s

  unfoldable pub run_or_resume : Wire V → Session N V → Session N V
  unfolding run continue_exec
  run_or_resume wire s =
      if is_truthy s.runner.debug.paused_at_node_id then continue_exec s else run wire s

  unfoldable pub save : Session N V → Session N V
  unfolding show_toast
  save s =
      show_toast "Workflow saved" ToastLevel.success
        (record s { downloads = s.downloads ++ export_workflow s.runner.workflow ∷ [] })

  unfoldable pub load : Session N V → Session N V
  load s = record s { picker_clicks = s.picker_clicks + 1 }

  unfoldable pub duplicate_selected : (N → N) → Session N V → Session N V
  duplicate_selected add_40 s = elim (truthy s.runner.workflow.selected_node_id) [
    | none ↦ s
    | some id ↦ on_flow (λ w. (duplicate_node add_40 id w).0) s
  ]

  unfoldable pub delete_selected : Session N V → Session N V
  delete_selected s = elim (truthy s.runner.workflow.selected_node_id) [
    | none ↦ s
    | some id ↦ on_flow (remove_node id) s
  ]

  unfoldable pub deselect : Session N V → Session N V
  deselect s = on_flow (set_selected_node none) s

  unfoldable pub select_all : Session N V → Session N V
  select_all s =
      let ns = s.runner.workflow.nodes in
      let chosen = map {A = Node N V} {B = Node N V} (λ n. record n { selected = some true }) ns in
      if eqb (length ns) 0 then s else on_flow (set_nodes chosen) s

  -- the call that keeps the backend in step while a run is going on
  unfoldable pub sync_breakpoint : Wire V → String → String → Session N V → Session N V
  sync_breakpoint wire method id s =
      if s.runner.workflow.is_running
      then on_client (call method (some (wire.of_node_id id)) default_call_timeout_ms) s
      else s

  unfoldable pub disarm : Wire V → String → Session N V → Session N V
  unfolding sync_breakpoint
  disarm wire id s =
      sync_breakpoint wire "debug.remove_breakpoint" id (on_debug (remove_breakpoint id) s)

  unfoldable pub arm : Wire V → String → Session N V → Session N V
  unfolding sync_breakpoint
  arm wire id s = sync_breakpoint wire "debug.add_breakpoint" id (on_debug (add_breakpoint id) s)

  unfoldable pub toggle_breakpoint_at : Wire V → String → Session N V → Session N V
  unfolding arm disarm
  toggle_breakpoint_at wire id s =
      if is_some (find_breakpoint id s.runner.debug.breakpoints)
      then disarm wire id s
      else arm wire id s

  unfoldable pub toggle_breakpoint_on_selected : Wire V → Session N V → Session N V
  unfolding toggle_breakpoint_at
  toggle_breakpoint_on_selected wire s = elim (truthy s.runner.workflow.selected_node_id) [
    | none ↦ s
    | some id ↦ toggle_breakpoint_at wire id s
  ]
