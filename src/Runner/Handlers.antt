-- ===== src/Runner/Handlers.antt =====
-- What the runner does on a notification and after a reconnection.
use workflowui.Base.{
  ℕ, String, Bool, false, not, ◌&&◌, ◌||◌, Option, none, some, List, [], ◌∷◌, is_some, ◌==◌,
  if◌then◌else◌,
}
use workflowui.Store.{
  error, paused, Dict, DataPatch, Node, WorkflowState, update_node_status, update_node_data,
  set_running, get, or_else,
}
use workflowui.Debug.{Level, LogInput, add_log, set_paused_at, set_inspect_data}
use workflowui.Toast.{ToastLevel, add_toast}
use workflowui.Runner.Types.{
  ◌<>◌, truthy, or_text, ValidationError, NodeStatusUpdate, DebugPausedEvent, WorkflowStateSnapshot,
  Notification, Runner, coerce_status, is_fresh_event, error_text, skip_text, summary, present,
  node_status, debug_paused, workflow_complete, other_method,
}

module _ {N V : Type 0} where
  unfoldable pub build_log_message : NodeStatusUpdate N V → String
  unfolding error_text skip_text
  build_log_message u = elim (truthy u.error) [
    | some e ↦ error_text u.kind e
    | none ↦ if u.status == "skipped" then skip_text u.reason u.upstream else "Status: " <> u.status
  ]

  unfoldable pub set_active_run_id : Option String → Runner N V → Runner N V
  set_active_run_id id r = record r { current_run_id = id }

  unfoldable pub log : ℕ → LogInput V → Runner N V → Runner N V
  log now e r = record r { debug = add_log now e r.debug }

  unfoldable pub toast_error : String → Runner N V → Runner N V
  toast_error message r = record r { toasts = add_toast message ToastLevel.error r.toasts }

  abbrev pub on_workflow : (WorkflowState N V → WorkflowState N V) → Runner N V → Runner N V
  on_workflow f r = record r { workflow = f r.workflow }

  abbrev pub no_patch : DataPatch N V
  no_patch = record {
    label = none;
    type = none;
    status = none;
    config = none;
    elapsed_ms = none;
    output = none;
    runs_count = none;
    avg_ms = none;
    error = none;
    extra = [];
  }

  -- one round of the loop of `handleValidationFailed`; `known` is the index as the loop found it
  unfoldable pub report :
      (String → V) → ℕ → Dict (Node N V) → ValidationError → Runner N V → Runner N V
  unfolding log
  report of_text now known e r =
      let marked : Runner N V = elim (truthy e.node_id) [
        | none ↦ r
        | some id ↦
            if is_some (get id known)
            then on_workflow
                (λ s.
                  update_node_data id (record no_patch { error = some (some (of_text e.message)) })
                    (update_node_status id error s))
                r
            else r
      ] in
      let location : String = elim (truthy e.edge) [
        | some edge ↦ " (edge " <> edge <> ")"
        | none ↦ elim (truthy e.node_id) [ none ↦ "" | some id ↦ " (" <> id <> ")" ]
      ] in
      log now
        (record {
          node_id = or_text e.node_id "system";
          message = "[" <> e.kind <> "]" <> location <> " " <> e.message;
          level = Level.error;
          payload = none;
        })
        marked

  unfoldable pub report_all :
      (String → V) → ℕ → Dict (Node N V) → List ValidationError → Runner N V → Runner N V
  unfolding report
  report_all of_text now known [] r = r
  report_all of_text now known (e ∷ es) r =
      report_all of_text now known es (report of_text now known e r)

  unfoldable pub handle_validation_failed :
      (String → V) → (ℕ → String) → ℕ → List ValidationError → Runner N V → Runner N V
  unfolding toast_error
  handle_validation_failed of_text decimal now es r =
      toast_error (summary decimal es) (report_all of_text now r.workflow.nodes_by_id es r)

  -- the loop over `snap.statuses`; `known` is the index as the loop found it
  unfoldable pub take_statuses :
      Dict (Node N V) → Dict String → WorkflowState N V → WorkflowState N V
  take_statuses known [] s = s
  take_statuses known ((id, status) ∷ rest) s =
      take_statuses known rest
        (if is_some (get id known) then update_node_status id (coerce_status status) s else s)

  -- `reconcileFromSnapshot` after the call, which has failed if there is no snapshot
  unfoldable pub reconcile_from_snapshot : Option WorkflowStateSnapshot → Runner N V → Runner N V
  unfolding set_active_run_id
  reconcile_from_snapshot none r = r
  reconcile_from_snapshot (some snap) r =
      let r' = set_active_run_id (truthy snap.run_id) r in
      record r' {
        workflow = elim snap.statuses [
          | none ↦ r.workflow
          | some statuses ↦ take_statuses r.workflow.nodes_by_id statuses r.workflow
        ];
        debug = set_paused_at (truthy snap.paused_at) r.debug;
      }

  -- `dataUpdate`
  unfoldable pub data_update : (String → V) → NodeStatusUpdate N V → DataPatch N V
  unfolding error_text
  data_update of_text u = record no_patch {
    elapsed_ms = present u.elapsed_ms;
    output = present u.output;
    runs_count = present u.runs_count;
    avg_ms = present u.avg_ms;
    error = elim (truthy u.error) [
      | some e ↦ some (some (of_text (error_text u.kind e)))
      | none ↦ if u.status == "done" then some none else none
    ];
  }

  -- `Object.keys(dataUpdate).length > 0`
  abbrev pub is_patched : DataPatch N V → Bool
  is_patched p =
      is_some p.elapsed_ms
      || is_some p.output
      || is_some p.runs_count
      || is_some p.avg_ms
      || is_some p.error

  abbrev pub level_of : NodeStatusUpdate N V → Level
  level_of u = elim (truthy u.error) [
    | some e ↦ Level.error
    | none ↦ if u.status == "skipped" then Level.warn else Level.info
  ]

  -- the toast of an update with an error
  abbrev pub toast_update : NodeStatusUpdate N V → Runner N V → Runner N V
  toast_update u r = elim (truthy u.error) [
    | none ↦ r
    | some e ↦
        let prefix : String = elim (truthy u.kind) [ none ↦ "" | some k ↦ k <> ": " ] in
        toast_error ("[" <> u.node_id <> "] " <> prefix <> e) r
  ]

  -- the part of 'node.status' for an ordinary node
  unfoldable pub update_node : (String → V) → ℕ → NodeStatusUpdate N V → Runner N V → Runner N V
  unfolding data_update build_log_message log toast_error
  update_node of_text now u r =
      let patch = data_update of_text u in
      let moved = update_node_status u.node_id (coerce_status u.status) r.workflow in
      let patched = if is_patched patch then update_node_data u.node_id patch moved else moved in
      toast_update u (
        log now
          (record {
            node_id = u.node_id;
            message = build_log_message u;
            level = level_of u;
            payload = u.output;
          })
          (record r { workflow = patched }))

  abbrev pub is_validation_failure : NodeStatusUpdate N V → Bool
  is_validation_failure u = u.node_id == "__workflow__" && u.status == "validation_failed"

  abbrev pub errors_of : NodeStatusUpdate N V → List ValidationError
  errors_of u = elim u.errors [ none ↦ [] | some es ↦ es ]

  unfoldable pub pause_at : ℕ → DebugPausedEvent V → Runner N V → Runner N V
  unfolding log
  pause_at now ev r =
      let inspect = or_else ev.nested ev.whole in
      log now
        (record {
          node_id = ev.node_id;
          message = "Breakpoint hit - execution paused";
          level = Level.warn;
          payload = none;
        })
        (record r {
          debug = set_inspect_data (some inspect) (set_paused_at (some ev.node_id) r.debug);
          workflow = update_node_status ev.node_id paused r.workflow;
        })

  -- the handler that `initWorkflowRunner` registers for notifications
  unfoldable pub on_notification :
      (String → V) → (ℕ → String) → ℕ → Notification N V → Runner N V → Runner N V
  unfolding is_fresh_event handle_validation_failed update_node pause_at log
  on_notification of_text decimal now (node_status u) r =
      if not (is_fresh_event r.current_run_id u.run_id)
      then r
      else if is_validation_failure u
      then handle_validation_failed of_text decimal now (errors_of u) r
      else update_node of_text now u r
  on_notification of_text decimal now (debug_paused ev) r =
      if not (is_fresh_event r.current_run_id ev.run_id) then r else pause_at now ev r
  on_notification of_text decimal now workflow_complete r =
      log now
        (record {
          node_id = "system";
          message = "Workflow execution complete";
          level = Level.info;
          payload = none;
        })
        (on_workflow (set_running false) r)
  on_notification of_text decimal now (other_method method) r = r
