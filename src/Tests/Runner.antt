-- ===== src/Tests/Runner.antt =====
-- The runner on single events.
use workflowui.Base.{
  Distinct, map, All, any, not, ◌==◌, inr, ℕ, ◌≡◌, refl, String, none, some, List, [], ◌∷◌,
  ne_of_eq_false,
}
use workflowui.Store.{Dict, Node, partialize}
use workflowui.Debug.{DebugState}
use workflowui.Debug
use workflowui.Toast
use workflowui.Toast.{ToastLevel, add_toast}
use workflowui.Runner.Reconcile.{IsTaken, reconcile_from_snapshot_lem}
use workflowui.Runner.{
  WorkflowStateSnapshot, reconcile_from_snapshot, Runner, node_status, workflow_complete,
  NodeStatusUpdate, ValidationError, on_notification, coerce_status, handle_validation_failed,
  summary,
}
use workflowui.Runner.Stale.{on_notification_stale}
use workflowui.Runner.Graph.{RunEvent, notified, reconciled, observe_all, partialize-observe_all}
use workflowui.Runner.Nodes.{
  DataOf, IsPainted, names, nodes_where, on_notification_fresh, handle_validation_failed_lem,
}
use workflowui.Tests.Store.{small}

abbrev of_text : String → ℕ
of_text t = 0

abbrev decimal : ℕ → String
decimal n = "many"

abbrev pub start : Runner ℕ ℕ
start = record {
  workflow = small;
  debug = Debug.init;
  toasts = Toast.init;
  current_run_id = some "run-2";
}

abbrev late : NodeStatusUpdate ℕ ℕ
late = record {
  node_id = "a";
  status = "done";
  elapsed_ms = some 9;
  output = none;
  error = none;
  kind = none;
  reason = none;
  upstream = none;
  runs_count = none;
  avg_ms = none;
  run_id = some "run-1";
  errors = none;
}

on_notification_stale_example : on_notification of_text decimal 5 (node_status late) start ≡ start
on_notification_stale_example =
    on_notification_stale of_text decimal 5 (node_status late) start
      ("run-1", "run-2", refl, refl, ne_of_eq_false "run-1" "run-2" refl)

abbrev events : List (RunEvent ℕ ℕ)
events =
    notified 5 (node_status (record late { run_id = some "run-2" }))
    ∷ reconciled none
    ∷ notified 6 workflow_complete
    ∷ []

partialize-observe_all_example :
    partialize (observe_all of_text decimal events start).workflow ≡ partialize small
partialize-observe_all_example = partialize-observe_all of_text decimal events start

abbrev timely : NodeStatusUpdate ℕ ℕ
timely = record late { run_id = some "run-2" }

on_notification_fresh_example :
    let t = (on_notification of_text decimal 5 (node_status timely) start).workflow in
    DataOf "a" (λ d. d.status ≡ coerce_status "done") t.nodes
    × (nodes_where (λ id. not (id == "a")) t ≡ nodes_where (λ id. not (id == "a")) small)
    × (map Node.id t.nodes ≡ map Node.id small.nodes)
on_notification_fresh_example =
    on_notification_fresh of_text 5 decimal timely start (inr (inr refl))
      (ne_of_eq_false "a" "__workflow__" refl)

abbrev problem : ValidationError
problem = record { kind = "unknown_port"; message = "no port 'x'"; node_id = some "a"; edge = none }

handle_validation_failed_lem_example :
    let t = handle_validation_failed of_text decimal 5 (problem ∷ []) start in
    (t.toasts ≡ add_toast (summary decimal (problem ∷ [])) ToastLevel.error Toast.init)
    × All (IsPainted small.nodes_by_id t.workflow) (problem ∷ [])
    × (nodes_where (λ id. not (any (names id) (problem ∷ []))) t.workflow
        ≡ nodes_where (λ id. not (any (names id) (problem ∷ []))) small)
handle_validation_failed_lem_example =
    handle_validation_failed_lem of_text 5 decimal (problem ∷ []) start

abbrev statuses : Dict String
statuses = ("gone", "done") ∷ ("a", "error") ∷ []

abbrev snapshot : WorkflowStateSnapshot
snapshot = record { run_id = some ""; statuses = some statuses; paused_at = some "a" }

statuses-Distinct : Distinct (map (λ e. e.0) statuses)
statuses-Distinct = ((ne_of_eq_false "gone" "a" refl, tt), (tt, tt))

reconcile_from_snapshot_lem_example :
    let r = reconcile_from_snapshot (some snapshot) start in
    let q = λ (id : String). not (any (λ e. e.0 == id) statuses) in
    (r.current_run_id ≡ none)
    × (r.debug.paused_at_node_id ≡ some "a")
    × All (IsTaken small.nodes_by_id r.workflow) statuses
    × (nodes_where q r.workflow ≡ nodes_where q small)
reconcile_from_snapshot_lem_example = reconcile_from_snapshot_lem snapshot start statuses-Distinct
