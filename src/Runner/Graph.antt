-- ===== src/Runner/Graph.antt =====
-- A run never edits the workflow: what undo records is the same before and after.
use workflowui.Base.{
  ℕ, ◌≡◌, refl, ap, ◌∙◌, inl, inr, String, Bool, true, false, Option, some, none, List, [], ◌∷◌,
  is_some, Bool-cases, Option-cases, if◌then◌else◌,
}
use workflowui.Store.{
  NodeStatus, idle, error, paused, DataPatch, Dict, Node, WorkflowState, get, partialize,
  update_node_status, update_node_data, set_running,
}
use workflowui.Store.Undo.{IsRuntime, partialize_runtime}
use workflowui.Runner.{
  Runner, Notification, node_status, debug_paused, workflow_complete, other_method,
  NodeStatusUpdate, ValidationError, WorkflowStateSnapshot, truthy, no_patch, report, report_all,
  handle_validation_failed, take_statuses, coerce_status, reconcile_from_snapshot, data_update,
  update_node, toast_update, toast_error, is_patched, is_validation_failure, errors_of, pause_at,
  is_fresh_event, on_notification,
}

-- what reaches the runner: a notification at some time, or the answer to 'workflow.state' after a
-- reconnection
pub data RunEvent (N V : Type 0) : Type 0 where
  notified : ℕ → Notification N V → RunEvent N V
  reconciled : Option WorkflowStateSnapshot → RunEvent N V

module _ {N V : Type 0} where
  partialize-if :
      (b : Bool) (s t u : WorkflowState N V)
      → partialize s ≡ partialize u
      → partialize t ≡ partialize u
      → partialize (if b then s else t) ≡ partialize u
  partialize-if true s t u p q = p
  partialize-if false s t u p q = q

  no_patch-IsRuntime : IsRuntime (no_patch {N = N} {V = V})
  no_patch-IsRuntime = record { label = refl; type = refl; config = refl; extra = refl }

  partialize-update_node_status :
      (id : String) (status : NodeStatus) (s : WorkflowState N V)
      → partialize (update_node_status id status s) ≡ partialize s
  partialize-update_node_status id status s =
      (partialize_runtime id status no_patch s no_patch-IsRuntime).0

  partialize-update_node_data :
      (id : String) (p : DataPatch N V) (s : WorkflowState N V)
      → IsRuntime p
      → partialize (update_node_data id p s) ≡ partialize s
  partialize-update_node_data id p s r = (partialize_runtime id idle p s r).1

  partialize-take_statuses :
      (known : Dict (Node N V)) (statuses : Dict String) (s : WorkflowState N V)
      → partialize (take_statuses known statuses s) ≡ partialize s
  unfolding take_statuses
  partialize-take_statuses known [] s = refl
  partialize-take_statuses known ((id, status) ∷ rest) s =
      partialize-take_statuses known rest _
      ∙ partialize-if (is_some (get id known)) (update_node_status id (coerce_status status) s) s s
          (partialize-update_node_status id (coerce_status status) s) refl

  pub workflow-toast_update :
      (u : NodeStatusUpdate N V) (r : Runner N V) → (toast_update u r).workflow ≡ r.workflow
  unfolding toast_error
  workflow-toast_update u r = elim (Option-cases (truthy u.error)) [
    | inl quiet ↦ rw (quiet, toast_update)
    | inr (e, failed) ↦ rw (failed, toast_update)
  ]

  module _ (of_text : String → V) (decimal : ℕ → String) (now : ℕ) where
    partialize-report :
        (known : Dict (Node N V)) (e : ValidationError) (r : Runner N V)
        → partialize (report of_text now known e r).workflow ≡ partialize r.workflow
    unfolding report
    partialize-report known e r = elim (Option-cases (truthy e.node_id)) [
      | inl nowhere ↦ rw nowhere
      | inr (id, named) ↦ elim (Bool-cases (is_some (get id known))) [
        | inl here ↦
            rw (named, here)
              (partialize-update_node_data id _ _
                  (record { label = refl; type = refl; config = refl; extra = refl })
                ∙ partialize-update_node_status id error r.workflow)
        | inr absent ↦ rw (named, absent)
      ]
    ]

    partialize-report_all :
        (known : Dict (Node N V)) (es : List ValidationError) (r : Runner N V)
        → partialize (report_all of_text now known es r).workflow ≡ partialize r.workflow
    unfolding report_all
    partialize-report_all known [] r = refl
    partialize-report_all known (e ∷ es) r =
        partialize-report_all known es (report of_text now known e r) ∙ partialize-report known e r

    data_update-IsRuntime : (u : NodeStatusUpdate N V) → IsRuntime (data_update of_text u)
    unfolding data_update
    data_update-IsRuntime u = record { label = refl; type = refl; config = refl; extra = refl }

    partialize-update_node :
        (u : NodeStatusUpdate N V) (r : Runner N V)
        → partialize (update_node of_text now u r).workflow ≡ partialize r.workflow
    unfolding update_node
    partialize-update_node u r =
        let moved = update_node_status u.node_id (coerce_status u.status) r.workflow in
        ap partialize (workflow-toast_update u _)
        ∙ partialize-if (is_patched (data_update of_text u))
            (update_node_data u.node_id (data_update of_text u) moved) moved r.workflow
            (partialize-update_node_data u.node_id _ _ (data_update-IsRuntime u)
              ∙ partialize-update_node_status u.node_id (coerce_status u.status) r.workflow)
            (partialize-update_node_status u.node_id (coerce_status u.status) r.workflow)

    partialize-on_notification :
        (n : Notification N V) (r : Runner N V)
        → partialize (on_notification of_text decimal now n r).workflow ≡ partialize r.workflow
    unfolding on_notification handle_validation_failed partialize set_running pause_at
    partialize-on_notification (node_status u) r =
        elim (Bool-cases (is_fresh_event r.current_run_id u.run_id)) [
          | inr stale ↦ rw stale
          | inl fresh ↦ elim (Bool-cases (is_validation_failure u)) [
            | inl failed ↦
                rw (fresh, failed) (partialize-report_all r.workflow.nodes_by_id (errors_of u) r)
            | inr ordinary ↦ rw (fresh, ordinary) (partialize-update_node u r)
          ]
        ]
    partialize-on_notification (debug_paused ev) r =
        elim (Bool-cases (is_fresh_event r.current_run_id ev.run_id)) [
          | inr stale ↦ rw stale
          | inl fresh ↦ rw fresh (partialize-update_node_status ev.node_id paused r.workflow)
        ]
    partialize-on_notification workflow_complete r = refl
    partialize-on_notification (other_method method) r = refl

  partialize-reconcile_from_snapshot :
      (snap : Option WorkflowStateSnapshot) (r : Runner N V)
      → partialize (reconcile_from_snapshot snap r).workflow ≡ partialize r.workflow
  unfolding reconcile_from_snapshot
  partialize-reconcile_from_snapshot none r = refl
  partialize-reconcile_from_snapshot (some snap) r = elim (Option-cases snap.statuses) [
    | inl silent ↦ rw silent
    | inr (statuses, told) ↦
        rw told (partialize-take_statuses r.workflow.nodes_by_id statuses r.workflow)
  ]

  pub observe : (String → V) → (ℕ → String) → RunEvent N V → Runner N V → Runner N V
  observe of_text decimal (notified now n) r = on_notification of_text decimal now n r
  observe of_text decimal (reconciled snap) r = reconcile_from_snapshot snap r

  unfoldable pub observe_all :
      (String → V) → (ℕ → String) → List (RunEvent N V) → Runner N V → Runner N V
  unfolding observe
  observe_all of_text decimal [] r = r
  observe_all of_text decimal (e ∷ es) r =
      observe_all of_text decimal es (observe of_text decimal e r)

  partialize-observe :
      (of_text : String → V) (decimal : ℕ → String) (e : RunEvent N V) (r : Runner N V)
      → partialize (observe of_text decimal e r).workflow ≡ partialize r.workflow
  unfolding observe
  partialize-observe of_text decimal (notified now n) r =
      partialize-on_notification of_text decimal now n r
  partialize-observe of_text decimal (reconciled snap) r = partialize-reconcile_from_snapshot snap r

  -- Whatever notifications and snapshots of the backend arrive, in any order, the part of the
  -- workflow that undo records stays the same: nodes, positions, labels, types, configurations and
  -- edges.
  pub partialize-observe_all :
      (of_text : String → V) (decimal : ℕ → String) (es : List (RunEvent N V)) (r : Runner N V)
      → partialize (observe_all of_text decimal es r).workflow ≡ partialize r.workflow
  unfolding observe_all
  partialize-observe_all of_text decimal [] r = refl
  partialize-observe_all of_text decimal (e ∷ es) r =
      partialize-observe_all of_text decimal es (observe of_text decimal e r)
      ∙ partialize-observe of_text decimal e r
