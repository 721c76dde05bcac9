-- ===== src/Store/Consistent.antt =====
-- The index stays in step with the array of nodes, whatever actions are called.
use workflowui.Base.{
  ℕ, ◌≡◌, refl, ◌∙◌, ap, String, Bool, Option, some, none, List, [], ◌∷◌, map, ◌==◌, find?,
  Distinct, any, if_both,
}
use workflowui.Store.{
  NodeStatus, DataPatch, get, Node, Edge, WorkflowState, ParsedWorkflow, syntax_error, no_object,
  workflow, rebuild_nodes_by_id, init, on_nodes_change, on_edges_change, set_edges, set_nodes,
  set_selected_node, add_node, remove_node, duplicate, duplicate_node, update_node_data, is_null,
  Imported, update_node_status, set_running, get_node_by_id, import_workflow, bump_all,
  finish_import,
}
use workflowui.Store.Index.{get-rebuild, find_last-Distinct}

-- a call of an action of the store
pub data Action (N V : Type 0) : Type 0 where
  changes_nodes : (List (Node N V) → List (Node N V)) → Action N V
  changes_edges sets_edges : (List (Edge V) → List (Edge V)) → Action N V
  sets_nodes : List (Node N V) → Action N V
  selects : Option String → Action N V
  adds : Node N V → Action N V
  removes : String → Action N V
  duplicates : (N → N) → String → Action N V
  updates_data : String → DataPatch N V → Action N V
  updates_status : String → NodeStatus → Action N V
  sets_running : Bool → Action N V
  imports : ParsedWorkflow N V → Action N V

module _ {N V : Type 0} where
  unfoldable pub step : Action N V → WorkflowState N V → WorkflowState N V
  step (changes_nodes apply_changes) s = on_nodes_change apply_changes s
  step (changes_edges apply_changes) s = on_edges_change apply_changes s
  step (sets_edges updater) s = set_edges updater s
  step (sets_nodes ns) s = set_nodes ns s
  step (selects id) s = set_selected_node id s
  step (adds n) s = add_node n s
  step (removes id) s = remove_node id s
  step (duplicates add_40 id) s = (duplicate_node add_40 id s).0
  step (updates_data id patch) s = update_node_data id patch s
  step (updates_status id status) s = update_node_status id status s
  step (sets_running running) s = set_running running s
  step (imports parsed) s = (import_workflow parsed s).state

  unfoldable pub run : List (Action N V) → WorkflowState N V → WorkflowState N V
  run [] s = s
  run (a ∷ rest) s = run rest (step a s)

  abbrev pub IsCached : WorkflowState N V → Type 0
  IsCached s = s.nodes_by_id ≡ rebuild_nodes_by_id s.nodes

  duplicate-IsCached :
      (add_40 : N → N) (o : Option (Node N V)) (s : WorkflowState N V)
      → IsCached s
      → IsCached (duplicate add_40 o s).0
  unfolding duplicate
  duplicate-IsCached add_40 none s c = c
  duplicate-IsCached add_40 (some src) s c = refl

  finish_import-IsCached :
      (r : ℕ × Option (List (Node N V))) (edges : List (Edge V)) (s : WorkflowState N V)
      → IsCached s
      → IsCached (finish_import r edges s).state
  unfolding finish_import
  finish_import-IsCached (counter, none) edges s c = c
  finish_import-IsCached (counter, some ns) edges s c = refl

  import_workflow-IsCached :
      (parsed : ParsedWorkflow N V) (s : WorkflowState N V)
      → IsCached s
      → IsCached (import_workflow parsed s).state
  unfolding import_workflow
  import_workflow-IsCached (syntax_error e) s c = c
  import_workflow-IsCached no_object s c = c
  import_workflow-IsCached (workflow (some ps) (some edges)) s c =
      if_both (λ (r : Imported N V). IsCached r.state) (any is_null ps) _ _ c
        (finish_import-IsCached (bump_all ps s.node_id_counter) edges s c)
  import_workflow-IsCached (workflow (some ps) none) s c = c
  import_workflow-IsCached (workflow none edges) s c = c

  step-IsCached : (a : Action N V) (s : WorkflowState N V) → IsCached s → IsCached (step a s)
  unfolding step on_nodes_change on_edges_change set_edges set_nodes set_selected_node add_node
      remove_node duplicate_node update_node_data update_node_status set_running
  step-IsCached (changes_nodes apply_changes) s c = refl
  step-IsCached (changes_edges apply_changes) s c = c
  step-IsCached (sets_edges updater) s c = c
  step-IsCached (sets_nodes ns) s c = refl
  step-IsCached (selects id) s c = c
  step-IsCached (adds n) s c = refl
  step-IsCached (removes id) s c = refl
  step-IsCached (duplicates add_40 id) s c = duplicate-IsCached add_40 _ s c
  step-IsCached (updates_data id patch) s c = refl
  step-IsCached (updates_status id status) s c = refl
  step-IsCached (sets_running running) s c = c
  step-IsCached (imports parsed) s c = import_workflow-IsCached parsed s c

  pub run-IsCached :
      (actions : List (Action N V)) (s : WorkflowState N V) → IsCached s → IsCached (run actions s)
  unfolding run
  run-IsCached [] s c = c
  run-IsCached (a ∷ rest) s c = run-IsCached rest (step a s) (step-IsCached a s c)

  -- After any calls of actions from the start, if the nodes then have distinct ids, `getNodeById`
  -- gives for every id what a search of the array gives.
  pub get_node_by_id-run :
      (actions : List (Action N V)) (id : String)
      → Distinct (map Node.id (run actions init).nodes)
      → get_node_by_id id (run actions init) ≡ find? (λ n. n.id == id) (run actions init).nodes
  unfolding get_node_by_id
  get_node_by_id-run actions id d =
      ap (get id) (run-IsCached actions init refl)
      ∙ get-rebuild id (run actions init).nodes
      ∙ find_last-Distinct id (run actions init).nodes d
