-- ===== src/Canvas/Handlers.antt =====
-- The handlers of `AppInner`: files, connections, the pointer, and drops. What React
-- Flow computes comes as functions.
use workflowui.Base.{String, Bool, Option, none, some, List, [], map, ◌==◌, if◌then◌else◌}
use workflowui.Ports.{
  ConnectionLike, NodeLike, CompatibilityResult, validate_connection, get_port, data_type_of,
  type_text, shown,
}
use workflowui.Store.{
  idle, Node, Edge, WorkflowState, ParsedWorkflow, ImportError, invalid_json, no_root_object,
  no_arrays, engine_error, import_workflow, generate_node_id, add_node, set_edges,
  set_selected_node, get_node_by_id,
}
use workflowui.Toast.{ToastLevel}
use workflowui.Runner.{◌<>◌, truthy}
use workflowui.Actions.{Session, on_flow, show_toast}
use workflowui.Menu.{MenuState}

-- the component's own state beside the stores: `lastRejectionRef` and `contextMenu`
pub record Canvas (N V : Type 0) : Type 0 where
  pub session : Session N V
  pub last_rejection : Option String
  pub context_menu : Option (MenuState N)

-- the messages of the errors that `importWorkflow` throws; that of a node without a textual id is the
-- engine's
abbrev pub import_message : String → ImportError → String
import_message engine (invalid_json e) = "Invalid JSON: " <> e
import_message engine no_root_object = "Workflow root must be an object"
import_message engine no_arrays = "Workflow must contain `nodes` and `edges` arrays"
import_message engine engine_error = engine

module _ {N V : Type 0} where
  abbrev pub on_session : (Session N V → Session N V) → Canvas N V → Canvas N V
  on_session f c = record c { session = f c.session }

  -- the toast after an import
  abbrev pub report_import : String → Option ImportError → Session N V → Session N V
  report_import engine none s = show_toast "Workflow loaded" ToastLevel.success s
  report_import engine (some e) s =
      show_toast ("Failed to load workflow: " <> import_message engine e) ToastLevel.error s

  -- `reader.onload`: `parse` is `JSON.parse`
  unfoldable pub file_loaded :
      (String → ParsedWorkflow N V) → String → Option String → Canvas N V → Canvas N V
  unfolding import_workflow show_toast
  file_loaded parse engine text c = elim (truthy text) [
    | none ↦ c
    | some t ↦
        let out = import_workflow (parse t) c.session.runner.workflow in
        on_session (λ s. report_import engine out.thrown (on_flow (λ w. out.state) s)) c
  ]

  -- `reader.onerror`
  unfoldable pub file_failed : Canvas N V → Canvas N V
  unfolding show_toast
  file_failed c = on_session (show_toast "Could not read file" ToastLevel.error) c

  abbrev pub like_of : Node N V → NodeLike
  like_of n = record { id = n.id; type = n.type }

  abbrev pub judge : ConnectionLike → Canvas N V → CompatibilityResult
  judge conn c = validate_connection conn (map like_of c.session.runner.workflow.nodes)

  unfoldable pub is_valid_connection : ConnectionLike → Canvas N V → Canvas N V × Bool
  is_valid_connection conn c =
      let result = judge conn c in
      (
        if result.ok
            then c
            else record c { last_rejection = some (shown result.reason "invalid connection") },
        result.ok,
      )

  unfoldable pub on_connect_start : Canvas N V → Canvas N V
  on_connect_start c = record c { last_rejection = none }

  unfoldable pub on_connect_end : Canvas N V → Canvas N V
  unfolding show_toast
  on_connect_end c = elim (truthy c.last_rejection) [
    | none ↦ c
    | some why ↦ record (on_session (show_toast why ToastLevel.warn) c) { last_rejection = none }
  ]

  -- the data type that `onConnect` tags an edge with
  unfoldable pub edge_type : ConnectionLike → WorkflowState N V → String
  unfolding get_port get_node_by_id
  edge_type conn s =
      let src : Option String = elim (get_node_by_id (shown conn.source "") s) [
        | none ↦ none
        | some n ↦ n.type
      ] in
      elim (data_type_of (get_port src conn.source_handle)) [
        | none ↦ "generic"
        | some t ↦ type_text t
      ]

  -- `add_edge` is React Flow's `addEdge` of the connection with its data
  unfoldable pub on_connect :
      (ConnectionLike → String → List (Edge V) → List (Edge V))
      → ConnectionLike
      → Canvas N V
      → Canvas N V
  unfolding edge_type
  on_connect add_edge conn c =
      let tag = edge_type conn c.session.runner.workflow in
      on_session (on_flow (set_edges (add_edge conn tag))) c

  unfoldable pub on_node_click : String → Canvas N V → Canvas N V
  on_node_click id c = on_session (on_flow (set_selected_node (some id))) c

  unfoldable pub on_pane_click : Canvas N V → Canvas N V
  on_pane_click c = record (on_session (on_flow (set_selected_node none)) c) { context_menu = none }

  unfoldable pub on_node_context_menu : N → N → String → Canvas N V → Canvas N V
  on_node_context_menu x y id c = record (on_session (on_flow (set_selected_node (some id))) c) {
    context_menu = some (record { x = x; y = y; node_id = id });
  }

  -- the node of a drop; `config` is `{}`, and `rest` what a new node has of the copied fields
  abbrev pub dropped : V → V → String → String → N → N → String → Node N V
  dropped config rest type label x y id = record {
    id = id;
    type = some type;
    x = x;
    y = y;
    selected = none;
    rest = rest;
    body = record {
      label = label;
      type = type;
      status = idle;
      config = config;
      elapsed_ms = none;
      output = none;
      runs_count = none;
      avg_ms = none;
      error = none;
      extra = [];
    };
  }

  abbrev pub add_named : (String → Node N V) → WorkflowState N V × String → WorkflowState N V
  add_named make (s, id) = add_node (make id) s

  -- `x` and `y` are the drop point in the coordinates of the flow
  unfoldable pub on_drop : V → V → String → String → N → N → Canvas N V → Canvas N V
  unfolding generate_node_id
  on_drop config rest type label x y c =
      if type == ""
      then c
      else on_session
          (on_flow (λ s. add_named (dropped config rest type label x y) (generate_node_id s))) c
