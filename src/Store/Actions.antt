-- ===== src/Store/Actions.antt =====
-- The actions of `useWorkflowStore`, imports and exports apart. What React Flow computes
-- (`applyNodeChanges`, `applyEdgeChanges`) comes as the function that the action applies.
use workflowui.Base.{
  ◌+◌, String, Bool, false, not, ◌&&◌, Option, none, some, List, [], ◌∷◌, ◌++◌, map, filter, ◌==◌,
  if◌then◌else◌,
}
use workflowui.Store.Types.{
  NodeStatus, idle, Dict, put, get, put_all, NodeData, DataPatch, Node, Edge, WorkflowState,
}
use workflowui.Store.Doubles.{to_double}
use workflowui.Store.Names.{node_name}

-- `get().selectedNodeId === id ? null : get().selectedNodeId`
abbrev pub unselect : String → Option String → Option String
unselect id none = none
unselect id (some selected) = if selected == id then none else some selected

abbrev pub or_else : {A : Type 0} → Option A → A → A
or_else none old = old
or_else (some new) old = new

module _ {N V : Type 0} where
  -- the loop of `rebuildNodesById` over the nodes
  abbrev pub rebuild_from : Dict (Node N V) → List (Node N V) → Dict (Node N V)
  rebuild_from m [] = m
  rebuild_from m (n ∷ ns) = rebuild_from (put n.id n m) ns

  abbrev pub rebuild_nodes_by_id : List (Node N V) → Dict (Node N V)
  rebuild_nodes_by_id ns = rebuild_from [] ns

  abbrev pub strip_runtime_fields : NodeData N V → NodeData N V
  strip_runtime_fields d = record d {
    status = idle;
    elapsed_ms = none;
    output = none;
    runs_count = none;
    avg_ms = none;
    error = none;
  }

  abbrev pub init : WorkflowState N V
  init = record {
    nodes = [];
    nodes_by_id = [];
    edges = [];
    selected_node_id = none;
    is_running = false;
    node_id_counter = 0;
  }

  -- `set({ nodes, nodesById: rebuildNodesById(nodes) })`
  abbrev pub with_nodes : List (Node N V) → WorkflowState N V → WorkflowState N V
  with_nodes ns s = record s { nodes = ns; nodes_by_id = rebuild_nodes_by_id ns }

  unfoldable pub on_nodes_change :
      (List (Node N V) → List (Node N V)) → WorkflowState N V → WorkflowState N V
  on_nodes_change apply_changes s = with_nodes (apply_changes s.nodes) s

  unfoldable pub on_edges_change :
      (List (Edge V) → List (Edge V)) → WorkflowState N V → WorkflowState N V
  on_edges_change apply_changes s = record s { edges = apply_changes s.edges }

  unfoldable pub set_edges : (List (Edge V) → List (Edge V)) → WorkflowState N V → WorkflowState N V
  set_edges updater s = record s { edges = updater s.edges }

  unfoldable pub set_nodes : List (Node N V) → WorkflowState N V → WorkflowState N V
  set_nodes ns s = with_nodes ns s

  unfoldable pub set_selected_node : Option String → WorkflowState N V → WorkflowState N V
  set_selected_node id s = record s { selected_node_id = id }

  unfoldable pub add_node : Node N V → WorkflowState N V → WorkflowState N V
  add_node n s = with_nodes (s.nodes ++ n ∷ []) s

  unfoldable pub remove_node : String → WorkflowState N V → WorkflowState N V
  remove_node id s = record (with_nodes (filter (λ n. not (n.id == id)) s.nodes) s) {
    edges = filter (λ e. not (e.source == id) && not (e.target == id)) s.edges;
    selected_node_id = unselect id s.selected_node_id;
  }

  unfoldable pub generate_node_id : WorkflowState N V → WorkflowState N V × String
  unfolding node_name to_double
  generate_node_id s =
      let n = to_double (s.node_id_counter + 1) in (record s { node_id_counter = n }, node_name n)

  -- `add_40` adds 40 to a coordinate
  unfoldable pub clone_of : (N → N) → String → Node N V → Node N V
  clone_of add_40 id src = record src {
    id = id;
    x = add_40 src.x;
    y = add_40 src.y;
    selected = some false;
    body = strip_runtime_fields src.body;
  }

  unfoldable pub duplicate :
      (N → N) → Option (Node N V) → WorkflowState N V → WorkflowState N V × Option String
  unfolding clone_of generate_node_id
  duplicate add_40 none s = (s, none)
  duplicate add_40 (some src) s =
      let (s', id) = generate_node_id s in
      (
        record (with_nodes (s.nodes ++ clone_of add_40 id src ∷ []) s') {
          selected_node_id = some id;
        },
        some id,
      )

  unfoldable pub duplicate_node :
      (N → N) → String → WorkflowState N V → WorkflowState N V × Option String
  unfolding duplicate
  duplicate_node add_40 id s = duplicate add_40 (get id s.nodes_by_id) s

  -- `{ ...data, ...patch }`
  abbrev pub patch_data : DataPatch N V → NodeData N V → NodeData N V
  patch_data p d = record {
    label = or_else p.label d.label;
    type = or_else p.type d.type;
    status = or_else p.status d.status;
    config = or_else p.config d.config;
    elapsed_ms = or_else p.elapsed_ms d.elapsed_ms;
    output = or_else p.output d.output;
    runs_count = or_else p.runs_count d.runs_count;
    avg_ms = or_else p.avg_ms d.avg_ms;
    error = or_else p.error d.error;
    extra = put_all d.extra p.extra;
  }

  abbrev pub update_body : String → (NodeData N V → NodeData N V) → Node N V → Node N V
  update_body id f n = if n.id == id then record n { body = f n.body } else n

  unfoldable pub update_node_data : String → DataPatch N V → WorkflowState N V → WorkflowState N V
  update_node_data id patch s = with_nodes (map (update_body id (patch_data patch)) s.nodes) s

  unfoldable pub update_node_status : String → NodeStatus → WorkflowState N V → WorkflowState N V
  update_node_status id status s =
      with_nodes (map (update_body id (λ d. record d { status = status })) s.nodes) s

  unfoldable pub set_running : Bool → WorkflowState N V → WorkflowState N V
  set_running running s = record s { is_running = running }

  unfoldable pub get_node_by_id : String → WorkflowState N V → Option (Node N V)
  get_node_by_id id s = get id s.nodes_by_id
