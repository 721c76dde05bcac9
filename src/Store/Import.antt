-- ===== src/Store/Import.antt =====
-- `exportWorkflow` and `importWorkflow`.
use workflowui.Base.{
  ℕ, ◌+◌, String, false, true, Bool, any, Option, none, some, List, [], ◌∷◌, map, leb,
  if◌then◌else◌,
}
use workflowui.Store.Types.{idle, NodeData, Node, Edge, WorkflowState}
use workflowui.Store.Actions.{rebuild_nodes_by_id}
use workflowui.Store.Doubles.{to_double}
use workflowui.Store.Names.{match_node}

pub record ExportedNode (N V : Type 0) : Type 0 where
  pub id : String
  pub type : Option String
  pub x : N
  pub y : N
  pub body : NodeData N V

pub record ExportedEdge : Type 0 where
  pub id : String
  pub source : String
  pub source_handle : Option String
  pub target : String
  pub target_handle : Option String

-- the object that is handed to `JSON.stringify`
pub record ExportedWorkflow (N V : Type 0) : Type 0 where
  pub version : ℕ
  pub nodes : List (ExportedNode N V)
  pub edges : List ExportedEdge

-- what `JSON.parse` makes of the text: an element of `nodes` is an object, a node where its `id` is
-- a text and otherwise one at which `n.id.match` throws, or `null`, at which `n.data` throws
pub data ParsedNode (N V : Type 0) : Type 0 where
  named : Node N V → ParsedNode N V
  nameless null_node : ParsedNode N V

pub data ParsedWorkflow (N V : Type 0) : Type 0 where
  syntax_error : String → ParsedWorkflow N V
  no_object : ParsedWorkflow N V
  workflow : Option (List (ParsedNode N V)) → Option (List (Edge V)) → ParsedWorkflow N V

-- `engine_error` is the `TypeError` at `n.data` or at `n.id.match`
pub data ImportError : Type 0 where
  invalid_json : String → ImportError
  no_root_object no_arrays engine_error : ImportError

-- an error leaves what has been done before it, so the state comes with it
pub record Imported (N V : Type 0) : Type 0 where
  pub state : WorkflowState N V
  pub thrown : Option ImportError

-- one round of the loop that moves `nodeIdCounter`
unfoldable pub bump : Option ℕ → ℕ → ℕ
unfolding to_double
bump none counter = counter
bump (some num) counter =
    let n = to_double num in if leb counter n then to_double (n + 1) else counter

module _ {N V : Type 0} where
  unfoldable pub export_workflow : WorkflowState N V → ExportedWorkflow N V
  export_workflow s = record {
    version = 1;
    nodes = map (λ n. record { id = n.id; type = n.type; x = n.x; y = n.y; body = n.body }) s.nodes;
    edges =
        map
          (λ e. record {
            id = e.id;
            source = e.source;
            source_handle = e.source_handle;
            target = e.target;
            target_handle = e.target_handle;
          })
          s.edges;
  }

  abbrev pub reset_status : Node N V → Node N V
  reset_status n = record n { body = record n.body { status = idle } }

  abbrev pub prepend : Node N V → ℕ × Option (List (Node N V)) → ℕ × Option (List (Node N V))
  prepend n (counter, none) = (counter, none)
  prepend n (counter, some ns) = (counter, some (reset_status n ∷ ns))

  abbrev pub is_null : ParsedNode N V → Bool
  is_null null_node = true
  is_null nameless = false
  is_null (named n) = false

  -- the nodes, none of them `null`, up to the first that makes the import throw, and the counter after them
  unfoldable pub bump_all : List (ParsedNode N V) → ℕ → ℕ × Option (List (Node N V))
  unfolding match_node bump
  bump_all [] counter = (counter, some [])
  bump_all (nameless ∷ ps) counter = (counter, none)
  bump_all (null_node ∷ ps) counter = (counter, none)
  bump_all (named n ∷ ps) counter = prepend n (bump_all ps (bump (match_node n.id) counter))

  unfoldable pub finish_import :
      ℕ × Option (List (Node N V)) → List (Edge V) → WorkflowState N V → Imported N V
  finish_import (counter, none) edges s = record {
    state = record s { node_id_counter = counter };
    thrown = some engine_error;
  }
  finish_import (counter, some nodes) edges s = record {
    state = record s {
      nodes = nodes;
      nodes_by_id = rebuild_nodes_by_id nodes;
      edges = edges;
      selected_node_id = none;
      is_running = false;
      node_id_counter = counter;
    };
    thrown = none;
  }

  unfoldable pub import_workflow : ParsedWorkflow N V → WorkflowState N V → Imported N V
  unfolding bump_all finish_import
  import_workflow (syntax_error e) s = record { state = s; thrown = some (invalid_json e) }
  import_workflow no_object s = record { state = s; thrown = some no_root_object }
  import_workflow (workflow (some ps) (some edges)) s =
      if any is_null ps
      then record { state = s; thrown = some engine_error }
      else finish_import (bump_all ps s.node_id_counter) edges s
  import_workflow (workflow _ _) s = record { state = s; thrown = some no_arrays }
