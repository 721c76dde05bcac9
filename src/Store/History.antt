-- ===== src/Store/History.antt =====
-- What undo and redo see of the store (`partialize`, `equality`), and the subscriber that mends
-- `nodesById` after a write from outside.
use workflowui.Base.{
  String, Bool, true, false, not, ◌&&◌, ◌||◌, Option, none, some, List, [], ◌∷◌, map, ◌==◌, eqb,
  length, if◌then◌else◌,
}
use workflowui.Store.Types.{Dict, get, Node, Edge, WorkflowState}
use workflowui.Store.Actions.{strip_runtime_fields, rebuild_nodes_by_id}

pub record Snapshot (N V : Type 0) : Type 0 where
  pub nodes : List (Node N V)
  pub edges : List (Edge V)

abbrev pub same_text : Option String → Option String → Bool
same_text none none = true
same_text none (some t) = false
same_text (some s) none = false
same_text (some s) (some t) = s == t

abbrev pub same_edge : {V : Type 0} → Edge V → Edge V → Bool
same_edge x y =
    x.id == y.id
    && x.source == y.source
    && x.target == y.target
    && same_text x.source_handle y.source_handle
    && same_text x.target_handle y.target_handle

abbrev pub same_edges : {V : Type 0} → List (Edge V) → List (Edge V) → Bool
same_edges [] ys = true
same_edges (x ∷ xs) [] = false
same_edges (x ∷ xs) (y ∷ ys) = same_edge x y && same_edges xs ys

module _ {N V : Type 0} where
  abbrev pub strip_node : Node N V → Node N V
  strip_node n = record n { body = strip_runtime_fields n.body }

  unfoldable pub partialize : WorkflowState N V → Snapshot N V
  partialize s = record { nodes = map strip_node s.nodes; edges = s.edges }

  -- numbers are compared by `===`, and configurations by their text (`JSON.stringify`)
  module _ (number_eq : N → N → Bool) (stringify : V → String) where
    abbrev pub same_node : Node N V → Node N V → Bool
    same_node a b =
        a.id == b.id
        && same_text a.type b.type
        && number_eq a.x b.x
        && number_eq a.y b.y
        && a.body.label == b.body.label
        && stringify a.body.config == stringify b.body.config

    abbrev pub same_nodes : List (Node N V) → List (Node N V) → Bool
    same_nodes [] ns = true
    same_nodes (m ∷ ms) [] = false
    same_nodes (m ∷ ms) (n ∷ ns) = same_node m n && same_nodes ms ns

    -- the `equality` option: no snapshot is taken where it holds
    unfoldable pub equality : Snapshot N V → Snapshot N V → Bool
    equality a b =
        if not (eqb (length a.nodes) (length b.nodes))
          || not (eqb (length a.edges) (length b.edges))
        then false
        else same_nodes a.nodes b.nodes && same_edges a.edges b.edges

  -- `same_object` is `===` on nodes
  module _ (same_object : Node N V → Node N V → Bool) where
    abbrev pub is_cached : Option (Node N V) → Node N V → Bool
    is_cached none n = false
    is_cached (some m) n = same_object m n

    abbrev pub sample_agrees : List (Node N V) → Dict (Node N V) → Bool
    sample_agrees [] cache = true
    sample_agrees (n ∷ ns) cache = is_cached (get n.id cache) n

    -- the subscriber, for a write that has changed the reference to the array of nodes
    unfoldable pub resync : WorkflowState N V → WorkflowState N V
    resync s =
        if eqb (length s.nodes_by_id) (length s.nodes) && sample_agrees s.nodes s.nodes_by_id
        then s
        else record s { nodes_by_id = rebuild_nodes_by_id s.nodes }

  -- what undo and redo write: the nodes and edges of a snapshot, and nothing else
  unfoldable pub restore : Snapshot N V → WorkflowState N V → WorkflowState N V
  restore snap s = record s { nodes = snap.nodes; edges = snap.edges }
