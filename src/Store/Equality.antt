-- ===== src/Store/Equality.antt =====
-- When undo takes two snapshots to be the same: the `equality` option.
use workflowui.Base.{
  ◌≡◌, ◌↔◌, sym, ap, ◌∙◌, String, Bool, true, Option, some, none, List, [], ◌∷◌, map, arith, eq_iff,
  length, length-map,
}
use workflowui.Store.{
  Node, Edge, Snapshot, same_text, same_edge, same_edges, same_node, same_nodes, equality,
}

same_text_iff : (s t : Option String) → (same_text s t ≡ true) ↔ (s ≡ t)
same_text_iff none none = ground arith
same_text_iff none (some t) = ground arith
same_text_iff (some s) none = ground arith
same_text_iff (some s) (some t) = ground (arith, eq_iff s t)

-- what `equality` looks at in an edge
pub record EdgeView : Type 0 where
  pub id : String
  pub source : String
  pub target : String
  pub source_handle : Option String
  pub target_handle : Option String

abbrev pub edge_view : {V : Type 0} → Edge V → EdgeView
edge_view e = record {
  id = e.id;
  source = e.source;
  target = e.target;
  source_handle = e.source_handle;
  target_handle = e.target_handle;
}

same_edge_iff : {V : Type 0} (a b : Edge V) → (same_edge a b ≡ true) ↔ (edge_view a ≡ edge_view b)
same_edge_iff a b = ground (
  arith,
  eq_iff a.id b.id,
  eq_iff a.source b.source,
  eq_iff a.target b.target,
  same_text_iff a.source_handle b.source_handle,
  same_text_iff a.target_handle b.target_handle,
)

same_edges_iff :
    {V : Type 0} (xs ys : List (Edge V))
    → length xs ≡ length ys
    → (same_edges xs ys ≡ true) ↔ (map edge_view xs ≡ map edge_view ys)
same_edges_iff [] [] l = ground arith
same_edges_iff [] (b ∷ ys) l = absurd (omega arith)
same_edges_iff (a ∷ xs) [] l = absurd (omega arith)
same_edges_iff (a ∷ xs) (b ∷ ys) l =
    ground (arith, same_edge_iff a b, same_edges_iff xs ys (omega arith))

-- what `equality` looks at in a node
pub record NodeView (N : Type 0) : Type 0 where
  pub id : String
  pub type : Option String
  pub x : N
  pub y : N
  pub label : String
  pub config : String

module _ {N V : Type 0} (stringify : V → String) where
  abbrev pub node_view : Node N V → NodeView N
  node_view n = record {
    id = n.id;
    type = n.type;
    x = n.x;
    y = n.y;
    label = n.body.label;
    config = stringify n.body.config;
  }

module _ {N V : Type 0} (number_eq : N → N → Bool) (stringify : V → String)
    (exact : (x y : N) → (number_eq x y ≡ true) ↔ (x ≡ y)) where
  same_node_iff :
      (a b : Node N V)
      → (same_node number_eq stringify a b ≡ true) ↔ (node_view stringify a ≡ node_view stringify b)
  same_node_iff a b = ground (
    arith,
    eq_iff a.id b.id,
    same_text_iff a.type b.type,
    exact a.x b.x,
    exact a.y b.y,
    eq_iff a.body.label b.body.label,
    eq_iff (stringify a.body.config) (stringify b.body.config),
  )

  same_nodes_iff :
      (xs ys : List (Node N V))
      → length xs ≡ length ys
      → (same_nodes number_eq stringify xs ys ≡ true)
        ↔ (map (node_view stringify) xs ≡ map (node_view stringify) ys)
  same_nodes_iff [] [] l = ground arith
  same_nodes_iff [] (b ∷ ys) l = absurd (omega arith)
  same_nodes_iff (a ∷ xs) [] l = absurd (omega arith)
  same_nodes_iff (a ∷ xs) (b ∷ ys) l =
      ground (arith, same_node_iff a b, same_nodes_iff xs ys (omega arith))

  -- Where numbers are compared exactly, two snapshots pass for the same exactly if their nodes agree,
  -- in order, in id, type, position, label and the text of the configuration, and their edges agree
  -- in id, ends and handles.
  pub equality_iff :
      (a b : Snapshot N V)
      → (equality number_eq stringify a b ≡ true) ↔ (
          (map (node_view stringify) a.nodes ≡ map (node_view stringify) b.nodes)
          × (map edge_view a.edges ≡ map edge_view b.edges))
  unfolding equality
  equality_iff a b = (
    λ e.
        let n : length a.nodes ≡ length b.nodes = ground arith in
        let m : length a.edges ≡ length b.edges = ground arith in
        ground (arith, same_nodes_iff a.nodes b.nodes n, same_edges_iff a.edges b.edges m),
    λ e.
        let n : length a.nodes ≡ length b.nodes =
          sym (length-map _ a.nodes) ∙ ap length e.0 ∙ length-map _ b.nodes in
        let m : length a.edges ≡ length b.edges =
          sym (length-map _ a.edges) ∙ ap length e.1 ∙ length-map _ b.edges in
        ground (arith, same_nodes_iff a.nodes b.nodes n, same_edges_iff a.edges b.edges m),
  )
