-- ===== src/Drawer/Layers.antt =====
-- `layoutGraph` and the table of layers.
use workflowui.Base.{
  ℕ, ◌+◌, String, Bool, true, false, Option, none, some, List, [], ◌∷◌, ◌++◌, map, any, find?,
  length, ◌==◌, if◌then◌else◌,
}
use workflowui.Store.{Dict, get, put}
use workflowui.Runner.{◌<>◌}
use workflowui.Drawer.Types.{ModelLayer, ModelBlob, ModelGraph, ParamValue}
use workflowui.Drawer.Labels.{fmt_shape, header_bg_for}

-- an edge of the drawer, its style left out
pub record ModelEdge : Type 0 where
  pub id : String
  pub source : String
  pub target : String
  pub label : String

-- the loop's `edgeKey` and `edges`, the latter being what dagre is told too
pub record Wiring : Type 0 where
  pub edge_key : List String
  pub edges : List ModelEdge

abbrev pub key_of : ModelBlob → String → String
key_of blob consumer = blob.producer <> "->" <> consumer <> "::" <> blob.name

abbrev pub edge_of : ModelBlob → String → ModelEdge
edge_of blob consumer = record {
  id = key_of blob consumer;
  source = blob.producer;
  target = consumer;
  label = blob.name;
}

-- one round of the inner loop
unfoldable pub add_wire : ModelBlob → String → Wiring → Wiring
add_wire blob consumer w = if any (λ k. k == key_of blob consumer) w.edge_key then w else record {
  edge_key = w.edge_key ++ key_of blob consumer ∷ [];
  edges = w.edges ++ edge_of blob consumer ∷ [];
}

unfoldable pub add_wires : ModelBlob → List String → Wiring → Wiring
unfolding add_wire
add_wires blob [] w = w
add_wires blob (c ∷ cs) w = add_wires blob cs (add_wire blob c w)

unfoldable pub wire_all : List ModelBlob → Wiring → Wiring
unfolding add_wires
wire_all [] w = w
wire_all (b ∷ bs) w = wire_all bs (if b.producer == "" then w else add_wires b b.consumers w)

unfoldable pub layout_edges : {N : Type 0} → ModelGraph N → List ModelEdge
unfolding wire_all
layout_edges graph = (wire_all graph.blobs (record { edge_key = []; edges = [] })).edges

-- the map `blobShape`
abbrev pub shapes_from : Dict (List ℕ) → List ModelBlob → Dict (List ℕ)
shapes_from m [] = m
shapes_from m (b ∷ bs) = shapes_from (put b.name b.shape m) bs

-- `output_blobs[0]`, which counts as absent where it is empty
abbrev pub first_out : List String → Option String
first_out [] = none
first_out (b ∷ bs) = if b == "" then none else some b

abbrev pub or_nil : Option (List ℕ) → List ℕ
or_nil none = []
or_nil (some shape) = shape

-- the shape under a layer of the canvas
unfoldable pub canvas_shape : List ModelBlob → List String → List ℕ
canvas_shape blobs outputs = elim (first_out outputs) [
  | none ↦ []
  | some name ↦ or_nil (get name (shapes_from [] blobs))
]

abbrev pub shape_of : Option ModelBlob → List ℕ
shape_of none = []
shape_of (some b) = b.shape

-- the shape in a row of the table
unfoldable pub table_shape : List ModelBlob → List String → List ℕ
table_shape blobs outputs = elim (first_out outputs) [
  | none ↦ []
  | some name ↦ shape_of (find? (λ b. b.name == name) blobs)
]

pub record LayerNode (N : Type 0) : Type 0 where
  pub id : String
  pub type : String
  pub x : N
  pub y : N
  pub out_shape : String
  pub key_params : String
  pub header_bg : String
  pub selected : Bool
  pub light : Bool

pub record LayerRow : Type 0 where
  pub index : ℕ
  pub type : String
  pub name : String
  pub ins : ℕ
  pub outs : ℕ
  pub out_shape : String
  pub selected : Bool

abbrev pub is_chosen : Option String → String → Bool
is_chosen none id = false
is_chosen (some selected) id = id == selected

module _ {N : Type 0} (decimal : ℕ → String) where
  abbrev pub row : Option String → List ModelBlob → ℕ → ModelLayer N → LayerRow
  row selected blobs i l = record {
    index = i;
    type = l.type;
    name = l.id;
    ins = length l.input_blobs;
    outs = length l.output_blobs;
    out_shape = fmt_shape decimal (table_shape blobs l.output_blobs);
    selected = is_chosen selected l.id;
  }

  unfoldable pub rows_from :
      Option String → List ModelBlob → ℕ → List (ModelLayer N) → List LayerRow
  unfolding table_shape fmt_shape
  rows_from selected blobs i [] = []
  rows_from selected blobs i (l ∷ ls) = row selected blobs i l ∷ rows_from selected blobs (i + 1) ls

  -- `place` is dagre's corner of a layer's box; the other functions are those of the labels
  module _ (place : String → N × N) (params_text : String → Dict (ParamValue N) → String) where
    abbrev pub layer_node : Bool → List ModelBlob → ModelLayer N → LayerNode N
    layer_node light blobs l = record {
      id = l.id;
      type = l.type;
      x = (place l.id).0;
      y = (place l.id).1;
      out_shape = fmt_shape decimal (canvas_shape blobs l.output_blobs);
      key_params = params_text l.type l.params;
      header_bg = header_bg_for l.type light;
      selected = false;
      light = light;
    }

    unfoldable pub layout_nodes : Bool → ModelGraph N → List (LayerNode N)
    unfolding canvas_shape fmt_shape header_bg_for
    layout_nodes light graph = map (layer_node light graph.blobs) graph.layers

-- `styledNodes` of the drawer
unfoldable pub highlighted : {N : Type 0} → Option String → List (LayerNode N) → List (LayerNode N)
highlighted {N} selected ns =
    map {A = LayerNode N} {B = LayerNode N}
      (λ n. if is_chosen selected n.id then record n { selected = true } else n) ns
