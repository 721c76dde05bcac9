-- ===== src/Tests/Drawer.antt =====
-- The drawer on a model with a split.
use workflowui.Base.{
  ℕ, ◌≡◌, refl, true, List, [], ◌∷◌, map, All, Memᴰ, ◌↔◌, Distinct, ne_of_eq_false,
}
use workflowui.Drawer.{ModelBlob, ModelGraph, ModelEdge, layout_edges, canvas_shape, table_shape}
use workflowui.Drawer.Wires.{IsWire, IsNamed, layout_edges_lem}
use workflowui.Drawer.Shapes.{canvas_shape-table_shape}

-- a consumer is listed twice, and a blob has no producer
abbrev blobs : List ModelBlob
blobs =
    record {
      name = "data";
      shape = 3 ∷ 224 ∷ 224 ∷ [];
      producer = "input";
      consumers = "conv" ∷ "conv" ∷ "pool" ∷ [];
    }
    ∷ record { name = "mean"; shape = []; producer = ""; consumers = "conv" ∷ [] }
    ∷ []

abbrev graph : ModelGraph ℕ
graph = record {
  vendor = "ncnn";
  format_version = "1";
  layers = [];
  blobs = blobs;
  param_bytes = 10;
  bin_bytes = 20;
  input_blob_names = "data" ∷ [];
  output_blob_names = [];
  editable = true;
}

layout_edges_lem_example :
    Distinct (map ModelEdge.id (layout_edges graph))
    × All (IsWire graph.blobs) (layout_edges graph)
    × (Memᴰ "input->conv::data" (map ModelEdge.id (layout_edges graph))
        ↔ IsNamed graph.blobs "input->conv::data")
layout_edges_lem_example = layout_edges_lem graph "input->conv::data"

canvas_shape-table_shape_example :
    canvas_shape blobs ("data" ∷ []) ≡ table_shape blobs ("data" ∷ [])
canvas_shape-table_shape_example =
    canvas_shape-table_shape blobs ("data" ∷ []) ((ne_of_eq_false "data" "mean" refl, tt), (tt, tt))
