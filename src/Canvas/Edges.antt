-- ===== src/Canvas/Edges.antt =====
-- Which edges the canvas draws as cyclic.
use workflowui.Base.{String, Bool, List, any, ◌==◌}
use workflowui.Store.{Edge}
use workflowui.Canvas.{EdgeLook, edge_look, cyclic_edge_ids}

module _ {V : Type 0} (data_type : V → String) where
  abbrev look_of_edge : Bool → List (Edge V) → Edge V → EdgeLook V
  look_of_edge is_running es e =
      edge_look (any (λ id. id == e.id) (cyclic_edge_ids data_type es)) is_running
        (data_type e.rest) e
