-- ===== src/Tests/Canvas.antt =====
-- The canvas on a graph with a loop, and on gestures.
use workflowui.Base.{◌≡◌, ℕ, String, true, false, none, some, List, [], ◌∷◌, map}
use workflowui.Ports.{ConnectionLike}
use workflowui.Canvas.{Canvas, View, EdgeLook, edge_look, on_connect_start, on_connect_end}
use workflowui.Canvas.Cache.{fresh_classes, render_all, render_all_lem}
use workflowui.Canvas.Gesture.{ask_all, last_reason, closed_with, gesture_lem}
use workflowui.Tests.Store.{small, edge_of, node_of}
use workflowui.Tests.Actions.{desk}

-- the same node with a breakpoint and without, after another that is gone by then
abbrev views : List (View ℕ ℕ)
views =
    record {
      nodes = small.nodes;
      selected_id = some "a";
      breakpoints = record { node_id = "b"; enabled = true } ∷ [];
    }
    ∷ record { nodes = node_of "b" "second" ∷ []; selected_id = none; breakpoints = [] }
    ∷ []

render_all_lem_example : render_all views [] ≡ map (λ v. fresh_classes v v.nodes) views
render_all_lem_example = render_all_lem views

abbrev image_edges : ℕ → String
image_edges n = "image"

abbrev looped : EdgeLook ℕ
looped = edge_look true false "image" (edge_of "f" "b" "b")

abbrev canvas : Canvas ℕ ℕ
canvas = record { session = desk; last_rejection = none; context_menu = none }

abbrev to : String → String → ConnectionLike
to id handle = record {
  source = some "a";
  source_handle = some "net_handle";
  target = some id;
  target_handle = some handle;
}

-- from a node to itself, which does not fit, and then to another
gesture_lem_example :
    let conns = to "a" "net_handle" ∷ to "b" "net_handle" ∷ [] in
    on_connect_end (ask_all conns (on_connect_start canvas))
    ≡ closed_with (last_reason canvas conns none) canvas
gesture_lem_example = gesture_lem (to "a" "net_handle" ∷ to "b" "net_handle" ∷ []) canvas
