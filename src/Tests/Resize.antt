-- ===== src/Tests/Resize.antt =====
-- A panel between 100 and 300, dragged too far.
use workflowui.Base.{ℕ, ◌≡◌, refl, ℤ, pos, String, Option, none, some, List, [], ◌∷◌, true}
use workflowui.Resize.{
  ResizableOptions, Panel, Event, down, move, mount, run, step, on_mouse_down, on_mouse_move,
}

abbrev options : ResizableOptions
options = record { min_size = 100; max_size = 300; initial_size = 240; is_stored = true }

abbrev parse : String → Option ℤ
parse text = some (pos 300)

abbrev decimal : ℕ → String
decimal n = "300"

abbrev drag : List Event
drag = down (pos 240) ∷ move (pos 260) ∷ move (pos 900) ∷ []

dragged_size : (run decimal options drag (mount parse options none)).size ≡ 300
unfolding run step on_mouse_down on_mouse_move mount
dragged_size = refl

abbrev held : Panel
held = record {
  size = 300;
  is_resizing = true;
  start_pos = pos 240;
  start_size = 240;
  storage = none;
}
