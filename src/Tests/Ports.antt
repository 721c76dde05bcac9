-- ===== src/Tests/Ports.antt =====
-- The registry and the connection rules on concrete nodes.
use workflowui.Base.{◌≡◌, ◌↔◌, refl, String, true, false, some, List, [], ◌∷◌}
use workflowui.Manifest.{node_ports}
use workflowui.Ports.{ConnectionLike, NodeLike, is_connection_valid, validate_connection}
use workflowui.Ports.Validate.{IsLegal, is_connection_valid_iff}

abbrev canvas : List NodeLike
canvas =
    record { id = "n1"; type = some "inputImage" }
    ∷ record { id = "n2"; type = some "inference" }
    ∷ []

abbrev wire : String → ConnectionLike
wire handle = record {
  source = some "n1";
  source_handle = some "image_data";
  target = some "n2";
  target_handle = some handle;
}

image_to_tensor : is_connection_valid (wire "input_data") canvas ≡ true
unfolding is_connection_valid node_ports
image_to_tensor = refl

image_to_net : (validate_connection (wire "net_handle") canvas).ok ≡ false
unfolding validate_connection node_ports
image_to_net = refl

is_connection_valid_iff_example :
    (is_connection_valid (wire "input_data") canvas ≡ true) ↔ IsLegal (wire "input_data") canvas
is_connection_valid_iff_example = is_connection_valid_iff (wire "input_data") canvas
