-- ===== src/Cards.antt =====
-- The node components of frontend/src/nodes/, with the handles of
-- frontend/src/components/LabeledHandle.tsx, and the table that picks them.
pub mod Saved
pub mod Ports
mod Types
mod Sources
mod Pictures
mod Sinks
use workflowui.Base.{String, Option, List, [], ◌∷◌}
use workflowui.Store.{Dict, get}
pub use Types.*
unfoldable pub use Sources.*
unfoldable pub use Pictures.*
unfoldable pub use Sinks.*

-- `nodeTypes` of frontend/src/nodes/index.ts
unfoldable pub node_types : {N : Type 0} → Dict (Format N → CardData N → Card)
unfolding input_image_card input_tensor_card create_net_card inference_card benchmark_card
    save_text_card save_image_card condition_card postprocess_card output_card debug_card
    tensor_to_image_card annotate_image_card draw_boxes_card segmentation_mask_card composite_card
node_types =
    ("inputImage", input_image_card)
    ∷ ("inputTensor", input_tensor_card)
    ∷ ("createNet", create_net_card)
    ∷ ("inference", inference_card)
    ∷ ("benchmark", benchmark_card)
    ∷ ("saveText", save_text_card)
    ∷ ("saveImage", save_image_card)
    ∷ ("condition", condition_card)
    ∷ ("postprocess", postprocess_card)
    ∷ ("output", output_card)
    ∷ ("debug", debug_card)
    ∷ ("tensorToImage", tensor_to_image_card)
    ∷ ("annotateImage", annotate_image_card)
    ∷ ("drawBoxes", draw_boxes_card)
    ∷ ("segmentationMask", segmentation_mask_card)
    ∷ ("composite", composite_card)
    ∷ []
