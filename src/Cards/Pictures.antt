-- ===== src/Cards/Pictures.antt =====
-- TensorToImageNode, AnnotateImageNode, DrawBoxesNode, SegmentationMaskNode and CompositeNode.
use workflowui.Base.{none, some, [], ◌∷◌, if◌then◌else◌}
use workflowui.Manifest.{tensor, image}
use workflowui.Store.{get}
use workflowui.Canvas.{status_text}
use workflowui.Runner.{◌<>◌}
use workflowui.Properties.{is_falsy, text_of}
use workflowui.Cards.Types.{Card, CardData, Format, into, out_of, setting, output_class}

module _ {N : Type 0} (fmt : Format N) where
  unfoldable pub tensor_to_image_card : CardData N → Card
  tensor_to_image_card d = record {
    class_name = output_class;
    title = "Tensor To Image";
    body =
        (setting d "colormap" "viridis"
          <> " · "
          <> setting d "width" "256"
          <> "×"
          <> setting d "height" "64"
          <> (if is_falsy (get "overlayOpacity" d.config)
              then ""
              else " · overlay " <> setting d "overlayOpacity" ""))
        ∷ [];
    status = status_text d.status;
    footer = none;
    handles =
        into "input_data" "tensor" tensor
        ∷ into "original_image" "original" image
        ∷ out_of "image_data" "image" image
        ∷ [];
  }

  unfoldable pub annotate_image_card : CardData N → Card
  annotate_image_card d = record {
    class_name = output_class;
    title = "Annotate Image";
    body =
        ((if is_falsy (get "labelsPath" d.config) then "show indices" else "labels loaded")
          <> " · top-"
          <> setting d "maxLines" "5")
        ∷ [];
    status = status_text d.status;
    footer = none;
    handles =
        into "image_data" "image" image
        ∷ into "topk_data" "topk" tensor
        ∷ out_of "output_data" "image" image
        ∷ [];
  }

  unfoldable pub draw_boxes_card : CardData N → Card
  draw_boxes_card d = record {
    class_name = output_class;
    title = "Draw Boxes";
    body = ("conf ≥ " <> setting d "confidenceThreshold" "0.25") ∷ [];
    status = status_text d.status;
    footer = none;
    handles =
        into "image_data" "image" image
        ∷ into "boxes_data" "boxes" tensor
        ∷ out_of "output_data" "image" image
        ∷ [];
  }

  unfoldable pub segmentation_mask_card : CardData N → Card
  segmentation_mask_card d = record {
    class_name = output_class;
    title = "Segmentation Mask";
    body = (setting d "width" "224" <> "×" <> setting d "height" "224" <> " pixels") ∷ [];
    status = status_text d.status;
    footer = none;
    handles = into "input_data" "logits" tensor ∷ out_of "mask_data" "mask" image ∷ [];
  }

  unfoldable pub composite_card : CardData N → Card
  composite_card d = record {
    class_name = output_class;
    title = "Composite";
    body = ("opacity " <> text_of (some "0.5") (get "opacity" d.config)) ∷ [];
    status = status_text d.status;
    footer = none;
    handles =
        into "foreground" "foreground" image
        ∷ into "background" "background" image
        ∷ out_of "output_data" "image" image
        ∷ [];
  }
