-- ===== src/Manifest/Images.antt =====
-- Entries of `NODE_MANIFEST` in frontend/src/nodes/manifest.tsx: files and annotated images.
use workflowui.Base.{some, false, [], ◌∷◌}
use workflowui.Manifest.Types.{
  NodeManifestEntry, port, plain, section, falsy, source, target, tensor, image, generic, output,
  number, select, filepath,
}

abbrev pub save_text_entry : NodeManifestEntry
save_text_entry = record {
  type = "saveText";
  label = "Save Text";
  category = output;
  ports = port "data" target generic ∷ [];
  config_sections = some (
      (section "OUTPUT FILE"
        ((record (plain "filePath" "File Path" filepath) { placeholder = some "output.txt" }) ∷ []))
      ∷ []);
  vendor_schema = false;
}

abbrev pub save_image_entry : NodeManifestEntry
save_image_entry = record {
  type = "saveImage";
  label = "Save Image";
  category = output;
  ports = port "image_data" target image ∷ [];
  config_sections = some (
      (section "OUTPUT FILE"
        ((record (plain "filePath" "File Path" filepath) { placeholder = some "output.png" }) ∷ []))
      ∷ []);
  vendor_schema = false;
}

abbrev pub tensor_to_image_entry : NodeManifestEntry
tensor_to_image_entry = record {
  type = "tensorToImage";
  label = "Tensor To Image";
  category = output;
  ports =
      port "input_data" target tensor
      ∷ port "original_image" target image
      ∷ port "image_data" source image
      ∷ [];
  config_sections = some (
      (section "RENDER SETTINGS" (
        (record (plain "width" "Width" number) {
          placeholder = some "256";
          show_if = some (falsy "original_image");
          step = some 100;
          low = some 100;
        })
        ∷ (record (plain "height" "Height" number) {
          placeholder = some "64";
          show_if = some (falsy "original_image");
          step = some 100;
          low = some 100;
        })
        ∷ (record (plain "colormap" "Colormap" select) {
          default_value = some "viridis";
          options = some (("viridis", "Viridis") ∷ ("gray", "Grayscale") ∷ []);
        })
        ∷ (record (plain "normalize" "Normalize" select) {
          default_value = some "auto";
          options = some (("auto", "Auto (min/max rescale)") ∷ ("none", "None (clamp 0–1)") ∷ []);
        })
        ∷ (record (plain "overlayOpacity" "Overlay Opacity" number) {
          placeholder = some "0.45";
          step = some 5;
          low = some 0;
          high = some 100;
          help =
              some
                "When an original image is connected, heatmap is composited over it at this opacity (0 = invisible, 1 = opaque). Ignored when no image connected.";
        })
        ∷ []))
      ∷ []);
  vendor_schema = false;
}

abbrev pub annotate_image_entry : NodeManifestEntry
annotate_image_entry = record {
  type = "annotateImage";
  label = "Annotate Image";
  category = output;
  ports =
      port "image_data" target image
      ∷ port "topk_data" target tensor
      ∷ port "output_data" source image
      ∷ [];
  config_sections = some (
      (section "ANNOTATION" (
        (record (plain "labelsPath" "Labels File" filepath) {
          placeholder = some "labels.txt";
          help =
              some
                "Path to a text file with one class label per line. When empty, indices are shown instead.";
        })
        ∷ (record (plain "maxLines" "Max Lines" number) {
          placeholder = some "5";
          step = some 100;
          low = some 100;
          help = some "Maximum number of top-K lines to render.";
        })
        ∷ (record (plain "fontScale" "Font Scale" number) {
          placeholder = some "2";
          step = some 100;
          low = some 100;
          help = some "Multiplier for the 5×7 bitmap font. 1 = smallest, 2 = default.";
        })
        ∷ []))
      ∷ []);
  vendor_schema = false;
}

abbrev pub draw_boxes_entry : NodeManifestEntry
draw_boxes_entry = record {
  type = "drawBoxes";
  label = "Draw Boxes";
  category = output;
  ports =
      port "image_data" target image
      ∷ port "boxes_data" target tensor
      ∷ port "output_data" source image
      ∷ [];
  config_sections = some (
      (section "BOX RENDERING" (
        (record (plain "confidenceThreshold" "Confidence Threshold" number) {
          placeholder = some "0.25";
          step = some 5;
          low = some 0;
          high = some 100;
        })
        ∷ (record (plain "lineWidth" "Line Width" number) {
          placeholder = some "2";
          step = some 100;
          low = some 100;
        })
        ∷ (record (plain "fontScale" "Font Scale" number) {
          placeholder = some "1";
          step = some 100;
          low = some 100;
        })
        ∷ (record (plain "maxBoxes" "Max Boxes" number) {
          placeholder = some "100";
          step = some 100;
          low = some 100;
        })
        ∷ (record (plain "normalizedCoords" "Normalized Coords" select) {
          default_value = some "false";
          options = some (("false", "Pixel coordinates") ∷ ("true", "Normalized (0–1)") ∷ []);
          help = some "Enable when box coordinates are in [0,1] rather than pixels.";
        })
        ∷ (record (plain "labelsPath" "Labels File" filepath) {
          placeholder = some "labels.txt";
          help = some "Optional class labels file (one per line) for per-box class names.";
        })
        ∷ []))
      ∷ []);
  vendor_schema = false;
}
