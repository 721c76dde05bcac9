-- ===== src/Manifest/Control.antt =====
-- Entries of `NODE_MANIFEST` in frontend/src/nodes/manifest.tsx: masks, blending, branches and inspection.
use workflowui.Base.{some, none, false, [], ◌∷◌}
use workflowui.Manifest.Types.{
  NodeManifestEntry, port, plain, section, source, target, tensor, image, generic, branch, output,
  control, debug, text, number,
}

abbrev pub segmentation_mask_entry : NodeManifestEntry
segmentation_mask_entry = record {
  type = "segmentationMask";
  label = "Segmentation Mask";
  category = output;
  ports = port "input_data" target tensor ∷ port "mask_data" source image ∷ [];
  config_sections = some (
      (section "SEGMENTATION" (
        (record (plain "width" "Width" number) {
          placeholder = some "224";
          step = some 100;
          low = some 100;
          help = some "Spatial width of the per-pixel logits tensor.";
        })
        ∷ (record (plain "height" "Height" number) {
          placeholder = some "224";
          step = some 100;
          low = some 100;
          help = some "Spatial height of the per-pixel logits tensor.";
        })
        ∷ []))
      ∷ []);
  vendor_schema = false;
}

abbrev pub composite_entry : NodeManifestEntry
composite_entry = record {
  type = "composite";
  label = "Composite";
  category = output;
  ports =
      port "foreground" target image
      ∷ port "background" target image
      ∷ port "output_data" source image
      ∷ [];
  config_sections = some (
      (section "BLEND" (
        (record (plain "opacity" "Opacity" number) {
          placeholder = some "0.5";
          step = some 5;
          low = some 0;
          high = some 100;
          help = some "Foreground opacity (0 = only background, 1 = only foreground).";
        })
        ∷ []))
      ∷ []);
  vendor_schema = false;
}

abbrev pub condition_entry : NodeManifestEntry
condition_entry = record {
  type = "condition";
  label = "Condition";
  category = control;
  ports =
      port "input_data" target tensor
      ∷ port "true_branch" source branch
      ∷ port "false_branch" source branch
      ∷ [];
  config_sections = some (
      (section "CONDITION" (
        (record (plain "expression" "Expression" text) {
          placeholder = some "max > 0.5";
          help =
              some
                "Form: <selector> <op> <number>. Selectors: max, min, mean, sum, first, [i]. Ops: > < >= <= == !=. A bare number (e.g. \"0.5\") is treated as \"first > 0.5\" for back-compat.";
        })
        ∷ []))
      ∷ []);
  vendor_schema = false;
}

abbrev pub output_entry : NodeManifestEntry
output_entry = record {
  type = "output";
  label = "Output";
  category = output;
  ports = port "data" target generic ∷ [];
  config_sections = none;
  vendor_schema = false;
}

abbrev pub debug_entry : NodeManifestEntry
debug_entry = record {
  type = "debug";
  label = "Inspect";
  category = debug;
  ports = port "data_in" target generic ∷ port "data_out" source generic ∷ [];
  config_sections = none;
  vendor_schema = false;
}
