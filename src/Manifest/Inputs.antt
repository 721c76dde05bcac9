-- ===== src/Manifest/Inputs.antt =====
-- Entries of `NODE_MANIFEST` in frontend/src/nodes/manifest.tsx: inputs and inference.
use workflowui.Base.{some, none, true, false, [], ◌∷◌}
use workflowui.Manifest.Types.{
  NodeManifestEntry, port, plain, section, is, is_or, source, target, tensor, image, net, generic,
  input, inference, text, number, textarea, select, filepath,
}

abbrev pub input_image_entry : NodeManifestEntry
input_image_entry = record {
  type = "inputImage";
  label = "Input Image";
  category = input;
  ports = port "image_data" source image ∷ [];
  config_sections = some (
      (section "IMAGE SOURCE" (
        (record (plain "filePath" "File Path" filepath) {
          placeholder = some "/path/to/image.jpg";
          help =
              some
                "Absolute path to an image file. Remember the backend reads this, not the browser.";
        })
        ∷ []))
      ∷ []);
  vendor_schema = false;
}

abbrev pub input_tensor_entry : NodeManifestEntry
input_tensor_entry = record {
  type = "inputTensor";
  label = "Input Tensor";
  category = input;
  ports = port "tensor_data" source tensor ∷ [];
  config_sections = some (
      (section "TENSOR DATA" (
        (record (plain "fillMode" "Mode" select) {
          default_value = some "manual";
          options = some (("manual", "Manual Text") ∷ ("auto", "Auto Fill (Fixed Value)") ∷ []);
        })
        ∷ (record (plain "tensorText" "Tensor Text" textarea) {
          placeholder = some "comma- or whitespace-separated floats";
          show_if = some (is_or "fillMode" "manual" "manual");
        })
        ∷ (record (plain "shape" "Shape" text) {
          placeholder = some "3, 224, 224";
          show_if = some (is "fillMode" "auto");
        })
        ∷ (record (plain "fillValue" "Fill Value" number) {
          placeholder = some "0.0";
          show_if = some (is "fillMode" "auto");
          step = some 1;
        })
        ∷ []))
      ∷ []);
  vendor_schema = false;
}

abbrev pub create_net_entry : NodeManifestEntry
create_net_entry = record {
  type = "createNet";
  label = "Create Net";
  category = inference;
  ports = port "net_handle" source net ∷ [];
  config_sections = none;
  vendor_schema = true;
}

abbrev pub inference_entry : NodeManifestEntry
inference_entry = record {
  type = "inference";
  label = "Inference";
  category = inference;
  ports =
      port "net_handle" target net
      ∷ port "input_data" target tensor
      ∷ port "output_data" source tensor
      ∷ [];
  config_sections = none;
  vendor_schema = false;
}

abbrev pub benchmark_entry : NodeManifestEntry
benchmark_entry = record {
  type = "benchmark";
  label = "Benchmark";
  category = inference;
  ports =
      port "net_handle" target net
      ∷ port "input_data" target tensor
      ∷ port "benchmark_result" source generic
      ∷ [];
  config_sections = some (
      (section "BENCHMARK OPTIONS" (
        (record (plain "duration" "Duration (seconds)" number) {
          placeholder = some "10";
          step = some 100;
          low = some 100;
          help = some "Runs inference repeatedly for this many seconds (default 10).";
        })
        ∷ []))
      ∷ []);
  vendor_schema = false;
}

abbrev pub postprocess_entry : NodeManifestEntry
postprocess_entry = record {
  type = "postprocess";
  label = "Postprocess";
  category = inference;
  ports = port "input_data" target tensor ∷ port "output_data" source tensor ∷ [];
  config_sections = some (
      (section "POSTPROCESS OPTIONS" (
        (record (plain "op" "Operation" select) {
          default_value = some "nms";
          options = some (("nms", "Non-Maximum Suppression (NMS)") ∷ ("topk", "Top-K") ∷ []);
        })
        ∷ (record (plain "iouThreshold" "IoU Threshold" number) {
          placeholder = some "0.45";
          show_if = some (is_or "op" "nms" "nms");
          step = some 1;
          low = some 0;
          high = some 100;
        })
        ∷ (record (plain "k" "K Value" number) {
          placeholder = some "1";
          show_if = some (is "op" "topk");
          step = some 100;
          low = some 100;
        })
        ∷ []))
      ∷ []);
  vendor_schema = false;
}
