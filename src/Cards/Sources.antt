-- ===== src/Cards/Sources.antt =====
-- InputImageNode, InputTensorNode, CreateNetNode, InferenceNode, BenchmarkNode and PostprocessNode.
use workflowui.Base.{String, Option, none, some, [], ◌∷◌, ◌==◌, if◌then◌else◌}
use workflowui.Manifest.{tensor, image, net, generic}
use workflowui.Store.{get, put}
use workflowui.Canvas.{status_text}
use workflowui.Runner.{◌<>◌}
use workflowui.Properties.{Config, is_words, is_ticked, words}
use workflowui.Cards.Types.{
  Card, CardData, Format, into, out_of, setting, plain_class, elapsed_footer, nonempty,
}

module _ {N : Type 0} (fmt : Format N) where
  unfoldable pub input_image_card : CardData N → Card
  input_image_card d = record {
    class_name = plain_class;
    title = "Input Image";
    body = setting d "filePath" "No file selected" ∷ [];
    status = status_text d.status;
    footer = none;
    handles = out_of "image_data" "image" image ∷ [];
  }

  unfoldable pub input_tensor_card : CardData N → Card
  input_tensor_card d = record {
    class_name = plain_class;
    title = "Input Tensor";
    body =
        if is_words "auto" (get "fillMode" d.config)
        then ("Shape: " <> setting d "shape" "1") ∷ ("Fill: " <> setting d "fillValue" "0.0") ∷ []
        else setting d "tensorText" "" ∷ [];
    status = status_text d.status;
    footer = none;
    handles = out_of "tensor_data" "tensor" tensor ∷ [];
  }

  unfoldable pub create_net_card : CardData N → Card
  create_net_card d = record {
    class_name = plain_class;
    title = "Create Net";
    body = nonempty (fmt.upper (setting d "vendor" "")) (
        setting d "paramPath" (setting d "modelPath" "No model path")
        ∷ (if is_ticked (get "emptyWeights" d.config) then "empty weights" ∷ [] else []));
    status = status_text d.status;
    footer = elapsed_footer fmt d.elapsed_ms;
    handles = out_of "net_handle" "net" net ∷ [];
  }

  unfoldable pub inference_card : CardData N → Card
  inference_card d = record {
    class_name = plain_class;
    title = "Inference";
    body = "Execute inference" ∷ [];
    status = status_text d.status;
    footer = elapsed_footer fmt d.elapsed_ms;
    handles =
        into "net_handle" "net" net
        ∷ record (into "input_data" "input" tensor) { top = 75 }
        ∷ out_of "output_data" "output" tensor
        ∷ [];
  }

  -- `durationSec`, with 10 where no duration is configured
  abbrev pub duration_text : Option N → String
  duration_text none = "10"
  duration_text (some n) = fmt.print n

  abbrev pub average_footer : Option N → Option N → Option String
  average_footer (some runs) (some avg) =
      some (fmt.print runs <> " runs, " <> fmt.fixed 2 avg <> "ms avg")
  average_footer _ _ = none

  unfoldable pub benchmark_card : CardData N → Card
  benchmark_card d = record {
    class_name = plain_class;
    title = "Benchmark";
    body =
        (duration_text (elim (get "duration" d.config) [ none ↦ none | some v ↦ fmt.positive v ])
          <> "s stress test")
        ∷ [];
    status = status_text d.status;
    footer = average_footer d.runs_count d.avg_ms;
    handles =
        into "net_handle" "net" net
        ∷ record (into "input_data" "input" tensor) { top = 75 }
        ∷ out_of "benchmark_result" "result" generic
        ∷ [];
  }

  unfoldable pub postprocess_card : CardData N → Card
  postprocess_card d = record {
    class_name = plain_class;
    title = "Postprocess";
    body =
        fmt.upper (setting d "op" "nms")
        ∷ (if setting d "op" "nms" == "nms"
            then "IoU: " <> setting d "iouThreshold" "0.45"
            else "K: " <> setting d "k" "1")
        ∷ [];
    status = status_text d.status;
    footer = none;
    handles = into "input_data" "input" tensor ∷ out_of "output_data" "output" tensor ∷ [];
  }

-- `handleTextChange` of InputTensorNode, on the configuration
unfoldable pub handle_text_change : String → Config → Config
handle_text_change value config = put "tensorText" (words value) config
