-- ===== src/Cards/Sinks.antt =====
-- SaveTextNode, SaveImageNode, ConditionNode, OutputNode and DebugNode.
use workflowui.Base.{
  String, Bool, not, ◌&&◌, Option, none, some, List, [], ◌∷◌, length, suc, if◌then◌else◌,
}
use workflowui.Manifest.{tensor, image, generic, branch}
use workflowui.Store.{NodeStatus, running, done, paused}
use workflowui.Canvas.{status_text}
use workflowui.Runner.{◌<>◌}
use workflowui.Cards.Types.{
  Card, CardData, Format, Output, words_output, numbers, items, other_output, into, out_of, setting,
  plain_class, output_class, first_chars, longer_than,
}

module _ {N : Type 0} (fmt : Format N) where
  unfoldable pub save_text_card : CardData N → Card
  save_text_card d = record {
    class_name = plain_class;
    title = "Save Text";
    body = setting d "filePath" "output.txt" ∷ [];
    status = status_text d.status;
    footer = none;
    handles = into "data" "data" generic ∷ [];
  }

  unfoldable pub save_image_card : CardData N → Card
  save_image_card d = record {
    class_name = plain_class;
    title = "Save Image";
    body = setting d "filePath" "output.png" ∷ [];
    status = status_text d.status;
    footer = none;
    handles = into "image_data" "image" image ∷ [];
  }

  unfoldable pub condition_card : CardData N → Card
  condition_card d = record {
    class_name = plain_class;
    title = "Condition";
    body = setting d "expression" "value > threshold" ∷ [];
    status = status_text d.status;
    footer = none;
    handles =
        into "input_data" "input" tensor
        ∷ record (out_of "true_branch" "true" branch) { top = 35 }
        ∷ record (out_of "false_branch" "false" branch) { top = 75 }
        ∷ [];
  }

  -- `OutputSummary`
  unfoldable pub output_summary : Output N → List String
  output_summary (words_output s) = (if longer_than 60 s then first_chars 57 s <> "..." else s) ∷ []
  output_summary (numbers v vs) =
      (fmt.decimal (suc (length vs)) <> " values")
      ∷ ("[" <> fmt.fixed 4 (fmt.lowest v vs) <> ", " <> fmt.fixed 4 (fmt.highest v vs) <> "]")
      ∷ ("mean: " <> fmt.fixed 4 (fmt.mean v vs))
      ∷ []
  output_summary (items n) = (fmt.decimal n <> " items") ∷ []
  output_summary (other_output s) = first_chars 40 s ∷ []

  unfoldable pub output_card : CardData N → Card
  unfolding output_summary
  output_card d = record {
    class_name = output_class;
    title = "Output";
    body = elim d.output [ none ↦ "Waiting for data..." ∷ [] | some o ↦ output_summary o ];
    status = status_text d.status;
    footer = none;
    handles = into "data" "data" generic ∷ [];
  }

  -- `getStatusText`
  abbrev pub inspect_text : NodeStatus → Bool → String
  inspect_text paused is_connected = "Paused - inspect data"
  inspect_text running is_connected = "Inspecting…"
  inspect_text done is_connected = "Passed through"
  inspect_text _ is_connected = if not is_connected then "Connect input & output" else "Idle"

  abbrev pub inspect_output : NodeStatus → Option (Output N) → List String
  inspect_output paused (some (words_output s)) = s ∷ []
  inspect_output done (some (words_output s)) = s ∷ []
  inspect_output paused (some o) = fmt.json o ∷ []
  inspect_output done (some o) = fmt.json o ∷ []
  inspect_output _ _ = []

  unfoldable pub debug_card : CardData N → Card
  debug_card d = record {
    class_name = plain_class;
    title = "Inspect";
    body =
        inspect_text d.status (d.has_input && d.has_output)
        ∷ "Right-click to add breakpoint"
        ∷ inspect_output d.status d.output;
    status = status_text d.status;
    footer = none;
    handles = into "data_in" "in" generic ∷ out_of "data_out" "out" generic ∷ [];
  }
