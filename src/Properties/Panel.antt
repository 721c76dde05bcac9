-- ===== src/Properties/Panel.antt =====
-- What the panel shows for a node: `PropertiesContent`, the debug inputs, the image preview, the
-- summaries of ports and the status row.
use workflowui.Base.{
  ℕ, String, Bool, true, false, not, ◌&&◌, ◌||◌, Option, none, some, List, [], map, includes,
  is_some, length, ltb, ◌==◌, if◌then◌else◌,
}
use workflowui.Manifest.{ConfigSection, NodeTypeSchema, node_schemas}
use workflowui.Store.{get, NodeStatus, done, NodeData}
use workflowui.Debug.{DebugState}
use workflowui.Runner.{◌<>◌, truthy, or_text}
use workflowui.Drawer.{ModelInspectRequest, join}
use workflowui.Properties.Fields.{Value, words, Config}

-- which editor of the configuration is shown
pub data Editor : Type 0 where
  vendor_editor generic_editor : Editor
  schema_editor : List ConfigSection → Editor

abbrev pub editor_of : Option NodeTypeSchema → Editor
editor_of none = generic_editor
editor_of (some schema) =
    if schema.vendor_schema
    then vendor_editor
    else elim schema.sections [ none ↦ generic_editor | some sections ↦ schema_editor sections ]

unfoldable pub config_editor : Option String → Editor
config_editor type = elim (truthy type) [
  | none ↦ generic_editor
  | some t ↦ editor_of (node_schemas t)
]

-- the text under a key, if it is one
abbrev pub words_of : Option Value → String
words_of (some (words s)) = s
words_of _ = ""

-- `s || undefined`
abbrev pub or_undefined : String → Option String
or_undefined s = if s == "" then none else some s

module _ (trim lower : String → String) where
  abbrev pub is_ncnn : Option String → Config → Bool
  is_ncnn type config =
      lower (trim (words_of (get "vendor" config))) == "ncnn"
      || includes "ncnn" (lower (or_text type ""))

  unfoldable pub inspect_request : Option String → Config → Option ModelInspectRequest
  inspect_request type config =
      let param_path = trim (words_of (get "paramPath" config)) in
      if not (param_path == "") && is_ncnn type config
      then some (record {
        vendor = "ncnn";
        param_path = param_path;
        model_path = or_undefined (trim (words_of (get "modelPath" config)));
      })
      else none

-- the preview of an image: what the hook has
pub record PreviewState (P : Type 0) : Type 0 where
  pub preview : Option P
  pub loading : Bool
  pub error : Bool

abbrev pub is_done : NodeStatus → Bool
is_done done = true
is_done _ = false

unfoldable pub preview_enabled : String → NodeStatus → Bool
preview_enabled node_type status = if node_type == "inputImage" then true else is_done status

unfoldable pub shows_preview :
    {P : Type 0} → (String → String) → String → String → PreviewState P → Bool
shows_preview trim node_type file_path s =
    if node_type == "saveImage" && not (is_some s.preview) && not s.loading && not s.error
    then false
    else if node_type == "inputImage" && trim file_path == "" && not (is_some s.preview)
    then false
    else true

-- `N` are JavaScript's numbers
pub record PortSummary (N : Type 0) : Type 0 where
  pub type : String
  pub value : Option String
  pub length : Option N
  pub preview : Option (List N)
  pub width : Option N
  pub height : Option N
  pub channels : Option N
  pub bytes : Option N

pub record InputEntry (N : Type 0) : Type 0 where
  pub handle : String
  pub source : String
  pub value : PortSummary N

-- the inputs that are shown while the run is paused at the node; `inputs_of` reads them from the
-- inspected data, where they may be missing
unfoldable pub debug_inputs :
    {N V : Type 0}
    → (V → Option (List (InputEntry N)))
    → String
    → DebugState V
    → Option (List (InputEntry N))
debug_inputs inputs_of id d = elim d.paused_at_node_id [
  | none ↦ none
  | some at ↦
      if at == id
      then elim d.inspect_data [
        | none ↦ none
        | some inspected ↦ elim (inputs_of inspected) [
          | none ↦ some []
          | some entries ↦ some entries
        ]
      ]
      else none
]

-- `print` is `String(n)`, `fixed` has three digits after the point, `count` reads a number that counts
module _ {N : Type 0} (print fixed : N → String) (count : N → ℕ) (zero_number : N) where
  abbrev pub or_zero : Option N → N
  or_zero none = zero_number
  or_zero (some n) = n

  -- a number in a template
  abbrev pub shown_number : Option N → String
  shown_number none = "undefined"
  shown_number (some n) = print n

  abbrev pub values_of : Option (List N) → List N
  values_of none = []
  values_of (some ns) = ns

  unfoldable pub tensor_preview : PortSummary N → String
  tensor_preview s =
      let shown = values_of s.preview in
      if ltb 0 (length shown)
      then "≈ ["
        <> join ", " (map fixed shown)
        <> (if ltb (length shown) (count (or_zero s.length)) then ", …" else "")
        <> "]"
      else ""

  unfoldable pub port_summary : PortSummary N → String
  unfolding tensor_preview
  port_summary s =
      if s.type == "empty"
      then "empty"
      else if s.type == "string"
      then "string: " <> or_text s.value ""
      else if s.type == "float"
      then "float: " <> or_text s.value ""
      else if s.type == "handle"
      then "handle #" <> or_text s.value ""
      else if s.type == "tensor"
      then "tensor[" <> print (or_zero s.length) <> "] " <> tensor_preview s
      else if s.type == "image"
      then "image "
        <> shown_number s.width
        <> "×"
        <> shown_number s.height
        <> "×"
        <> shown_number s.channels
        <> " ("
        <> shown_number s.bytes
        <> " B)"
      else s.type

-- the lines under the status: `one_digit` prints a number with one digit after the point
pub record StatusRow : Type 0 where
  pub error : Option String
  pub elapsed : Option String
  pub average : Option String

unfoldable pub status_row :
    {N V : Type 0} → (N → String) → (N → String) → (V → String) → NodeData N V → StatusRow
status_row one_digit print text d = record {
  error = elim d.error [ none ↦ none | some v ↦ truthy (some (text v)) ];
  elapsed = elim d.elapsed_ms [ none ↦ none | some n ↦ some ("Elapsed: " <> one_digit n <> "ms") ];
  average = elim d.avg_ms [
    | none ↦ none
    | some avg ↦ elim d.runs_count [
      | none ↦ none
      | some runs ↦ some ("Avg: " <> one_digit avg <> "ms over " <> print runs <> " runs")
    ]
  ];
}
