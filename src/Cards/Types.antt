-- ===== src/Cards/Types.antt =====
-- What a node component shows. `N` is the type of JavaScript's numbers.
use workflowui.Base.{
  ℕ, zero, suc, String, Bool, true, false, Option, none, some, List, ◌∷◌, if◌then◌else◌, ◌==◌,
}
use workflowui.Manifest.{DataType, Direction, source, target}
use workflowui.Store.{NodeStatus, get}
use workflowui.Runner.{◌<>◌}
use workflowui.Properties.{Value, Config, words_or}

-- the side of the node on which a handle stands
pub data Side : Type 0 where
  left right : Side

-- a `LabeledHandle`; `top` is the place along the side in percent, 50 where it is not given
pub record HandleDef : Type 0 where
  pub direction : Direction
  pub side : Side
  pub id : String
  pub label : String
  pub data_type : DataType
  pub top : ℕ

abbrev pub into : String → String → DataType → HandleDef
into id label t = record {
  direction = target;
  side = left;
  id = id;
  label = label;
  data_type = t;
  top = 50;
}

abbrev pub out_of : String → String → DataType → HandleDef
out_of id label t = record {
  direction = source;
  side = right;
  id = id;
  label = label;
  data_type = t;
  top = 50;
}

pub data Output (N : Type 0) : Type 0 where
  words_output : String → Output N
  numbers : N → List N → Output N
  items : ℕ → Output N
  other_output : String → Output N

-- the data of a node, as its component reads it
pub record CardData (N : Type 0) : Type 0 where
  pub status : NodeStatus
  pub config : Config
  pub elapsed_ms : Option N
  pub runs_count : Option N
  pub avg_ms : Option N
  pub output : Option (Output N)
  -- whether an edge ends and whether one starts at the node
  pub has_input : Bool
  pub has_output : Bool

-- how numbers and texts are printed and read: `print` is `String(n)`, `fixed` is `toFixed`, and
-- `positive` is `Number(v)` where that is finite and positive
pub record Format (N : Type 0) : Type 0 where
  pub print : N → String
  pub fixed : ℕ → N → String
  pub decimal : ℕ → String
  pub positive : Value → Option N
  pub upper : String → String
  pub lowest : N → List N → N
  pub highest : N → List N → N
  pub mean : N → List N → N
  pub json : Output N → String

-- the body is a list of lines, the footer what stands beside the status
pub record Card : Type 0 where
  pub class_name : String
  pub title : String
  pub body : List String
  pub status : String
  pub footer : Option String
  pub handles : List HandleDef

abbrev pub plain_class : String
plain_class = "workflow-node"

abbrev pub output_class : String
output_class = "workflow-node node-output"

-- `config[key] || other`
abbrev pub setting : {N : Type 0} → CardData N → String → String → String
setting d key other = words_or (get key d.config) other

abbrev pub elapsed_footer : {N : Type 0} → Format N → Option N → Option String
elapsed_footer fmt none = none
elapsed_footer fmt (some n) = some (fmt.fixed 1 n <> "ms")

-- the first `n` characters
abbrev pub first_chars : ℕ → String → String
first_chars zero s = ""
first_chars (suc n) String.[] = ""
first_chars (suc n) (String.◌∷◌ c s) = String.◌∷◌ c (first_chars n s)

abbrev pub longer_than : ℕ → String → Bool
longer_than n String.[] = false
longer_than zero (String.◌∷◌ c s) = true
longer_than (suc n) (String.◌∷◌ c s) = longer_than n s

abbrev pub nonempty : String → List String → List String
nonempty s rest = if s == "" then rest else s ∷ rest
