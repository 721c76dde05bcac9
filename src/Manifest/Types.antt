-- ===== src/Manifest/Types.antt =====
-- The types of the node registry: frontend/src/nodes/manifest.tsx and configSchemas.ts. Icons are
-- left out; numeric bounds and steps are in hundredths.
use workflowui.Base.{ℕ, String, Bool, Option, none, List}

-- `HandleDataType`
pub data DataType : Type 0 where
  tensor image net generic branch : DataType

pub data Direction : Type 0 where
  source target : Direction

pub data NodeCategory : Type 0 where
  input inference output control debug : NodeCategory

pub data FieldKind : Type 0 where
  text number textarea select checkbox filepath : FieldKind

pub record PortDef : Type 0 where
  pub id : String
  pub direction : Direction
  pub data_type : DataType

abbrev pub port : String → Direction → DataType → PortDef
port id d t = record { id = id; direction = d; data_type = t }

-- The predicates that the registry writes for `showIf`: `c.key === value`,
-- `(c.key ?? default) === value` and `!c.key`.
pub data ShowIf : Type 0 where
  is : String → String → ShowIf
  is_or : String → String → String → ShowIf
  falsy : String → ShowIf

pub record ConfigField : Type 0 where
  pub key : String
  pub label : String
  pub kind : FieldKind
  pub placeholder : Option String
  pub default_value : Option String
  pub options : Option (List (String × String))
  pub show_if : Option ShowIf
  pub step : Option ℕ
  pub low : Option ℕ
  pub high : Option ℕ
  pub help : Option String

-- a field with none of the optional properties
abbrev pub plain : String → String → FieldKind → ConfigField
plain key label kind = record {
  key = key;
  label = label;
  kind = kind;
  placeholder = none;
  default_value = none;
  options = none;
  show_if = none;
  step = none;
  low = none;
  high = none;
  help = none;
}

pub data Layout : Type 0 where
  stack row_3 : Layout

pub record ConfigSection : Type 0 where
  pub title : String
  pub fields : List ConfigField
  pub layout : Option Layout

-- a section with no layout of its own
abbrev pub section : String → List ConfigField → ConfigSection
section title fields = record { title = title; fields = fields; layout = none }

pub record NodeManifestEntry : Type 0 where
  pub type : String
  pub label : String
  pub category : NodeCategory
  pub ports : List PortDef
  pub config_sections : Option (List ConfigSection)
  pub vendor_schema : Bool

pub record CategoryVisual : Type 0 where
  pub label : String
  pub color : String
  pub css_class : String

abbrev pub category_visuals : NodeCategory → CategoryVisual
category_visuals input = record { label = "INPUT"; color = "#2a9d8f"; css_class = "node-input" }
category_visuals inference = record {
  label = "INFERENCE";
  color = "#9b59b6";
  css_class = "node-inference";
}
category_visuals output = record { label = "OUTPUT"; color = "#2ecc71"; css_class = "node-output" }
category_visuals control = record {
  label = "CONTROL";
  color = "#6080c0";
  css_class = "node-control";
}
category_visuals debug = record { label = "DEBUG"; color = "#e0c080"; css_class = "node-debug" }
