-- ===== src/Properties/Fields.antt =====
-- Configurations and the fields that edit them: `SchemaSection` and `FieldRenderer`.
use workflowui.Base.{
  ℕ, String, Bool, true, false, not, Option, none, some, List, [], filter, length, eqb, ◌==◌,
  if◌then◌else◌,
}
use workflowui.Manifest.{
  ConfigField, ConfigSection, ShowIf, is, is_or, falsy, FieldKind, text, number, textarea, select,
  checkbox, filepath,
}
use workflowui.Store.{Dict, get, put}

-- a value of `config`: a text, a truth value, `null`, or any other value by its text and truth
pub data Value : Type 0 where
  words : String → Value
  truth : Bool → Value
  nothing : Value
  printed : String → Bool → Value

abbrev pub Config : Type 0
Config = Dict Value

-- `handleConfigChange`: `{ ...config, [key]: value }`
unfoldable pub handle_config_change : String → String → Config → Config
handle_config_change key value config = put key (words value) config

abbrev pub is_words : String → Option Value → Bool
is_words t (some (words s)) = s == t
is_words t _ = false

-- `v ?? default` compared with a text by `===`
abbrev pub is_words_or : String → String → Option Value → Bool
is_words_or default t none = default == t
is_words_or default t (some nothing) = default == t
is_words_or default t (some (words s)) = s == t
is_words_or default t (some _) = false

abbrev pub is_falsy : Option Value → Bool
is_falsy none = true
is_falsy (some (words s)) = s == ""
is_falsy (some (truth b)) = not b
is_falsy (some nothing) = true
is_falsy (some (printed t b)) = not b

-- `f.showIf(config)`
unfoldable pub shows : ShowIf → Config → Bool
shows (is key t) config = is_words t (get key config)
shows (is_or key default t) config = is_words_or default t (get key config)
shows (falsy key) config = is_falsy (get key config)

abbrev pub is_visible : Config → Option ShowIf → Bool
is_visible config none = true
is_visible config (some p) = shows p config

unfoldable pub visible_fields : ConfigSection → Config → List ConfigField
unfolding shows
visible_fields section config = filter (λ f. is_visible config f.show_if) section.fields

-- whether the section is rendered
unfoldable pub shows_section : ConfigSection → Config → Bool
unfolding visible_fields
shows_section section config = not (eqb (length (visible_fields section config)) 0)

abbrev pub or_blank : Option String → String
or_blank none = ""
or_blank (some t) = t

abbrev pub truth_text : Bool → String
truth_text true = "true"
truth_text false = "false"

-- `raw === undefined || raw === null ? (field.defaultValue ?? '') : String(raw)`
abbrev pub text_of : Option String → Option Value → String
text_of default none = or_blank default
text_of default (some nothing) = or_blank default
text_of default (some (words s)) = s
text_of default (some (truth b)) = truth_text b
text_of default (some (printed t b)) = t

unfoldable pub field_value : ConfigField → Config → String
field_value field config = text_of field.default_value (get field.key config)

-- what a field is drawn with: the element, its value or tick, and the attributes
pub data Control : Type 0 where
  drop_down : String → List (String × String) → Control
  tick_box : Bool → Control
  text_area : String → Option String → Control
  number_input : String → Option String → Option ℕ → Option ℕ → Option ℕ → Control
  path_input : String → Option String → String → Control
  text_input : String → Option String → Control

abbrev pub options_of : Option (List (String × String)) → List (String × String)
options_of none = []
options_of (some os) = os

pub record FieldView : Type 0 where
  pub label : String
  pub help : Option String
  pub control : Control

abbrev pub control_of : FieldKind → ConfigField → String → Control
control_of select f value = drop_down value (options_of f.options)
control_of checkbox f value = tick_box (value == "true")
control_of textarea f value = text_area value f.placeholder
control_of number f value = number_input value f.placeholder f.step f.low f.high
control_of filepath f value = path_input value f.placeholder f.label
control_of text f value = text_input value f.placeholder

unfoldable pub render_field : ConfigField → Config → FieldView
unfolding field_value
render_field f config = record {
  label = f.label;
  help = f.help;
  control = control_of f.kind f (field_value f config);
}

-- what the user does to a field: types or chooses a text, ticks, or picks a path, if any
pub data Edit : Type 0 where
  enters : String → Edit
  ticks : Bool → Edit
  picks : Option String → Edit

-- the calls of `onChange`
unfoldable pub edit_field : ConfigField → Edit → Config → Config
unfolding handle_config_change
edit_field f (enters value) config = handle_config_change f.key value config
edit_field f (ticks checked) config = handle_config_change f.key (truth_text checked) config
edit_field f (picks none) config = config
edit_field f (picks (some path)) config =
    if path == "" then config else handle_config_change f.key path config
