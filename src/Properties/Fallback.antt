-- ===== src/Properties/Fallback.antt =====
-- `FallbackNcnnConfig`, the form for a network when the backend has given no schema, and the keys that
-- the panel's editors offer.
use workflowui.Base.{
  String, Bool, true, false, Option, none, some, List, [], ◌∷◌, ◌++◌, map, ◌==◌, if◌then◌else◌,
}
use workflowui.Manifest.{ConfigField, ConfigSection}
use workflowui.Store.{get}
use workflowui.Properties.Fields.{
  Config, Edit, enters, ticks, picks, truth_text, handle_config_change,
}
use workflowui.Properties.Panel.{Editor, vendor_editor, generic_editor, schema_editor}
use workflowui.Properties.Vendors.{
  VendorFieldDef, VendorSchema, VendorControl, vendor_tick, vendor_path, vendor_text, is_ticked,
  words_or,
}

-- a path has the title and the filter of its file picker
pub data FallbackKind : Type 0 where
  picked_path : String → String × String → FallbackKind
  ticked plain_field : FallbackKind

pub record FallbackField : Type 0 where
  pub label : String
  pub key : String
  pub placeholder : Option String
  pub kind : FallbackKind

pub record FallbackSection : Type 0 where
  pub title : String
  pub is_row : Bool
  pub fields : List FallbackField

-- a `PlainField`
abbrev pub plain_input : String → String → String → FallbackField
plain_input label key placeholder = record {
  label = label;
  key = key;
  placeholder = some placeholder;
  kind = plain_field;
}

abbrev pub fallback_sections : List FallbackSection
fallback_sections =
    record {
      title = "MODEL";
      is_row = false;
      fields =
          record {
            label = "Param File (.param)";
            key = "paramPath";
            placeholder = some "model.param";
            kind = picked_path "Select Param File" ("Param", "param");
          }
          ∷ record {
            label = "Model File (.bin)";
            key = "modelPath";
            placeholder = some "model.bin";
            kind = picked_path "Select Model File" ("Model", "bin");
          }
          ∷ record {
            label = "Empty Weights (zero-fill)";
            key = "emptyWeights";
            placeholder = none;
            kind = ticked;
          }
          ∷ [];
    }
    ∷ record {
      title = "I/O NAMES";
      is_row = false;
      fields =
          plain_input "Input Name" "inputName" "data"
          ∷ plain_input "Output Name" "outputName" "output"
          ∷ [];
    }
    ∷ record {
      title = "INPUT DIMENSIONS";
      is_row = true;
      fields =
          plain_input "W" "inputW" "224"
          ∷ plain_input "H" "inputH" "224"
          ∷ plain_input "C" "inputC" "3"
          ∷ [];
    }
    ∷ record {
      title = "RUNTIME";
      is_row = false;
      fields = plain_input "Threads" "numThreads" "2" ∷ [];
    }
    ∷ []

abbrev pub control_of_kind : FallbackKind → FallbackField → Config → VendorControl
control_of_kind (picked_path title filter) f config =
    vendor_path (words_or (get f.key config) "") f.placeholder
control_of_kind ticked f config = vendor_tick (is_ticked (get f.key config))
control_of_kind plain_field f config = vendor_text (words_or (get f.key config) "") f.placeholder

unfoldable pub fallback_control : FallbackField → Config → VendorControl
fallback_control f config = control_of_kind f.kind f config

-- the calls of `onChange`
unfoldable pub edit_fallback : FallbackField → Edit → Config → Config
unfolding handle_config_change
edit_fallback f (enters value) config = handle_config_change f.key value config
edit_fallback f (ticks checked) config = handle_config_change f.key (truth_text checked) config
edit_fallback f (picks none) config = config
edit_fallback f (picks (some path)) config =
    if path == "" then config else handle_config_change f.key path config

abbrev pub fallback_keys : List FallbackSection → List String
fallback_keys [] = []
fallback_keys (s ∷ ss) = map FallbackField.key s.fields ++ fallback_keys ss

abbrev pub section_keys : List ConfigSection → List String
section_keys [] = []
section_keys (s ∷ ss) = map ConfigField.key s.fields ++ section_keys ss

-- `!schema || schema.fields.length === 0`
abbrev pub schema_keys : List VendorFieldDef → List String
schema_keys [] = fallback_keys fallback_sections
schema_keys (f ∷ fs) = map VendorFieldDef.key (f ∷ fs)

-- the keys under which the editor of a node, given what the backend has sent, can change a value
unfoldable pub offered_keys : Option VendorSchema → Editor → Config → List String
offered_keys schema generic_editor config = map (λ e. e.0) config
offered_keys schema (schema_editor sections) config = section_keys sections
offered_keys none vendor_editor config = schema_keys []
offered_keys (some schema) vendor_editor config = schema_keys schema.fields
