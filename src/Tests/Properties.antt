-- ===== src/Tests/Properties.antt =====
-- The panel's fields and chart, and the offer to view a model.
use workflowui.Base.{
  ℕ, ◌≡◌, ◌<◌, ◌≤◌, ◌*◌, refl, String, Memᴰ, none, some, List, [], ◌∷◌, All, length, ne_of_eq_false,
}
use workflowui.Manifest.{
  ConfigField, text, number, plain, create_net_entry, node_manifest, node_schemas,
}
use workflowui.Properties.{
  VendorSchema, int_field, Config, handle_config_change, config_editor, offered_keys,
  inspect_request, enters, field_value, edit_field, sampled, step_of,
}
use workflowui.Properties.Edits.{field_value-edit_field}
use workflowui.Properties.Unreached.{
  Edited, lower_case, dropped, changed, inspect_request_unreached,
}
use workflowui.Properties.Samples.{at, sampled_lem}

abbrev shape : ConfigField
shape = plain "shape" "Shape" text

abbrev fill : ConfigField
fill = plain "fillValue" "Fill Value" number

field_value-edit_field_example :
    (field_value shape (edit_field shape (enters "1,3") []) ≡ "1,3")
    × (field_value fill (edit_field shape (enters "1,3") []) ≡ field_value fill [])
field_value-edit_field_example =
    field_value-edit_field shape fill (enters "1,3") [] (ne_of_eq_false "shape" "fillValue" refl)

abbrev values : List ℕ
values = 7 ∷ 8 ∷ 9 ∷ []

sampled_lem_example :
    (0 < length (sampled values))
    × (length (sampled values) < 200)
    × (length values ≤ length (sampled values) * step_of (length values))
    × All (λ s. at s.idx values ≡ some s.val) (sampled values)
sampled_lem_example = sampled_lem 7 (8 ∷ 9 ∷ [])

-- a network is dropped and given the path of its parameters in the form without a schema; then the
-- schema comes, and a field of it is set
abbrev as_is : String → String
as_is t = t

abbrev threads : VendorSchema
threads = record {
  vendor = "ncnn";
  fields =
      record {
        key = "numThreads";
        label = "Threads";
        type = int_field;
        group = "RUNTIME";
        placeholder = none;
        default_value = none;
        options = none;
      }
      ∷ [];
}

abbrev sent : List VendorSchema
sent = threads ∷ []

abbrev with_path : Config
with_path = handle_config_change "paramPath" "/net.param" []

param_offered : Memᴰ "paramPath" (offered_keys none (config_editor (some create_net_entry.type)) [])
unfolding offered_keys config_editor node_schemas
param_offered = Memᴰ.head refl

threads_offered :
    Memᴰ "numThreads"
      (offered_keys (some threads) (config_editor (some create_net_entry.type)) with_path)
unfolding offered_keys config_editor node_schemas
threads_offered = Memᴰ.head refl

history : Edited sent (some create_net_entry.type) (handle_config_change "numThreads" "4" with_path)
history =
    changed (some threads) "numThreads" "4"
      (changed none "paramPath" "/net.param" dropped tt param_offered) (Memᴰ.head refl)
      threads_offered

create_net_listed : Memᴰ create_net_entry node_manifest
create_net_listed = Memᴰ.tail (Memᴰ.tail (Memᴰ.head refl))

inspect_request_unreached_example :
    inspect_request as_is lower_case
      (some create_net_entry.type)
      (handle_config_change "numThreads" "4" with_path)
    ≡ none
inspect_request_unreached_example =
    inspect_request_unreached as_is lower_case sent create_net_entry
      (handle_config_change "numThreads" "4" with_path) create_net_listed (refl, tt) refl
      (
        refl,
        (
          refl,
          (
            refl,
            (
              refl,
              (
                refl,
                (
                  refl,
                  (
                    refl,
                    (refl, (refl, (refl, (refl, (refl, (refl, (refl, (refl, (refl, tt))))))))),
                  ),
                ),
              ),
            ),
          ),
        ),
      )
      history
