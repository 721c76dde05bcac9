-- ===== src/Properties/Edits.antt =====
-- What a field shows after an edit.
use workflowui.Base.{
  ◌≡◌, ◌≢◌, refl, ap, ◌∙◌, String, Option, none, some, ◌==◌, eq_refl, eq_false_of_ne, if_true,
  if_false, Bool-cases, inl, inr,
}
use workflowui.Manifest.{ConfigField}
use workflowui.Store.Index.{get-put}
use workflowui.Runner.{truthy}
use workflowui.Properties.{
  words, Config, handle_config_change, text_of, truth_text, field_value, Edit, enters, ticks, picks,
  edit_field,
}

-- the text that an edit puts into its field, if it does
abbrev pub entered : Edit → Option String
entered (enters value) = some value
entered (ticks checked) = some (truth_text checked)
entered (picks path) = elim path [ none ↦ none | some p ↦ truthy (some p) ]

abbrev or_before : String → Option String → String
or_before before none = before
or_before before (some value) = value

changed_same :
    (f : ConfigField) (value : String) (config : Config)
    → field_value f (handle_config_change f.key value config) ≡ value
unfolding field_value handle_config_change
changed_same f value config =
    ap (text_of f.default_value)
      (get-put f.key f.key (words value) config ∙ if_true (f.key == f.key) _ _ (eq_refl f.key))

changed_other :
    (f g : ConfigField) (value : String) (config : Config)
    → f.key ≢ g.key
    → field_value g (handle_config_change f.key value config) ≡ field_value g config
unfolding field_value handle_config_change
changed_other f g value config other = ap (text_of g.default_value) (
    get-put g.key f.key (words value) config
    ∙ if_false (f.key == g.key) _ _ (eq_false_of_ne f.key g.key other))

-- An edit is shown as it was made: the field then has the text that was entered, ticked or picked, and
-- what it had before if no path was picked, and every field with another key shows what it showed.
pub field_value-edit_field :
    (f g : ConfigField) (e : Edit) (config : Config)
    → f.key ≢ g.key
    → (field_value f (edit_field f e config) ≡ or_before (field_value f config) (entered e))
      × (field_value g (edit_field f e config) ≡ field_value g config)
unfolding edit_field
field_value-edit_field f g (enters value) config other =
    (changed_same f value config, changed_other f g value config other)
field_value-edit_field f g (ticks checked) config other = (
  changed_same f (truth_text checked) config,
  changed_other f g (truth_text checked) config other,
)
field_value-edit_field f g (picks none) config other = (refl, refl)
field_value-edit_field f g (picks (some path)) config other = elim (Bool-cases (path == "")) [
  | inl blank ↦ rw blank (refl, refl)
  | inr named ↦ rw named (changed_same f path config, changed_other f g path config other)
]
