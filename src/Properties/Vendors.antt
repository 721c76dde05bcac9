-- ===== src/Properties/Vendors.antt =====
-- The vendor's fields: `VendorConfigPanel` and `VendorField`.
use workflowui.Base.{
  String, Bool, true, false, Option, none, some, List, [], ◌∷◌, ◌++◌, includes, ◌==◌, if◌then◌else◌,
}
use workflowui.Store.{get}
use workflowui.Runner.{truthy, or_text}
use workflowui.Properties.Fields.{Value, words, truth, nothing, printed, Config}

pub data VendorType : Type 0 where
  string_field int_field float_field bool_field select_field path_field : VendorType

pub record VendorFieldDef : Type 0 where
  pub key : String
  pub label : String
  pub type : VendorType
  pub group : String
  pub placeholder : Option String
  pub default_value : Option String
  pub options : Option (List String)

pub record VendorSchema : Type 0 where
  pub vendor : String
  pub fields : List VendorFieldDef

-- a group, in the order of `groups`; `groupMap` has the same array of fields
pub record FieldGroup : Type 0 where
  pub name : String
  pub fields : List VendorFieldDef

-- one round of the loop
unfoldable pub push_field : VendorFieldDef → List FieldGroup → List FieldGroup
push_field f [] = record { name = f.group; fields = f ∷ [] } ∷ []
push_field f (g ∷ gs) =
    let rest = push_field f gs in
    if g.name == f.group then record g { fields = g.fields ++ f ∷ [] } ∷ gs else g ∷ rest

unfoldable pub group_fields : List VendorFieldDef → List FieldGroup → List FieldGroup
unfolding push_field
group_fields [] gs = gs
group_fields (f ∷ fs) gs = group_fields fs (push_field f gs)

-- `none` stands for the fallback form
unfoldable pub vendor_groups : Option VendorSchema → Option (List FieldGroup)
unfolding group_fields
vendor_groups none = none
vendor_groups (some schema) = elim schema.fields [
  | [] ↦ none
  | f ∷ fs ↦ some (group_fields (f ∷ fs) [])
]

pub data VendorControl : Type 0 where
  vendor_tick : Bool → VendorControl
  vendor_choice : String → List String → VendorControl
  vendor_path : String → Option String → VendorControl
  vendor_number : String → Option String → Bool → VendorControl
  vendor_text : String → Option String → VendorControl

abbrev pub is_ticked : Option Value → Bool
is_ticked (some (words s)) = s == "true"
is_ticked (some (truth b)) = b
is_ticked _ = false

-- `(value as string) || other`
abbrev pub words_or : Option Value → String → String
words_or none other = other
words_or (some (words s)) other = if s == "" then other else s
words_or (some (truth b)) other = if b then "true" else other
words_or (some nothing) other = other
words_or (some (printed t b)) other = if b then t else other

abbrev pub control_for : VendorType → VendorFieldDef → Option Value → VendorControl
control_for bool_field f v = vendor_tick (is_ticked v)
control_for select_field f v = elim f.options [
  | none ↦ vendor_text (words_or v "") f.placeholder
  | some os ↦ vendor_choice (words_or v (or_text (truthy f.default_value) "")) os
]
control_for path_field f v = vendor_path (words_or v "") f.placeholder
control_for int_field f v = vendor_number (words_or v "") f.placeholder false
control_for float_field f v = vendor_number (words_or v "") f.placeholder true
control_for string_field f v = vendor_text (words_or v "") f.placeholder

unfoldable pub vendor_control : VendorFieldDef → Config → VendorControl
vendor_control f config = control_for f.type f (get f.key config)

-- the filters of the file picker
unfoldable pub path_filters : Option String → List (String × List String)
path_filters none = []
path_filters (some placeholder) =
    if includes ".param" placeholder
    then ("Param", "param" ∷ []) ∷ []
    else if includes ".bin" placeholder
    then ("Model", "bin" ∷ []) ∷ []
    else []
