-- ===== src/Drawer/Types.antt =====
-- The model graph that the backend sends. `N` is the type of JavaScript's numbers.
use workflowui.Base.{ℕ, String, Bool, Option, List}
use workflowui.Store.{Dict}

-- a value of the free-form parameters of a layer
pub data ParamValue (N : Type 0) : Type 0 where
  number : N → ParamValue N
  text : String → ParamValue N
  other_value : ParamValue N

pub record ModelLayer (N : Type 0) : Type 0 where
  pub id : String
  pub type : String
  pub input_blobs : List String
  pub output_blobs : List String
  pub params : Dict (ParamValue N)

pub record ModelBlob : Type 0 where
  pub name : String
  pub shape : List ℕ
  pub producer : String
  pub consumers : List String

pub record ModelGraph (N : Type 0) : Type 0 where
  pub vendor : String
  pub format_version : String
  pub layers : List (ModelLayer N)
  pub blobs : List ModelBlob
  pub param_bytes : ℕ
  pub bin_bytes : ℕ
  pub input_blob_names : List String
  pub output_blob_names : List String
  pub editable : Bool

pub record ModelInspectRequest : Type 0 where
  pub vendor : String
  pub param_path : String
  pub model_path : Option String
