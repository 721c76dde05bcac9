-- ===== src/Drawer/Labels.antt =====
-- The texts and colours of the drawer. `decimal` prints a natural number, and the numbers of a
-- layer's parameters come with `print`, `is_zero` and `is_one`.
use Prim.Native.Char.{Char, code}
use workflowui.Base.{
  ℤ, pos, negsuc, ℕ, String, Bool, true, false, ◌&&◌, ◌||◌, Option, none, some, List, [], ◌∷◌, ◌++◌,
  any, leb, eqb, ltb, ◌==◌, if◌then◌else◌,
}
use workflowui.Store.{Dict, get}
use workflowui.Runner.{◌<>◌}
use workflowui.Inspect.{ModelInspectError}
use workflowui.Drawer.Types.{ParamValue, number, text, other_value}

-- `.join(separator)`
abbrev pub join : String → List String → String
join separator [] = ""
join separator (w ∷ []) = w
join separator (w ∷ v ∷ ws) = w <> separator <> join separator (v ∷ ws)

abbrev pub join_numbers : (ℕ → String) → String → List ℕ → String
join_numbers decimal separator [] = ""
join_numbers decimal separator (n ∷ []) = decimal n
join_numbers decimal separator (n ∷ m ∷ ns) =
    decimal n <> separator <> join_numbers decimal separator (m ∷ ns)

unfoldable pub fmt_shape : (ℕ → String) → List ℕ → String
fmt_shape decimal [] = "?"
fmt_shape decimal (n ∷ c ∷ h ∷ w ∷ []) =
    "N" <> decimal n <> "·C" <> decimal c <> "·H" <> decimal h <> "·W" <> decimal w
fmt_shape decimal (c ∷ h ∷ w ∷ []) = "C" <> decimal c <> "·H" <> decimal h <> "·W" <> decimal w
fmt_shape decimal shape = join_numbers decimal "×" shape

abbrev pub is_one_of : List String → String → Bool
is_one_of names type = any (λ n. type == n) names

abbrev pub dense_layers : List String
dense_layers = "Convolution" ∷ "ConvolutionDepthWise" ∷ "InnerProduct" ∷ "Deconvolution" ∷ []

abbrev pub activations : List String
activations = "ReLU" ∷ "Sigmoid" ∷ "PReLU" ∷ "HardSwish" ∷ "Mish" ∷ "Swish" ∷ []

abbrev pub poolings : List String
poolings = "Pooling" ∷ "PoolingV2" ∷ "GlobalPooling" ∷ []

abbrev pub shapers : List String
shapers =
    "BatchNorm" ∷ "Scale" ∷ "Concat" ∷ "Split" ∷ "Eltwise" ∷ "Reshape" ∷ "Permute" ∷ "Crop"
    ∷ "Flatten" ∷ []

unfoldable pub header_bg_for : String → Bool → String
header_bg_for type light =
    if type == "Input"
    then if light then "#d4edee" else "#1a3a3a"
    else if is_one_of dense_layers type
    then if light then "#dbe5f6" else "#2a3a5a"
    else if is_one_of activations type
    then if light then "#e8ddf5" else "#3a2a4a"
    else if is_one_of poolings type
    then if light then "#ddf0e0" else "#2a4a3a"
    else if is_one_of shapers type
    then if light then "#f0ead6" else "#3a3a2a"
    else if light
    then "#e8e8ef"
    else "#1a1a3a"

-- the pattern /^-?\d+$/
abbrev pub is_digit : Char → Bool
is_digit c = leb 48 (code c) && leb (code c) 57

abbrev pub are_digits : String → Bool
are_digits String.[] = true
are_digits (String.◌∷◌ c s) = is_digit c && are_digits s

abbrev pub is_natural_text : String → Bool
is_natural_text String.[] = false
is_natural_text (String.◌∷◌ c s) = is_digit c && are_digits s

abbrev pub is_integer_text : String → Bool
is_integer_text String.[] = false
is_integer_text (String.◌∷◌ c s) =
    if eqb (code c) 45 then is_natural_text s else is_digit c && are_digits s

abbrev pub prefixed : {A : Type 0} → (A → String) → String → Option A → List String
prefixed print label none = []
prefixed print label (some a) = (label <> print a) ∷ []

-- a part that is left out at its usual value
abbrev pub unusual : {A : Type 0} → (A → String) → (A → Bool) → String → Option A → List String
unusual print is_usual label none = []
unusual print is_usual label (some a) = if is_usual a then [] else (label <> print a) ∷ []

module _ {N : Type 0} (number_of : String → N) (print : N → String)
    (is_zero is_one : N → Bool) where
  -- `num`
  abbrev pub value_number : Option (ParamValue N) → Option N
  value_number none = none
  value_number (some (number n)) = some n
  value_number (some (text t)) = if is_integer_text t then some (number_of t) else none
  value_number (some other_value) = none

  abbrev pub num : Dict (ParamValue N) → String → Option N
  num params key = value_number (get key params)

  abbrev pub pooling_kind : Option N → List String
  pooling_kind none = []
  pooling_kind (some op) = if is_zero op then "max" ∷ [] else if is_one op then "avg" ∷ [] else []

  unfoldable pub fmt_key_params : String → Dict (ParamValue N) → String
  fmt_key_params type params =
      if type == "Convolution" || type == "ConvolutionDepthWise" || type == "Deconvolution"
      then join " " (
          prefixed print "out=" (num params "0")
          ++ prefixed print "k=" (num params "1")
          ++ unusual print is_one "s=" (num params "3")
          ++ unusual print is_zero "p=" (num params "4")
          ++ unusual print is_one "g=" (num params "7"))
      else if type == "Pooling" || type == "PoolingV2"
      then join " " (
          pooling_kind (num params "0")
          ++ prefixed print "k=" (num params "1")
          ++ unusual print is_one "s=" (num params "2"))
      else if type == "InnerProduct"
      then join " " (prefixed print "out=" (num params "0"))
      else ""

-- `one_decimal` prints a quotient with one digit after the point
unfoldable pub fmt_bytes : (ℕ → String) → (ℕ → ℕ → String) → ℕ → String
fmt_bytes decimal one_decimal n =
    if eqb n 0
    then "—"
    else if ltb n 1024
    then decimal n <> " B"
    else if ltb n 1048576
    then one_decimal n 1024 <> " KB"
    else one_decimal n 1048576 <> " MB"

abbrev pub is_bad_request : ℤ → Bool
is_bad_request (pos n) = false
is_bad_request (negsuc n) = eqb n 32601

abbrev pub is_transport : ℤ → Bool
is_transport (pos n) = eqb n 0
is_transport (negsuc n) = false

-- the line that the drawer shows for an error
unfoldable pub error_line : (ℤ → String) → ModelInspectError → String
error_line shown e =
    if is_transport e.code
    then "Network error: " <> e.message
    else if is_bad_request e.code
    then "Invalid request: " <> e.message
    else "Model error (" <> shown e.code <> "): " <> e.message
