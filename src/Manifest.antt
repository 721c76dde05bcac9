-- ===== src/Manifest.antt =====
-- The node registry of frontend/src/nodes/manifest.tsx, with the tables derived from it in
-- portSchema.ts and configSchemas.ts. `Object.fromEntries` keeps the last of equal keys; keys that
-- a plain object inherits (`constructor`, `toString`) are not modelled.
mod Types
mod Inputs
mod Images
mod Control
pub use Types.*
pub use Inputs.*
pub use Images.*
pub use Control.*
pub mod Lookup
use workflowui.Base.{
  String, Bool, true, false, Option, none, some, List, [], ◌∷◌, map, ◌==◌, if◌then◌else◌,
}

abbrev pub node_manifest : List NodeManifestEntry
node_manifest =
    input_image_entry ∷ input_tensor_entry ∷ create_net_entry ∷ inference_entry ∷ benchmark_entry
    ∷ postprocess_entry ∷ save_text_entry ∷ save_image_entry ∷ tensor_to_image_entry
    ∷ annotate_image_entry ∷ draw_boxes_entry ∷ segmentation_mask_entry ∷ composite_entry
    ∷ condition_entry ∷ output_entry ∷ debug_entry ∷ []

-- `Object.fromEntries(entries)[key]`
pub from_entries {ℓ} : {V : Type ℓ} → List (String × V) → String → Option V
from_entries [] key = none
from_entries ((k, v) ∷ rest) key = elim (from_entries rest key) [
  | some w ↦ some w
  | none ↦ if k == key then some v else none
]

-- `NODE_MANIFEST_BY_TYPE`, read by `getManifestEntry`; an empty type is falsy
unfoldable pub get_manifest_entry : Option String → Option NodeManifestEntry
unfolding from_entries
get_manifest_entry none = none
get_manifest_entry (some type) =
    if type == "" then none else from_entries (map (λ e. (e.type, e)) node_manifest) type

-- `NODE_PORTS[type]`
unfoldable pub node_ports : String → Option (List PortDef)
unfolding from_entries
node_ports type = from_entries (map (λ e. (e.type, e.ports)) node_manifest) type

-- `NodeTypeSchema` of configSchemas.ts
pub record NodeTypeSchema : Type 0 where
  pub sections : Option (List ConfigSection)
  pub vendor_schema : Bool

-- the assignments of the loop that builds `NODE_SCHEMAS`
schema_entries : List NodeManifestEntry → List (String × NodeTypeSchema)
schema_entries [] = []
schema_entries (e ∷ es) =
    let rest = schema_entries es in
    if e.vendor_schema
    then (e.type, record { sections = none; vendor_schema = true }) ∷ rest
    else elim e.config_sections [
      | none ↦ rest
      | some sections ↦ (e.type, record { sections = some sections; vendor_schema = false }) ∷ rest
    ]

-- `NODE_SCHEMAS[type]`
unfoldable pub node_schemas : String → Option NodeTypeSchema
unfolding from_entries schema_entries
node_schemas type = from_entries (schema_entries node_manifest) type
