-- ===== src/Properties/Unreached.antt =====
-- Whether a node that is edited in the panel alone comes to be offered "View Model".
use workflowui.Base.{
  ◌≡◌, refl, sym, ◌∙◌, subst, String, Bool, true, false, not, ◌&&◌, Option, none, some, List, [],
  ◌∷◌, map, all, All, All-mem, Memᴰ, ◌==◌, if_false, arith, Bool-cases, inl, inr, includes,
}
use workflowui.Manifest.{NodeManifestEntry, node_manifest, node_schemas}
use workflowui.Store.{get, Dict}
use workflowui.Runner.{or_text}
use workflowui.Store.Index.{get-put}
use workflowui.Properties.{
  Config, words, handle_config_change, Editor, vendor_editor, generic_editor, schema_editor,
  config_editor, VendorFieldDef, VendorSchema, schema_keys, section_keys, fallback_keys,
  fallback_sections, offered_keys, inspect_request, words_of, is_ncnn,
}

abbrev pub is_other : String → Bool
is_other key = not (key == "vendor")

-- a schema of the backend has no field "vendor"
abbrev pub IsVendorless : VendorSchema → Type 0
IsVendorless schema = all is_other (map VendorFieldDef.key schema.fields) ≡ true

-- what a hook may hold: nothing yet, or one of the schemas that the backend sends
abbrev pub MayHold : List VendorSchema → Option VendorSchema → Type 0
MayHold sent none = Unit
MayHold sent (some schema) = Memᴰ schema sent

-- the configuration of a node of a type that has been dropped on the canvas and edited since; each
-- edit is made with the schema that the hook holds then
pub data Edited (sent : List VendorSchema) (type : Option String) : Config → Type 0 where
  dropped : Edited sent type []
  changed :
      {c : Config} (held : Option VendorSchema) (key value : String)
      → Edited sent type c
      → MayHold sent held
      → Memᴰ key (offered_keys held (config_editor type) c)
      → Edited sent type (handle_config_change key value c)

abbrev is_known : Editor → Bool
is_known vendor_editor = true
is_known generic_editor = true
is_known (schema_editor sections) = all is_other (section_keys sections)

all_known : All (λ e. is_known (config_editor (some e.type)) ≡ true) node_manifest
unfolding config_editor node_schemas
all_known = (
  refl,
  (
    refl,
    (
      refl,
      (
        refl,
        (
          refl,
          (
            refl,
            (refl, (refl, (refl, (refl, (refl, (refl, (refl, (refl, (refl, (refl, tt)))))))))),
          ),
        ),
      ),
    ),
  ),
)

other_of_mem :
    (keys : List String) (key : String)
    → all is_other keys ≡ true
    → Memᴰ key keys
    → is_other key ≡ true
other_of_mem [] key h m = elim m [ ]
other_of_mem (k ∷ ks) key h (Memᴰ.head e) = subst (λ x. is_other x ≡ true) (sym e) (ground arith)
other_of_mem (k ∷ ks) key h (Memᴰ.tail m) = other_of_mem ks key (ground arith) m

other_of_unset :
    (c : Config) (key : String)
    → get "vendor" c ≡ none
    → Memᴰ key (map (λ e. e.0) c)
    → is_other key ≡ true
other_of_unset [] key h m = elim m [ ]
other_of_unset ((k, v) ∷ c) key h m = elim (Bool-cases (k == "vendor")) [
  | inl here ↦ cc (rw here at h)
  | inr other ↦ elim m [
    | Memᴰ.head e ↦ subst (λ x. is_other x ≡ true) (sym e) (ground arith)
    | Memᴰ.tail l ↦ other_of_unset c key (rw other at h) l
  ]
]

schema_keys_other :
    (fs : List VendorFieldDef)
    → all is_other (map VendorFieldDef.key fs) ≡ true
    → all is_other (schema_keys fs) ≡ true
schema_keys_other [] h = refl
schema_keys_other (f ∷ fs) h = h

offered_other :
    (sent : List VendorSchema) (held : Option VendorSchema) (editor : Editor) (c : Config)
    (key : String)
    → is_known editor ≡ true
    → All IsVendorless sent
    → MayHold sent held
    → get "vendor" c ≡ none
    → Memᴰ key (offered_keys held editor c)
    → is_other key ≡ true
unfolding offered_keys
offered_other sent held generic_editor c key known plain h unset m = other_of_unset c key unset m
offered_other sent held (schema_editor sections) c key known plain h unset m =
    other_of_mem (section_keys sections) key known m
offered_other sent none vendor_editor c key known plain h unset m =
    other_of_mem (fallback_keys fallback_sections) key refl m
offered_other sent (some schema) vendor_editor c key known plain h unset m =
    let keys = schema_keys_other schema.fields (All-mem IsVendorless sent plain h) in
    other_of_mem (schema_keys schema.fields) key keys m

unset_lem :
    (sent : List VendorSchema) (type : Option String) (c : Config)
    → is_known (config_editor type) ≡ true
    → All IsVendorless sent
    → Edited sent type c
    → get "vendor" c ≡ none
unfolding handle_config_change
unset_lem sent type _ known plain dropped = refl
unset_lem sent type _ known plain (changed {c} held key value before h m) =
    let unset = unset_lem sent type c known plain before in
    let other = offered_other sent held (config_editor type) c key known plain h unset m in
    get-put "vendor" key (words value) c
    ∙ if_false (key == "vendor") _ _ (ground (arith, other))
    ∙ unset

-- what `toLowerCase` makes of the types of the registry
abbrev lowered : Dict String
lowered =
    ("inputImage", "inputimage")
    ∷ ("inputTensor", "inputtensor")
    ∷ ("createNet", "createnet")
    ∷ ("inference", "inference")
    ∷ ("benchmark", "benchmark")
    ∷ ("postprocess", "postprocess")
    ∷ ("saveText", "savetext")
    ∷ ("saveImage", "saveimage")
    ∷ ("tensorToImage", "tensortoimage")
    ∷ ("annotateImage", "annotateimage")
    ∷ ("drawBoxes", "drawboxes")
    ∷ ("segmentationMask", "segmentationmask")
    ∷ ("composite", "composite")
    ∷ ("condition", "condition")
    ∷ ("output", "output")
    ∷ ("debug", "debug")
    ∷ []

abbrev pub lower_case : String → String
lower_case type = or_text (get type lowered) type

lowered_plain : All (λ e. includes "ncnn" (lower_case e.type) ≡ false) node_manifest
lowered_plain = (
  refl,
  (
    refl,
    (
      refl,
      (
        refl,
        (
          refl,
          (
            refl,
            (refl, (refl, (refl, (refl, (refl, (refl, (refl, (refl, (refl, (refl, tt)))))))))),
          ),
        ),
      ),
    ),
  ),
)

-- A node of any type of the registry that has been dropped on the canvas, and then edited in the
-- panel alone, is never offered "View Model": if none of the schemas that the backend sends has a
-- field named "vendor", nothing in the panel sets the entry that the request needs, whichever of
-- those schemas, or none of them, the panel held at each edit. `trim` keeps the empty text, and
-- `lower` is `toLowerCase` on it and on the types.
pub inspect_request_unreached :
    (trim lower : String → String) (sent : List VendorSchema) (e : NodeManifestEntry) (c : Config)
    → Memᴰ e node_manifest
    → All IsVendorless sent
    → lower (trim "") ≡ ""
    → All (λ x. lower x.type ≡ lower_case x.type) node_manifest
    → Edited sent (some e.type) c
    → inspect_request trim lower (some e.type) c ≡ none
unfolding inspect_request
inspect_request_unreached trim lower sent e c m plain blank lowers edited =
    let known =
      All-mem (λ x. is_known (config_editor (some x.type)) ≡ true) node_manifest all_known m in
    let unset = unset_lem sent (some e.type) c known plain edited in
    let low = All-mem (λ x. lower x.type ≡ lower_case x.type) node_manifest lowers m in
    let free =
      All-mem (λ x. includes "ncnn" (lower_case x.type) ≡ false) node_manifest lowered_plain m in
    let other : is_ncnn trim lower (some e.type) c ≡ false = rw (unset, blank, low, free) refl in
    if_false (not (trim (words_of (get "paramPath" c)) == "") && is_ncnn trim lower (some e.type) c)
      _ _ (ground (arith, other))
