-- ===== src/Palette.antt =====
-- The palette of frontend/src/panels/NodePalette.tsx. `trim` and `lower` are the methods of texts.
pub mod Search
use workflowui.Base.{
  String, Bool, true, false, not, ◌&&◌, ◌||◌, Option, none, some, List, [], ◌∷◌, ◌++◌, map, filter,
  length, eqb, includes, ◌==◌, if◌then◌else◌,
}
use workflowui.Manifest.{
  NodeCategory, input, inference, output, control, debug, category_visuals, NodeManifestEntry,
  node_manifest,
}

-- `NodeTypeInfo` of frontend/src/nodes/index.ts, icons left out
pub record NodeTypeInfo : Type 0 where
  pub type : String
  pub label : String
  pub category : NodeCategory

abbrev pub info_of : NodeManifestEntry → NodeTypeInfo
info_of e = record { type = e.type; label = e.label; category = e.category }

unfoldable pub node_type_list : List NodeTypeInfo
node_type_list = map info_of node_manifest

-- the keys of `CATEGORY_VISUALS`
abbrev pub category_order : List NodeCategory
category_order = input ∷ inference ∷ output ∷ control ∷ debug ∷ []

abbrev pub same_category : NodeCategory → NodeCategory → Bool
same_category input input = true
same_category inference inference = true
same_category output output = true
same_category control control = true
same_category debug debug = true
same_category _ _ = false

abbrev pub Groups : Type 0
Groups = NodeCategory → Option (List NodeTypeInfo)

abbrev pub or_empty : Option (List NodeTypeInfo) → List NodeTypeInfo
or_empty none = []
or_empty (some items) = items

-- `(groups[nt.category] ??= []).push(nt)`
abbrev pub push : NodeTypeInfo → Groups → Groups
push nt groups c =
    if same_category nt.category c then some (or_empty (groups c) ++ nt ∷ []) else groups c

abbrev pub group_from : Groups → List NodeTypeInfo → Groups
group_from groups [] = groups
group_from groups (nt ∷ list) = group_from (push nt groups) list

unfoldable pub group_by_category : List NodeTypeInfo → Groups
group_by_category list = group_from (λ c. none) list

-- the state of the palette: `collapsed` has the categories that were ever clicked
pub record Palette : Type 0 where
  pub query : String
  pub collapsed : NodeCategory → Option Bool

pub record Section : Type 0 where
  pub category : NodeCategory
  pub label : String
  pub color : String
  pub is_collapsed : Bool
  pub items : List NodeTypeInfo

-- the cards that a section shows
abbrev pub cards : Section → List NodeTypeInfo
cards s = if s.is_collapsed then [] else s.items

abbrev pub or_false : Option Bool → Bool
or_false none = false
or_false (some b) = b

module _ (trim lower : String → String) where
  unfoldable pub matches_query : NodeTypeInfo → String → Bool
  matches_query nt q =
      let needle = lower q in includes needle (lower nt.label) || includes needle (lower nt.type)

  unfoldable pub visible : List NodeTypeInfo → String → List NodeTypeInfo
  unfolding matches_query
  visible list query =
      let q = trim query in if q == "" then list else filter (λ nt. matches_query nt q) list

  unfoldable pub is_searching : String → Bool
  is_searching query = not (trim query == "")

  unfoldable pub is_collapsed : Palette → NodeCategory → Bool
  unfolding is_searching
  is_collapsed p key = not (is_searching p.query) && or_false (p.collapsed key)

  -- one round of the rendering: a category without items is left out
  abbrev pub add_section : Palette → NodeCategory → List NodeTypeInfo → List Section → List Section
  add_section p key [] rest = rest
  add_section p key (nt ∷ nts) rest =
      record {
        category = key;
        label = (category_visuals key).label;
        color = (category_visuals key).color;
        is_collapsed = is_collapsed p key;
        items = nt ∷ nts;
      }
      ∷ rest

  unfoldable pub sections_from : Palette → Groups → List NodeCategory → List Section
  unfolding is_collapsed
  sections_from p groups [] = []
  sections_from p groups (key ∷ keys) =
      add_section p key (or_empty (groups key)) (sections_from p groups keys)

  unfoldable pub sections : List NodeTypeInfo → Palette → List Section
  unfolding visible group_by_category sections_from
  sections list p = sections_from p (group_by_category (visible list p.query)) category_order

  -- whether "No nodes match" is shown
  unfoldable pub shows_empty : List NodeTypeInfo → Palette → Bool
  unfolding is_searching visible
  shows_empty list p = is_searching p.query && eqb (length (visible list p.query)) 0

  -- a click on the header of a category
  unfoldable pub toggle : NodeCategory → Palette → Palette
  unfolding is_collapsed
  toggle key p = record p {
    collapsed = λ c. if same_category key c then some (not (is_collapsed p key)) else p.collapsed c;
  }

abbrev pub set_query : String → Palette → Palette
set_query query p = record p { query = query }

-- the key handler of the search field
unfoldable pub on_search_key : String → Palette → Palette
on_search_key key p = if key == "Escape" then set_query "" p else p
