-- ===== src/Tests/Palette.antt =====
-- A search in the palette.
use workflowui.Base.{◌≡◌, refl, String, some, true, All}
use workflowui.Manifest.{input}
use workflowui.Palette.{Palette, node_type_list, visible, sections, is_searching}
use workflowui.Palette.Search.{shown, of_category, IsSorted, sections_searching}

abbrev same_text : String → String
same_text t = t

-- every category is collapsed
abbrev searched : Palette
searched = record { query = "Image"; collapsed = λ c. some true }

sections_searching_example :
    (of_category (shown (sections same_text same_text node_type_list searched)) input
      ≡ of_category (visible same_text same_text node_type_list "Image") input)
    × All IsSorted (sections same_text same_text node_type_list searched)
unfolding is_searching
sections_searching_example =
    sections_searching same_text same_text searched refl node_type_list input
