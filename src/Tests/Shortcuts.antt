-- ===== src/Tests/Shortcuts.antt =====
-- The keyboard shortcuts on single keys, and a paste.
use workflowui.Base.{◌≡◌, refl, ℕ, ◌+◌, Bool, true, false, some}
use workflowui.Store.{generate_node_id}
use workflowui.Shortcuts.{
  Element, KeyEvent, is_cmd, is_editable_target, handle_key_down, chord, save_file, pasted,
  handle_legacy_paste,
}
use workflowui.Shortcuts.Editable.{IsGlobal, handle_key_down_editable}
use workflowui.Shortcuts.Paste.{IsPasted, handle_legacy_paste_lem}
use workflowui.Tests.Store.{small, node_of}

abbrev field : Element
field = record { tag_name = "INPUT"; is_content_editable = false }

abbrev save_chord : KeyEvent
save_chord = record { key = "s"; meta_key = true; ctrl_key = false; shift_key = false }

handle_key_down_editable_example : (is_cmd true save_chord ≡ true) × IsGlobal save_file
unfolding handle_key_down chord is_editable_target
handle_key_down_editable_example =
    handle_key_down_editable true save_chord (some field) save_file refl refl

abbrev of_bool : Bool → ℕ
of_bool b = 0

abbrev add_50 : ℕ → ℕ
add_50 x = x + 50

-- "a" is selected when "b" is pasted
handle_legacy_paste_lem_example :
    IsPasted
      (pasted add_50 (generate_node_id small).1 (node_of "b" "second"))
      (generate_node_id small).1
      small
      (handle_legacy_paste of_bool add_50 (some (node_of "b" "second")) small)
handle_legacy_paste_lem_example =
    handle_legacy_paste_lem of_bool add_50 (node_of "b" "second") small
