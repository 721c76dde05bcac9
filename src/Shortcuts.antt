-- ===== src/Shortcuts.antt =====
-- The keyboard shortcuts of frontend/src/hooks/useKeyboardShortcuts.ts, with the clipboard of its
-- copy and paste. Undo and redo are the temporal store's and come as functions.
pub mod Editable
pub mod Paste
use workflowui.Base.{
  ◌+◌, ℕ, String, Bool, true, false, not, ◌&&◌, ◌||◌, Option, none, some, List, [], ◌∷◌, ◌==◌,
  if◌then◌else◌,
}
use workflowui.Store.{
  Node, WorkflowState, DataPatch, get, generate_node_id, update_node_data, add_node,
  set_selected_node,
}
use workflowui.Runner.{truthy, no_patch}
use workflowui.Actions.{
  Session, Wire, on_flow, run_or_resume, save, load, duplicate_selected, deselect, select_all,
  toggle_breakpoint_on_selected,
}

-- an element of the page, as `isEditableTarget` reads it
pub record Element : Type 0 where
  pub tag_name : String
  pub is_content_editable : Bool

unfoldable pub is_editable_target : Option Element → Bool
is_editable_target none = false
is_editable_target (some el) =
    el.tag_name == "INPUT"
    || el.tag_name == "TEXTAREA"
    || el.tag_name == "SELECT"
    || el.is_content_editable

pub record KeyEvent : Type 0 where
  pub key : String
  pub meta_key : Bool
  pub ctrl_key : Bool
  pub shift_key : Bool

pub data Shortcut : Type 0 where
  undo redo save_file open_file select_every duplicate copy paste : Shortcut
  escape fit_view run_key breakpoint : Shortcut

-- `key.toLowerCase() === 'x'`, of which both letters are given
abbrev pub is_letter : String → String → String → Bool
is_letter lower upper key = key == lower || key == upper

-- the chords that are suppressed while typing
unfoldable pub plain_chord : KeyEvent → Option Shortcut
plain_chord e =
    if is_letter "a" "A" e.key
    then some select_every
    else if is_letter "d" "D" e.key
    then some duplicate
    else if is_letter "c" "C" e.key
    then some copy
    else if is_letter "v" "V" e.key
    then some paste
    else none

unfoldable pub chord : Bool → KeyEvent → Option Shortcut
unfolding plain_chord
chord editable e =
    if e.key == "z" && not e.shift_key
    then some undo
    else if (e.shift_key && is_letter "z" "Z" e.key) || e.key == "y"
    then some redo
    else if is_letter "s" "S" e.key
    then some save_file
    else if is_letter "o" "O" e.key
    then some open_file
    else if editable
    then none
    else plain_chord e

unfoldable pub single_key : KeyEvent → Option Shortcut
single_key e =
    if e.key == "Escape"
    then some escape
    else if e.key == "f" || e.key == "F"
    then some fit_view
    else if e.key == "r" || e.key == "R"
    then some run_key
    else if e.key == "b" || e.key == "B"
    then some breakpoint
    else none

-- `cmd`
abbrev pub is_cmd : Bool → KeyEvent → Bool
is_cmd is_mac e = if is_mac then e.meta_key else e.ctrl_key

-- which shortcut `handleKeyDown` runs
unfoldable pub handle_key_down : Bool → KeyEvent → Option Element → Option Shortcut
unfolding chord single_key is_editable_target
handle_key_down is_mac e active =
    if is_cmd is_mac e
    then chord (is_editable_target active) e
    else if is_editable_target active
    then none
    else single_key e

-- the page with what the shortcuts reach: the clipboard holds a node that was copied, or is foreign
pub record Desk (N V : Type 0) : Type 0 where
  pub session : Session N V
  pub clipboard : Option (Node N V)
  pub views_fitted : ℕ

module _ {N V : Type 0} where
  -- the node that `handleLegacyCopy` writes to the clipboard
  unfoldable pub copied : WorkflowState N V → Option (Node N V)
  copied s = elim (truthy s.selected_node_id) [ none ↦ none | some id ↦ get id s.nodes_by_id ]

  unfoldable pub handle_legacy_copy : Desk N V → Desk N V
  unfolding copied
  handle_legacy_copy d = elim (copied d.session.runner.workflow) [
    | none ↦ d
    | some n ↦ record d { clipboard = some n }
  ]

  -- `{ ...data.node, id, position, selected: true }`; `add_50` adds 50 to a coordinate
  abbrev pub pasted : (N → N) → String → Node N V → Node N V
  pasted add_50 id n = record n { id = id; x = add_50 n.x; y = add_50 n.y; selected = some true }

  -- `updateNodeData(selectedNodeId, { selected: false })`
  abbrev pub unmark : (Bool → V) → Option String → WorkflowState N V → WorkflowState N V
  unmark of_bool none s = s
  unmark of_bool (some id) s =
      update_node_data id (record no_patch { extra = ("selected", of_bool false) ∷ [] }) s

  -- `handleLegacyPaste` from the name of the new node on, in the state that has given it
  unfoldable pub paste_as :
      (Bool → V)
      → (N → N)
      → Node N V
      → Option String
      → WorkflowState N V × String
      → WorkflowState N V
  paste_as of_bool add_50 n selected (s, id) =
      set_selected_node (some id)
        (add_node (pasted add_50 id n) (unmark of_bool (truthy selected) s))

  unfoldable pub handle_legacy_paste :
      (Bool → V) → (N → N) → Option (Node N V) → WorkflowState N V → WorkflowState N V
  unfolding generate_node_id paste_as
  handle_legacy_paste of_bool add_50 none s = s
  handle_legacy_paste of_bool add_50 (some n) s =
      paste_as of_bool add_50 n s.selected_node_id (generate_node_id s)

  -- what each shortcut calls
  unfoldable pub perform :
      Wire V
      → (Bool → V)
      → (N → N)
      → (N → N)
      → (Session N V → Session N V)
      → (Session N V → Session N V)
      → Shortcut
      → Desk N V
      → Desk N V
  unfolding handle_legacy_copy handle_legacy_paste
  perform wire of_bool add_40 add_50 undo_with redo_with undo d = record d {
    session = undo_with d.session;
  }
  perform wire of_bool add_40 add_50 undo_with redo_with redo d = record d {
    session = redo_with d.session;
  }
  perform wire of_bool add_40 add_50 undo_with redo_with save_file d = record d {
    session = save d.session;
  }
  perform wire of_bool add_40 add_50 undo_with redo_with open_file d = record d {
    session = load d.session;
  }
  perform wire of_bool add_40 add_50 undo_with redo_with select_every d = record d {
    session = select_all d.session;
  }
  perform wire of_bool add_40 add_50 undo_with redo_with duplicate d = record d {
    session = duplicate_selected add_40 d.session;
  }
  perform wire of_bool add_40 add_50 undo_with redo_with copy d = handle_legacy_copy d
  perform wire of_bool add_40 add_50 undo_with redo_with paste d = record d {
    session = on_flow (handle_legacy_paste of_bool add_50 d.clipboard) d.session;
  }
  perform wire of_bool add_40 add_50 undo_with redo_with escape d = record d {
    session = deselect d.session;
  }
  perform wire of_bool add_40 add_50 undo_with redo_with fit_view d = record d {
    views_fitted = d.views_fitted + 1;
  }
  perform wire of_bool add_40 add_50 undo_with redo_with run_key d = record d {
    session = run_or_resume wire d.session;
  }
  perform wire of_bool add_40 add_50 undo_with redo_with breakpoint d = record d {
    session = toggle_breakpoint_on_selected wire d.session;
  }
