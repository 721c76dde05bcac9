-- ===== src/Menu.antt =====
-- The context menu of a node, frontend/src/components/NodeContextMenu.tsx: its three items, the
-- keys that move the focus among them, and what closes it. An element of the page is a number.
pub mod Focus
pub mod Agree
use workflowui.Base.{
  ℕ, zero, ◌+◌, ◌-◌, ◌%◌, String, Bool, true, false, not, ◌&&◌, ◌||◌, Option, none, some, List, any,
  ◌==◌, if◌then◌else◌,
}
use workflowui.Store.{duplicate_node, remove_node}
use workflowui.Actions.{Session, Wire, on_flow, arm, disarm}

-- `NodeContextMenuState`
pub record MenuState (N : Type 0) : Type 0 where
  pub x : N
  pub y : N
  pub node_id : String

pub data MenuKey : Type 0 where
  arrow_down arrow_up home end_key other_key : MenuKey

-- `currentIndex === -1 ? 0 : currentIndex`
abbrev pub anchor_of : Option ℕ → ℕ
anchor_of none = 0
anchor_of (some i) = i

-- the item that `handleMenuKeyDown` focuses among `n`, of which `current` has the focus
unfoldable pub handle_menu_key_down : MenuKey → ℕ → Option ℕ → Option ℕ
handle_menu_key_down key zero current = none
handle_menu_key_down arrow_down n current = some ((anchor_of current + 1) % n)
handle_menu_key_down arrow_up n current = some ((anchor_of current + n - 1) % n)
handle_menu_key_down home n current = some 0
handle_menu_key_down end_key n current = some (n - 1)
handle_menu_key_down other_key n current = none

-- a key of the document, a press outside the menu and a scroll
unfoldable pub closes_on_key : String → Bool
closes_on_key key = key == "Escape" || key == "Tab"

unfoldable pub closes_on_press : Bool → Bool
closes_on_press inside = not inside

-- the page after an item was chosen: the stores, and the menu, which `onClose` takes away
pub record Page (N V : Type 0) : Type 0 where
  pub session : Session N V
  pub menu : Option (MenuState N)

module _ {N V : Type 0} where
  unfoldable pub is_armed : String → Session N V → Bool
  is_armed id s = any (λ b. b.node_id == id && b.enabled) s.runner.debug.breakpoints

  unfoldable pub toggle_breakpoint : Wire V → MenuState N → Session N V → Page N V
  unfolding is_armed
  toggle_breakpoint wire menu s = record {
    session =
        if is_armed menu.node_id s then disarm wire menu.node_id s else arm wire menu.node_id s;
    menu = none;
  }

  unfoldable pub handle_duplicate : (N → N) → MenuState N → Session N V → Page N V
  handle_duplicate add_40 menu s = record {
    session = on_flow (λ w. (duplicate_node add_40 menu.node_id w).0) s;
    menu = none;
  }

  unfoldable pub handle_delete : MenuState N → Session N V → Page N V
  handle_delete menu s = record { session = on_flow (remove_node menu.node_id) s; menu = none }

  unfoldable pub breakpoint_label : String → Session N V → String
  unfolding is_armed
  breakpoint_label id s = if is_armed id s then "Remove breakpoint" else "Add breakpoint"
