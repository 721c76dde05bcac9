-- ===== src/Menu/Agree.antt =====
-- The menu's breakpoint item and the keyboard's toggle.
use workflowui.Base.{
  ◌≡◌, refl, String, Bool, true, false, not, ◌&&◌, ◌||◌, List, [], ◌∷◌, none, some, any, all, ◌==◌,
  is_some, arith,
}
use workflowui.Debug.{Breakpoint, find_breakpoint, add_breakpoint}
use workflowui.Ws.{call, default_call_timeout_ms}
use workflowui.Actions.{Session, Wire, toggle_breakpoint_at, arm, sync_breakpoint}
use workflowui.Menu.{MenuState, is_armed, toggle_breakpoint}

-- no breakpoint of the node is disabled
abbrev pub is_undimmed : String → List Breakpoint → Bool
is_undimmed id bs = all (λ b. not (b.node_id == id) || b.enabled) bs

armed_found :
    (id : String) (bs : List Breakpoint)
    → is_undimmed id bs ≡ true
    → any (λ b. b.node_id == id && b.enabled) bs ≡ is_some (find_breakpoint id bs)
unfolding find_breakpoint
armed_found id [] h = refl
armed_found id (b ∷ bs) h = ground (arith, armed_found id bs)

module _ {N V : Type 0} where
  -- For a node none of whose breakpoints is disabled, the menu's item does to the stores and sends to
  -- the backend what the shortcut does, and closes the menu.
  pub toggle_breakpoint-toggle_breakpoint_at :
      (wire : Wire V) (menu : MenuState N) (s : Session N V)
      → is_undimmed menu.node_id s.runner.debug.breakpoints ≡ true
      → toggle_breakpoint wire menu s
        ≡ record { session = toggle_breakpoint_at wire menu.node_id s; menu = none }
  unfolding toggle_breakpoint toggle_breakpoint_at is_armed
  toggle_breakpoint-toggle_breakpoint_at wire menu s h =
      rw (armed_found menu.node_id s.runner.debug.breakpoints h) refl

  -- On a node whose breakpoint is there but is not armed, the item "Add breakpoint" changes no
  -- store, and during a run it still has the backend add one.
  pub toggle_breakpoint_disabled :
      (wire : Wire V) (menu : MenuState N) (s : Session N V)
      → is_some (find_breakpoint menu.node_id s.runner.debug.breakpoints) ≡ true
      → is_armed menu.node_id s ≡ false
      → s.runner.workflow.is_running ≡ true
      → let t = (toggle_breakpoint wire menu s).session in
        (t.runner ≡ s.runner)
        × (t.client
            ≡ call "debug.add_breakpoint"
                (some (wire.of_node_id menu.node_id))
                default_call_timeout_ms
                s.client)
  unfolding toggle_breakpoint arm sync_breakpoint add_breakpoint
  toggle_breakpoint_disabled wire menu s found dim busy = rw (dim, busy, found) (refl, refl)
