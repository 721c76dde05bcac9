-- ===== src/Debug.antt =====
-- The debug store of frontend/src/store/debugStore.ts: breakpoints, the paused node, the inspected
-- data and the bounded log. `V` is the type of the source's `unknown` values.
pub mod Logs
pub mod Breakpoints
use workflowui.Base.{
  ℕ, ◌+◌, ◌-◌, String, Bool, true, not, Option, none, some, List, [], ◌∷◌, ◌++◌, map, length, drop,
  filter, find?, leb, is_some, if◌then◌else◌, ◌==◌,
}

pub record Breakpoint : Type 0 where
  pub node_id : String
  pub enabled : Bool

pub data Level : Type 0 where
  info warn error : Level

-- `Omit<DebugLogEntry, 'timestamp'>`, what `addLog` receives
pub record LogInput {ℓ} (V : Type ℓ) : Type ℓ where
  pub node_id : String
  pub message : String
  pub level : Level
  pub payload : Option V

pub record DebugLogEntry {ℓ} (V : Type ℓ) : Type ℓ where
  pub timestamp : ℕ
  pub entry : LogInput V

abbrev pub max_log_entries : ℕ
max_log_entries = 2000

pub record DebugState {ℓ} (V : Type ℓ) : Type ℓ where
  pub breakpoints : List Breakpoint
  pub paused_at_node_id : Option String
  pub inspect_data : Option V
  pub logs : List (DebugLogEntry V)

unfoldable pub find_breakpoint : String → List Breakpoint → Option Breakpoint
find_breakpoint id bs = find? (λ b. b.node_id == id) bs

abbrev pub flip : String → Breakpoint → Breakpoint
flip id b = if b.node_id == id then record b { enabled = not b.enabled } else b

module _ {ℓ} {V : Type ℓ} where
  abbrev pub init : DebugState V
  init = record { breakpoints = []; paused_at_node_id = none; inspect_data = none; logs = [] }

  unfoldable pub add_breakpoint : String → DebugState V → DebugState V
  add_breakpoint id s =
      if is_some (find_breakpoint id s.breakpoints)
      then s
      else record s { breakpoints = s.breakpoints ++ record { node_id = id; enabled = true } ∷ [] }

  unfoldable pub remove_breakpoint : String → DebugState V → DebugState V
  remove_breakpoint id s = record s {
    breakpoints = filter (λ b. not (b.node_id == id)) s.breakpoints;
  }

  unfoldable pub toggle_breakpoint : String → DebugState V → DebugState V
  toggle_breakpoint id s = record s { breakpoints = map (flip id) s.breakpoints }

  unfoldable pub set_paused_at : Option String → DebugState V → DebugState V
  set_paused_at id s = record s { paused_at_node_id = id }

  unfoldable pub set_inspect_data : Option V → DebugState V → DebugState V
  set_inspect_data d s = record s { inspect_data = d }

  -- `now` is the result of `Date.now()`
  unfoldable pub add_log : ℕ → LogInput V → DebugState V → DebugState V
  add_log now e s =
      let stamped : DebugLogEntry V = record { timestamp = now; entry = e } in
      record s {
        logs =
            if leb max_log_entries (length s.logs)
            then drop (length s.logs - max_log_entries + 1) s.logs ++ stamped ∷ []
            else s.logs ++ stamped ∷ [];
      }

  unfoldable pub clear_logs : DebugState V → DebugState V
  clear_logs s = record s { logs = [] }
