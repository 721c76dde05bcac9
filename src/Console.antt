-- ===== src/Console.antt =====
-- The console of frontend/src/panels/ConsolePanel.tsx: its buttons and labels, and whether the log
-- follows its tail; and what frontend/src/components/ToastContainer.tsx does on a key.
pub mod Buttons
pub mod Scroll
use workflowui.Base.{
  ℕ, ◌+◌, ◌-◌, String, Bool, true, false, not, ◌&&◌, ◌||◌, Option, none, some, List, [], ◌∷◌,
  filter, length, leb, eqb, ltb, ◌==◌, if◌then◌else◌,
}
use workflowui.Debug.{Breakpoint}
use workflowui.Toast.{Toast, ToastLevel, ToastState, remove_toast}
use workflowui.Runner.{truthy, ◌<>◌}
use workflowui.Actions.{
  Session, Wire, is_truthy, run_or_resume, continue_exec, step_over, stop, save, load,
}

pub record Button : Type 0 where
  pub text : String
  pub aria_label : String
  pub title : String
  pub disabled : Bool

pub data ButtonName : Type 0 where
  run_button continue_button step_button stop_button save_button load_button : ButtonName

-- what the console shows beside its buttons
pub record StatusBar : Type 0 where
  pub paused_badge : Option String
  pub armed_count : Option ℕ
  pub status_class : String
  pub status_label : String
  pub ws_label : String
  pub ws_title : String
  pub ws_value : String

-- the log area: `autoscroll`, and whether it is collapsed
pub record LogView : Type 0 where
  pub autoscroll : Bool
  pub collapsed : Bool
  pub scroll_top : ℕ

abbrev pub autoscroll_stick_px : ℕ
autoscroll_stick_px = 32

-- `scrollHeight - scrollTop - clientHeight <= AUTOSCROLL_STICK_PX`, in whole pixels
abbrev pub is_anchored : ℕ → ℕ → ℕ → Bool
is_anchored scroll_height scroll_top client_height =
    leb scroll_height (autoscroll_stick_px + client_height + scroll_top)

unfoldable pub handle_scroll : ℕ → ℕ → LogView → LogView
handle_scroll scroll_height client_height v = record v {
  autoscroll = is_anchored scroll_height v.scroll_top client_height;
}

-- the effect that runs when the log has grown or `autoscroll` has changed; the browser keeps
-- `scrollTop` within what can be scrolled
unfoldable pub follow_tail : ℕ → ℕ → LogView → LogView
follow_tail scroll_height client_height v =
    if not v.autoscroll
    then v
    else if v.collapsed
    then v
    else record v { scroll_top = scroll_height - client_height }

unfoldable pub jump_to_latest : ℕ → ℕ → LogView → LogView
jump_to_latest scroll_height client_height v = record v {
  scroll_top = scroll_height - client_height;
  autoscroll = true;
}

-- whether "JUMP TO LATEST" is shown
unfoldable pub shows_jump : ℕ → LogView → Bool
shows_jump logs v = not v.collapsed && not v.autoscroll && ltb 0 logs

abbrev pub armed_bp_count : List Breakpoint → ℕ
armed_bp_count bs = length (filter Breakpoint.enabled bs)

module _ {N V : Type 0} where
  unfoldable pub button : ButtonName → Session N V → Button
  button run_button s =
      let paused = is_truthy s.runner.debug.paused_at_node_id in
      record {
        text = if paused then "RESUME" else "RUN";
        aria_label = if paused then "Resume workflow" else "Run workflow";
        title = "Run workflow (R) / Resume if paused";
        disabled = s.runner.workflow.is_running && not paused;
      }
  button continue_button s = record {
    text = "CONTINUE";
    aria_label = "Continue until next breakpoint";
    title = "Continue execution (until next breakpoint)";
    disabled = not (is_truthy s.runner.debug.paused_at_node_id);
  }
  button step_button s = record {
    text = "STEP";
    aria_label = "Step over to next node";
    title = "Step over (run next node then pause)";
    disabled = not (is_truthy s.runner.debug.paused_at_node_id);
  }
  button stop_button s = record {
    text = "STOP";
    aria_label = "Stop workflow";
    title = "Stop workflow";
    disabled = not s.runner.workflow.is_running;
  }
  button save_button s = record {
    text = "SAVE";
    aria_label = "Save workflow";
    title = "Save workflow (Cmd/Ctrl+S)";
    disabled = false;
  }
  button load_button s = record {
    text = "LOAD";
    aria_label = "Load workflow";
    title = "Load workflow (Cmd/Ctrl+O)";
    disabled = false;
  }

  -- the action of a button, which a click runs if the button is not disabled
  unfoldable pub action : Wire V → ButtonName → Session N V → Session N V
  action wire run_button s = run_or_resume wire s
  action wire continue_button s = continue_exec s
  action wire step_button s = step_over s
  action wire stop_button s = stop s
  action wire save_button s = save s
  action wire load_button s = load s

  unfoldable pub click : Wire V → ButtonName → Session N V → Session N V
  unfolding button action
  click wire b s = if (button b s).disabled then s else action wire b s

  unfoldable pub status_bar : Bool → Session N V → StatusBar
  status_bar ws_connected s =
      let is_running = s.runner.workflow.is_running in
      let paused = is_truthy s.runner.debug.paused_at_node_id in
      let armed = armed_bp_count s.runner.debug.breakpoints in
      record {
        paused_badge = truthy s.runner.debug.paused_at_node_id;
        armed_count = if ltb 0 armed then some armed else none;
        status_class = if is_running then "running" else if paused then "paused" else "ready";
        status_label =
            if is_running && not paused then "RUNNING" else if paused then "PAUSED" else "READY";
        ws_label = if ws_connected then "Backend connected" else "Backend disconnected";
        ws_title = if ws_connected then "Connected" else "Disconnected";
        ws_value = if ws_connected then "ONLINE" else "OFFLINE";
      }

-- the key handler of `ToastContainer`, with the tag of the event's target
abbrev pub is_text_field : Option (String × Bool) → Bool
is_text_field none = false
is_text_field (some (tag, is_content_editable)) =
    tag == "INPUT" || tag == "TEXTAREA" || is_content_editable

abbrev pub last_toast : List Toast → Option Toast
last_toast [] = none
last_toast (t ∷ []) = some t
last_toast (t ∷ u ∷ ts) = last_toast (u ∷ ts)

unfoldable pub on_toast_key : String → Option (String × Bool) → ToastState → ToastState
on_toast_key key target s =
    if not (key == "Escape")
    then s
    else if is_text_field target
    then s
    else elim (last_toast s.toasts) [ none ↦ s | some t ↦ remove_toast t.id s ]
