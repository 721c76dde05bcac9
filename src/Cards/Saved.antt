-- ===== src/Cards/Saved.antt =====
-- The preview of frontend/src/nodes/SaveImageNode.tsx: the effect of the component, which fetches the
-- picture when the node's status has become `done`, and what the component shows of it. Effects,
-- timers and calls are told apart by numbers as those of `useImagePreview` are.
pub mod Thumbnail
use workflowui.Base.{
  ℕ, ◌+◌, String, Bool, true, false, not, ◌&&◌, Option, none, some, List, [], ◌∷◌, ◌++◌, filter,
  eqb, ◌==◌, if◌then◌else◌,
}
use workflowui.Store.{NodeStatus, idle, running, done, error, paused, skipped}
use workflowui.Preview.{Task, resets, fetches, PreviewView, shows_loading, image_of}

pub record Saved : Type 0 where
  pub preview : Option String
  pub loading : Bool
  -- `prevStatusRef.current`
  pub prev_status : NodeStatus
  -- the number of the last effect, its timer, and the calls in flight by their effects
  pub effect : ℕ
  pub timer : Option Task
  pub calls : List (ℕ × String)

abbrev pub is_done : NodeStatus → Bool
is_done done = true
is_done _ = false

abbrev pub is_idle : NodeStatus → Bool
is_idle idle = true
is_idle _ = false

-- the component as it is mounted on a node with this status
unfoldable pub mounted : NodeStatus → Saved
mounted status = record {
  preview = none;
  loading = false;
  prev_status = status;
  effect = 0;
  timer = none;
  calls = [];
}

module _ (trim : String → String) where
  -- the effect gets past its guards: `becameDone` and a path that is not blank
  unfoldable pub starts_fetch : NodeStatus → String → Saved → Bool
  starts_fetch status file_path s =
      is_done status && not (is_done s.prev_status) && not (trim file_path == "")

  -- the effect, after the clean-up of the last one, which cancels it and clears its timer
  unfoldable pub run_effect : NodeStatus → String → Saved → Saved
  unfolding starts_fetch
  run_effect status file_path s = record s {
    prev_status = status;
    effect = s.effect + 1;
    timer =
        if is_idle status
        then some resets
        else if starts_fetch status file_path s
        then some (fetches (trim file_path))
        else none;
  }

abbrev pub run_saved_task : Option Task → Saved → Saved
run_saved_task none s = s
run_saved_task (some resets) s = record s { preview = none; timer = none }
run_saved_task (some (fetches path)) s = record s {
  loading = true;
  timer = none;
  calls = s.calls ++ (s.effect, path) ∷ [];
}

-- the timer of the last effect goes off, if it has one
unfoldable pub on_timer : Saved → Saved
on_timer s = run_saved_task s.timer s

-- the end of a call: a picture, or none for a failure
unfoldable pub on_answer : ℕ → Option String → Saved → Saved
on_answer effect result s =
    let s' : Saved = record s { calls = filter (λ c. not (eqb c.0 effect)) s.calls } in
    if eqb effect s.effect then record s' { preview = result; loading = false } else s'

unfoldable pub saved_view : Saved → PreviewView
saved_view s = if s.loading then shows_loading else image_of s.preview
