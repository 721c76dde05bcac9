-- ===== src/Preview.antt =====
-- The image preview of frontend/src/components/useImagePreview.ts and the view of
-- frontend/src/components/ImagePreview.tsx. An effect of the hook is known by its number, and its
-- timers and its call by that of the effect.
pub mod Current
use workflowui.Base.{
  ℕ, ◌+◌, String, Bool, true, false, not, ◌&&◌, ◌||◌, Option, none, some, List, [], ◌∷◌, ◌++◌, any,
  filter, eqb, ◌==◌, if◌then◌else◌,
}

-- what an armed timer will do: reset the preview, or call the backend for a path
pub data Task : Type 0 where
  resets : Task
  fetches : String → Task

pub record Preview : Type 0 where
  pub preview : Option String
  pub loading : Bool
  pub error : Bool
  -- the number of the last effect, which alone is not cancelled
  pub effect : ℕ
  -- the timer of that effect, and the calls in flight by their effects
  pub timer : Option Task
  pub calls : List (ℕ × String)

abbrev pub init : Preview
init = record {
  preview = none;
  loading = false;
  error = false;
  effect = 0;
  timer = none;
  calls = [];
}

-- the effect, which runs again when the path or `enabled` has changed: the clean-up of the last one
-- has cancelled it and cleared its timer
unfoldable pub run_effect : (String → String) → Bool → String → Preview → Preview
run_effect trim enabled file_path s =
    let trimmed = trim file_path in
    record s {
      effect = s.effect + 1;
      timer =
          if not enabled
          then some resets
          else if trimmed == ""
          then some resets
          else some (fetches trimmed);
    }

abbrev pub run_task : Option Task → Preview → Preview
run_task none s = s
run_task (some resets) s = record s { preview = none; error = false; loading = false; timer = none }
run_task (some (fetches path)) s = record s {
  loading = true;
  error = false;
  timer = none;
  calls = s.calls ++ (s.effect, path) ∷ [];
}

-- the timer of the last effect goes off
unfoldable pub on_timer : Preview → Preview
on_timer s = run_task s.timer s

-- the end of a call: a picture, or none for a failure
unfoldable pub commit : Option String → Preview → Preview
commit (some url) s = record s { preview = some url; error = false; loading = false }
commit none s = record s { preview = none; error = true; loading = false }

unfoldable pub on_answer : ℕ → Option String → Preview → Preview
unfolding commit
on_answer effect result s =
    let s' : Preview = record s { calls = filter (λ c. not (eqb c.0 effect)) s.calls } in
    if eqb effect s.effect then commit result s' else s'

-- what `ImagePreviewView` shows
pub data PreviewView : Type 0 where
  shows_loading shows_error shows_nothing : PreviewView
  shows_image : String → PreviewView

abbrev pub image_of : Option String → PreviewView
image_of none = shows_nothing
image_of (some url) = if url == "" then shows_nothing else shows_image url

unfoldable pub preview_view : Preview → PreviewView
preview_view s =
    if s.loading then shows_loading else if s.error then shows_error else image_of s.preview

pub data Event : Type 0 where
  changes : Bool → String → Event
  times_out : Event
  answers : ℕ → Option String → Event

module _ (trim : String → String) where
  unfoldable pub step : Event → Preview → Preview
  unfolding run_effect on_timer on_answer
  step (changes enabled path) s = run_effect trim enabled path s
  step times_out s = on_timer s
  step (answers effect result) s = on_answer effect result s

  unfoldable pub run : List Event → Preview → Preview
  unfolding step
  run [] s = s
  run (e ∷ es) s = run es (step e s)
