-- ===== src/Preview/Current.antt =====
-- The preview is that of the path as it is now.
use workflowui.Base.{ℕ, ◌≡◌, String, true, false, Option, none, some, List, [], ◌∷◌, ◌==◌}
use workflowui.Preview.{
  Preview, PreviewView, shows_error, image_of, run_effect, on_timer, on_answer,
}

-- answers one after another, each with the effect of its call
pub answer_all : List (ℕ × Option String) → Preview → Preview
answer_all [] s = s
answer_all ((effect, result) ∷ rest) s = answer_all rest (on_answer effect result s)

-- the part of the state that is shown
pub record IsShown (s t : Preview) : Type 0 where
  pub preview : t.preview ≡ s.preview
  pub loading : t.loading ≡ s.loading
  pub error : t.error ≡ s.error
  pub effect : t.effect ≡ s.effect
  pub timer : t.timer ≡ s.timer

abbrev pub view_of_answer : Option String → PreviewView
view_of_answer none = shows_error
view_of_answer (some url) = image_of (some url)

module _ (trim : String → String) (path : String) (named : (trim path == "") ≡ false) where
  abbrev pub changed : Preview → Preview
  changed s = run_effect trim true path s

  -- the state once the timer has gone off, after some late answers
  abbrev waiting : List (ℕ × Option String) → Preview → Preview
  waiting late s = on_timer (answer_all late (changed s))
