-- ===== src/Tests/Toast.antt =====
-- The toast store on short runs.
use workflowui.Base.{◌≡◌, refl, List, [], ◌∷◌, Memᴰ}
use workflowui.Toast.{
  Toast, ToastState, Event, add, timeout, info, error, init, run, step, add_toast, fire,
}
use workflowui.Toast.Invariant.{IsValid, run-IsValid}

abbrev script : List Event
script = add "saved" info ∷ add "lost" error ∷ timeout 0 ∷ []

abbrev after : ToastState
after = run script init

after_toasts : after.toasts ≡ record { id = 2; message = "lost"; level = error } ∷ []
unfolding run step add_toast fire
after_toasts = refl

run-IsValid_example : IsValid (run script init)
run-IsValid_example = run-IsValid script

abbrev lost : Toast
lost = record { id = 2; message = "lost"; level = error }

lost_shown : Memᴰ lost after.toasts
unfolding run step add_toast fire
lost_shown = Memᴰ.head refl
