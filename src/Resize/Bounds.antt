-- ===== src/Resize/Bounds.antt =====
-- A panel keeps to its bounds, and finds its size again.
use workflowui.Base.{
  ℕ, ◌≤◌, ◌≡◌, ◌≢◌, min, max, String, true, Option, some, none, List, [], ◌∷◌, arith, if_both, ◌==◌,
  eq_false_of_ne, false, ◌&&◌, leb,
}
use workflowui.Base.{ℤ, pos, negsuc}
use workflowui.Resize.{
  ResizableOptions, Panel, Event, down, move, up, dragged, within, first_size, mount, on_mouse_down,
  on_mouse_move, on_mouse_up, step, run,
}

abbrev pub IsWithin : ResizableOptions → ℕ → Type 0
IsWithin o n = (o.min_size ≤ n) × (n ≤ o.max_size)

module _ (o : ResizableOptions) (ordered : o.min_size ≤ o.max_size)
    (fits : IsWithin o o.initial_size) where
  within-IsWithin : (parsed : Option ℤ) → IsWithin o (within o parsed)
  within-IsWithin none = fits
  within-IsWithin (some (negsuc n)) = fits
  within-IsWithin (some (pos n)) = ground arith

  first_size-IsWithin :
      (parse : String → Option ℤ) (stored : Option String) → IsWithin o (first_size parse o stored)
  unfolding first_size
  first_size-IsWithin parse none = if_both (IsWithin o) o.is_stored _ _ fits fits
  first_size-IsWithin parse (some text) =
      if_both (IsWithin o) o.is_stored _ _
        (if_both (IsWithin o) (text == "") _ _ fits (within-IsWithin (parse text))) fits

  clamp-IsWithin : (n : ℕ) → IsWithin o (min o.max_size (max o.min_size n))
  clamp-IsWithin n = (omega arith, omega arith)

  step-IsWithin :
      (decimal : ℕ → String) (e : Event) (s : Panel)
      → IsWithin o s.size
      → IsWithin o (step decimal o e s).size
  unfolding step on_mouse_down on_mouse_move on_mouse_up
  step-IsWithin decimal (down p) s v = v
  step-IsWithin decimal (move p) s v =
      if_both (λ (t : Panel). IsWithin o t.size) s.is_resizing _ s (clamp-IsWithin (dragged p s)) v
  step-IsWithin decimal up s v = if_both (λ (t : Panel). IsWithin o t.size) s.is_resizing _ s v v

  run_from-IsWithin :
      (decimal : ℕ → String) (es : List Event) (s : Panel)
      → IsWithin o s.size
      → IsWithin o (run decimal o es s).size
  unfolding run
  run_from-IsWithin decimal [] s v = v
  run_from-IsWithin decimal (e ∷ es) s v =
      run_from-IsWithin decimal es (step decimal o e s) (step-IsWithin decimal e s v)

  -- Where the initial size lies within the bounds, the size does so after any stored text and any
  -- movements of the mouse.
  pub run-IsWithin :
      (parse : String → Option ℤ) (decimal : ℕ → String) (stored : Option String) (es : List Event)
      → IsWithin o (run decimal o es (mount parse o stored)).size
  unfolding mount
  run-IsWithin parse decimal stored es =
      run_from-IsWithin decimal es (mount parse o stored) (first_size-IsWithin parse stored)

-- Where numbers are read back as they are printed, a size within the bounds that is stored at the
-- end of a drag is the size of the panel when it is mounted again.
pub first_size-on_mouse_up :
    (o : ResizableOptions) (parse : String → Option ℤ) (decimal : ℕ → String) (s : Panel)
    → decimal s.size ≢ ""
    → parse (decimal s.size) ≡ some (pos s.size)
    → o.is_stored ≡ true
    → s.is_resizing ≡ true
    → IsWithin o s.size
    → (mount parse o (on_mouse_up decimal o s).storage).size ≡ s.size
unfolding mount on_mouse_up
first_size-on_mouse_up o parse decimal s printed read kept drag v =
    let text : (decimal s.size == "") ≡ false = eq_false_of_ne (decimal s.size) "" printed in
    let fit : (leb o.min_size s.size && leb s.size o.max_size) ≡ true = ground arith in
    rw (drag, kept, text, read, fit)
