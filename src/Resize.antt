-- ===== src/Resize.antt =====
-- The size of a panel: frontend/src/hooks/useResizable.ts. A position is the coordinate of the mouse
-- in the direction of the panel, which is negative outside the window; `parse` is `parseInt`, and
-- `decimal` prints a number.
pub mod Bounds
use workflowui.Base.{
  ℕ, ◌+◌, ◌-◌, min, max, String, Bool, true, false, ◌&&◌, Option, none, some, List, [], ◌∷◌, leb,
  ◌==◌, if◌then◌else◌,
}
use workflowui.Base.{ℤ, pos, negsuc}

-- `is_stored` is whether there is a `storageKey`
pub record ResizableOptions : Type 0 where
  pub min_size : ℕ
  pub max_size : ℕ
  pub initial_size : ℕ
  pub is_stored : Bool

-- `storage` is what `localStorage` holds under the key
pub record Panel : Type 0 where
  pub size : ℕ
  pub is_resizing : Bool
  pub start_pos : ℤ
  pub start_size : ℕ
  pub storage : Option String

abbrev pub pos_part : ℤ → ℕ
pos_part (pos n) = n
pos_part (negsuc n) = 0

abbrev pub neg_part : ℤ → ℕ
neg_part (pos n) = 0
neg_part (negsuc n) = n + 1

abbrev pub within : ResizableOptions → Option ℤ → ℕ
within o none = o.initial_size
within o (some (negsuc n)) = o.initial_size
within o (some (pos n)) = if leb o.min_size n && leb n o.max_size then n else o.initial_size

abbrev pub read_size : (String → Option ℤ) → ResizableOptions → Option String → ℕ
read_size parse o none = o.initial_size
read_size parse o (some text) = if text == "" then o.initial_size else within o (parse text)

-- the initial value of `size`
unfoldable pub first_size : (String → Option ℤ) → ResizableOptions → Option String → ℕ
first_size parse o stored = if o.is_stored then read_size parse o stored else o.initial_size

unfoldable pub mount : (String → Option ℤ) → ResizableOptions → Option String → Panel
unfolding first_size
mount parse o stored = record {
  size = first_size parse o stored;
  is_resizing = false;
  start_pos = pos 0;
  start_size = 0;
  storage = stored;
}

unfoldable pub on_mouse_down : ℤ → Panel → Panel
on_mouse_down p s = record s { is_resizing = true; start_pos = p; start_size = s.size }

-- `startSize + (p - startPos)`, cut off below 0, which `minSize` does anyway
abbrev pub dragged : ℤ → Panel → ℕ
dragged p s = s.start_size + pos_part p + neg_part s.start_pos - (neg_part p + pos_part s.start_pos)

-- the listeners stand only while the panel is resized
unfoldable pub on_mouse_move : ResizableOptions → ℤ → Panel → Panel
on_mouse_move o p s =
    if s.is_resizing then record s { size = min o.max_size (max o.min_size (dragged p s)) } else s

unfoldable pub on_mouse_up : (ℕ → String) → ResizableOptions → Panel → Panel
on_mouse_up decimal o s =
    if s.is_resizing
    then record s {
      is_resizing = false;
      storage = if o.is_stored then some (decimal s.size) else s.storage;
    }
    else s

pub data Event : Type 0 where
  down move : ℤ → Event
  up : Event

unfoldable pub step : (ℕ → String) → ResizableOptions → Event → Panel → Panel
step decimal o (down p) s = on_mouse_down p s
step decimal o (move p) s = on_mouse_move o p s
step decimal o up s = on_mouse_up decimal o s

unfoldable pub run : (ℕ → String) → ResizableOptions → List Event → Panel → Panel
run decimal o [] s = s
run decimal o (e ∷ es) s = run decimal o es (step decimal o e s)
