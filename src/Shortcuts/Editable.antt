-- ===== src/Shortcuts/Editable.antt =====
-- Which shortcuts fire while the user types in a field.
use workflowui.Base.{
  subst, if_both, ◌≡◌, inl, inr, Bool, true, ◌&&◌, ◌||◌, not, Option, none, some, Bool-cases, ◌==◌,
}
use workflowui.Shortcuts.{
  Element, KeyEvent, Shortcut, undo, redo, save_file, open_file, is_letter, is_cmd,
  is_editable_target, handle_key_down, chord,
}

-- the chords that stay global
abbrev pub IsGlobal : Shortcut → Type 0
IsGlobal undo = Unit
IsGlobal redo = Unit
IsGlobal save_file = Unit
IsGlobal open_file = Unit
IsGlobal _ = ⊥

abbrev Fires : Option Shortcut → Type 0
Fires none = Unit
Fires (some a) = IsGlobal a

chord-Fires : (e : KeyEvent) → Fires (chord true e)
unfolding chord
chord-Fires e = if_both Fires (e.key == "z" && not e.shift_key) _ _ tt (
    if_both Fires ((e.shift_key && is_letter "z" "Z" e.key) || e.key == "y") _ _ tt (
      if_both Fires (is_letter "s" "S" e.key) _ _ tt
        (if_both Fires (is_letter "o" "O" e.key) _ _ tt tt)))

-- While an editable element has the focus, a key runs undo, redo, save or open, and that with the
-- command key held, or nothing.
pub handle_key_down_editable :
    (is_mac : Bool) (e : KeyEvent) (active : Option Element) (a : Shortcut)
    → is_editable_target active ≡ true
    → handle_key_down is_mac e active ≡ some a
    → (is_cmd is_mac e ≡ true) × IsGlobal a
unfolding handle_key_down
handle_key_down_editable is_mac e active a editable h = elim (Bool-cases (is_cmd is_mac e)) [
  | inl held ↦ (held, subst Fires (rw (held, editable) at h) (chord-Fires e))
  | inr free ↦ cc (rw (free, editable) at h)
]
