-- ===== src/Console/Scroll.antt =====
-- Whether the log follows its tail.
use workflowui.Base.{
  ℕ, ◌+◌, ◌-◌, ◌≡◌, refl, true, false, arith, if◌then◌else◌, Bool-cases, inl, inr,
}
use workflowui.Console.{
  LogView, is_anchored, handle_scroll, follow_tail, jump_to_latest, shows_jump,
}

anchored_bottom :
    (scroll_height client_height : ℕ)
    → is_anchored scroll_height (scroll_height - client_height) client_height ≡ true
anchored_bottom h c = ground arith

-- In a log that is not collapsed, a scroll decides what the next lines do: if it ended within 32
-- pixels of the bottom, the log moves to the bottom of its new height and a scroll there keeps it
-- following, and else it stays where it is however it grows, until "JUMP TO LATEST", which is shown,
-- takes it to the bottom and makes it follow again.
pub follow_tail-handle_scroll :
    (old new client logs : ℕ) (v : LogView)
    → v.collapsed ≡ false
    → let after = handle_scroll old client v in
      let grown = follow_tail new client after in
      if is_anchored old v.scroll_top client
      then (grown.scroll_top ≡ new - client) × ((handle_scroll new client grown).autoscroll ≡ true)
      else (grown.scroll_top ≡ v.scroll_top)
        × (shows_jump (logs + 1) grown ≡ true)
        × ((handle_scroll new client (jump_to_latest new client grown)).autoscroll ≡ true)
unfolding handle_scroll follow_tail jump_to_latest shows_jump
follow_tail-handle_scroll old new client logs v shown =
    elim (Bool-cases (is_anchored old v.scroll_top client)) [
      | inl near ↦ rw (near, shown) (refl, anchored_bottom new client)
      | inr far ↦ rw (far, shown) (refl, ground arith, anchored_bottom new client)
    ]
