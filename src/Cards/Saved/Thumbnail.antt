-- ===== src/Cards/Saved/Thumbnail.antt =====
-- What the component shows after its effect.
use workflowui.Base.{
  ℕ, ◌+◌, ◌<◌, ◌≡◌, refl, sym, ◌∙◌, ap, subst, String, not, ◌&&◌, Option, none, List, [], ◌∷◌, All,
  eqb, eqb_iff, eqb-false_iff, if_false, if_true, ◌==◌, arith, Bool-cases, inl, inr, if◌then◌else◌,
}
use workflowui.Store.{NodeStatus, idle, running, done, error, paused, skipped}
use workflowui.Preview.{shows_loading, image_of}
use workflowui.Cards.Saved.{
  Saved, is_done, is_idle, starts_fetch, run_effect, on_timer, on_answer, saved_view,
}

-- answers one after another, each with the effect of its call
pub answer_all : List (ℕ × Option String) → Saved → Saved
answer_all [] s = s
answer_all ((effect, result) ∷ rest) s = answer_all rest (on_answer effect result s)

-- the part of the state that is shown, and the number of the effect
pub record IsShown (s t : Saved) : Type 0 where
  pub preview : t.preview ≡ s.preview
  pub loading : t.loading ≡ s.loading
  pub effect : t.effect ≡ s.effect

on_answer_old :
    (effect : ℕ) (result : Option String) (s : Saved)
    → effect < s.effect
    → IsShown s (on_answer effect result s)
unfolding on_answer
on_answer_old effect result s old =
    subst (IsShown s)
      (sym (
        if_false (eqb effect s.effect) _ _
          ((eqb-false_iff effect s.effect).1 (λ e. omega (arith, old, e)))))
      (record { preview = refl; loading = refl; effect = refl })

answer_all_old :
    (late : List (ℕ × Option String)) (s : Saved)
    → All (λ a. a.0 < s.effect) late
    → IsShown s (answer_all late s)
unfolding answer_all
answer_all_old [] s old = record { preview = refl; loading = refl; effect = refl }
answer_all_old ((effect, result) ∷ rest) s old =
    let first = on_answer_old effect result s old.0 in
    let later =
      answer_all_old rest (on_answer effect result s) (
        subst (λ (n : ℕ). All (λ (a : ℕ × Option String). a.0 < n) rest) (sym first.effect)
          old.1) in
    record {
      preview = later.preview ∙ first.preview;
      loading = later.loading ∙ first.loading;
      effect = later.effect ∙ first.effect;
    }

on_answer_now :
    (effect : ℕ) (result : Option String) (t : Saved)
    → t.effect ≡ effect
    → saved_view (on_answer effect result t) ≡ image_of result
unfolding on_answer saved_view
on_answer_now effect result t e =
    ap saved_view (if_true (eqb effect t.effect) _ _ ((eqb_iff effect t.effect).1 (sym e)))

module _ (trim : String → String) (path : String) where
  abbrev waiting : NodeStatus → Saved → Saved
  waiting status s = on_timer (run_effect trim status path s)

  -- the state once the timer, if there is one, has gone off
  pub record IsWaiting (status : NodeStatus) (s t : Saved) : Type 0 where
    pub effect : t.effect ≡ s.effect + 1
    pub view : saved_view t ≡ (
        if starts_fetch trim status path s
        then shows_loading
        else if s.loading
        then shows_loading
        else image_of (if is_idle status then none else s.preview))

  waiting-IsWaiting : (status : NodeStatus) (s : Saved) → IsWaiting status s (waiting status s)
  unfolding on_timer run_effect saved_view starts_fetch
  waiting-IsWaiting done s =
      elim (Bool-cases (not (is_done s.prev_status) && not (trim path == ""))) [
        | inl starts ↦ record { effect = rw starts refl; view = rw starts refl }
        | inr stays ↦ record { effect = rw stays refl; view = rw stays refl }
      ]
  waiting-IsWaiting idle s = record { effect = refl; view = refl }
  waiting-IsWaiting running s = record { effect = refl; view = refl }
  waiting-IsWaiting error s = record { effect = refl; view = refl }
  waiting-IsWaiting paused s = record { effect = refl; view = refl }
  waiting-IsWaiting skipped s = record { effect = refl; view = refl }

  view_same : (s t : Saved) → IsShown s t → saved_view t ≡ saved_view s
  unfolding saved_view
  view_same s t h = rw (h.loading, h.preview) refl

  -- After a change of the node's status or path the answers to earlier calls show nothing. If the
  -- status has become `done` and the path is not blank, the node is loading until the call for the
  -- path ends, and then shows its picture, or nothing where it failed. In all other cases it stays as
  -- it was, but without a picture on a status of `idle`; a node that was loading goes on loading.
  pub run_effect_lem :
      (status : NodeStatus) (s : Saved) (late : List (ℕ × Option String)) (result : Option String)
      → All (λ a. a.0 < s.effect + 1) late
      → let t = answer_all late (on_timer (run_effect trim status path s)) in
        if is_done status && not (is_done s.prev_status) && not (trim path == "")
        then (saved_view t ≡ shows_loading)
          × (saved_view (on_answer (s.effect + 1) result t) ≡ image_of result)
        else saved_view t ≡ (
            if s.loading
            then shows_loading
            else image_of (if is_idle status then none else s.preview))
  unfolding starts_fetch
  run_effect_lem status s late result old =
      let w = waiting-IsWaiting status s in
      let same =
        answer_all_old late (waiting status s)
          (subst (λ (n : ℕ). All (λ (a : ℕ × Option String). a.0 < n) late) (sym w.effect) old) in
      let t = answer_all late (waiting status s) in
      let view = view_same (waiting status s) t same ∙ w.view in
      elim (Bool-cases (is_done status && not (is_done s.prev_status) && not (trim path == ""))) [
        | inl starts ↦
            rw starts
              (rw starts at view, on_answer_now (s.effect + 1) result t (same.effect ∙ w.effect))
        | inr stays ↦ rw stays (rw stays at view)
      ]
