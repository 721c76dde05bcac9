-- ===== src/Canvas/Gesture.antt =====
-- The warning at the end of a connection gesture.
use workflowui.Base.{
  ◌≡◌, refl, ap, ◌∙◌, String, Option, none, some, List, [], ◌∷◌, Bool-cases, inl, inr,
  if◌then◌else◌,
}
use workflowui.Ports.{ConnectionLike, shown}
use workflowui.Toast.{ToastLevel}
use workflowui.Runner.{truthy}
use workflowui.Actions.{show_toast}
use workflowui.Canvas.{Canvas, judge, is_valid_connection, on_connect_start, on_connect_end}

module _ {N V : Type 0} where
  -- React Flow asks about the handles that the pointer passes
  unfoldable pub ask_all : List ConnectionLike → Canvas N V → Canvas N V
  unfolding is_valid_connection
  ask_all [] c = c
  ask_all (conn ∷ conns) c = ask_all conns (is_valid_connection conn c).0

  -- the reason of the last connection that does not fit, or else what was there before
  abbrev pub last_reason : Canvas N V → List ConnectionLike → Option String → Option String
  last_reason c [] before = before
  last_reason c (conn ∷ conns) before =
      let result = judge conn c in
      last_reason c conns
        (if result.ok then before else some (shown result.reason "invalid connection"))

  ask_lem :
      (conn : ConnectionLike) (c : Canvas N V)
      → (is_valid_connection conn c).0 ≡ record c {
        last_rejection =
            if (judge conn c).ok
            then c.last_rejection
            else some (shown (judge conn c).reason "invalid connection");
      }
  unfolding is_valid_connection
  ask_lem conn c = elim (Bool-cases (judge conn c).ok) [
    | inl fits ↦ rw fits refl
    | inr bad ↦ rw bad refl
  ]

  ask_all_lem :
      (conns : List ConnectionLike) (c : Canvas N V)
      → ask_all conns c ≡ record c { last_rejection = last_reason c conns c.last_rejection }
  unfolding ask_all
  ask_all_lem [] c = refl
  ask_all_lem (conn ∷ conns) c = ap (ask_all conns) (ask_lem conn c) ∙ ask_all_lem conns _

  -- what a gesture leaves
  abbrev pub closed_with : Option String → Canvas N V → Canvas N V
  closed_with o c = elim (truthy o) [
    | none ↦ record c { last_rejection = o }
    | some why ↦ record c {
      session = show_toast why ToastLevel.warn c.session;
      last_rejection = none;
    }
  ]

  on_connect_end_lem :
      (o : Option String) (c : Canvas N V)
      → on_connect_end (record c { last_rejection = o }) ≡ closed_with o c
  unfolding on_connect_end
  on_connect_end_lem o c = refl

  -- A gesture that asks about any connections ends with one warning, the reason of the last of them
  -- that did not fit, and with no warning if all fitted; whether the last one asked about fits makes
  -- no difference. Nothing else changes.
  pub gesture_lem :
      (conns : List ConnectionLike) (c : Canvas N V)
      → on_connect_end (ask_all conns (on_connect_start c))
        ≡ closed_with (last_reason c conns none) c
  unfolding on_connect_start
  gesture_lem conns c =
      ap on_connect_end (ask_all_lem conns (on_connect_start c))
      ∙ on_connect_end_lem (last_reason c conns none) c
