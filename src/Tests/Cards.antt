-- ===== src/Tests/Cards.antt =====
-- The handles of a node component, and the preview of a saved image.
use workflowui.Base.{ℕ, arith, String, ◌≡◌, refl, false, none, some, [], ◌∷◌, Memᴰ}
use workflowui.Manifest.{input_image_entry}
use workflowui.Store.{idle, running, done}
use workflowui.Preview.{shows_loading}
use workflowui.Cards.{CardData, Format}
use workflowui.Cards.Saved.{Saved, mounted, run_effect, on_timer, saved_view}
use workflowui.Cards.Saved.Thumbnail.{answer_all, run_effect_lem}
use workflowui.Cards.Ports.{drawn_ports, drawn_ports_lem}

abbrev format : Format ℕ
format = record {
  print = λ n. "0";
  fixed = λ digits n. "0";
  decimal = λ n. "0";
  positive = λ v. none;
  upper = λ t. t;
  lowest = λ n ns. n;
  highest = λ n ns. n;
  mean = λ n ns. n;
  json = λ o. "{}";
}

abbrev card_data : CardData ℕ
card_data = record {
  status = idle;
  config = [];
  elapsed_ms = none;
  runs_count = none;
  avg_ms = none;
  output = none;
  has_input = false;
  has_output = false;
}

drawn_ports_lem_example :
    drawn_ports format card_data input_image_entry.type ≡ some input_image_entry.ports
drawn_ports_lem_example = drawn_ports_lem format card_data input_image_entry (Memᴰ.head refl)

abbrev same_text : String → String
same_text t = t

-- the picture of a run is being fetched when the next run begins
abbrev fetching : Saved
fetching = on_timer (run_effect same_text done "out.png" (mounted running))

run_effect_lem_example :
    saved_view (
      answer_all
        ((1, some "picture") ∷ [])
        (on_timer (run_effect same_text running "out.png" fetching)))
    ≡ shows_loading
unfolding on_timer run_effect mounted
run_effect_lem_example =
    run_effect_lem same_text "out.png" running fetching ((1, some "picture") ∷ []) none
      (omega arith, tt)
