-- ===== src/Tests/Actions.antt =====
-- The actions, the menu and the console on a session with two nodes and an open connection.
use workflowui.Base.{ℕ, ◌≡◌, ◌++◌, refl, String, true, false, none, some, [], ◌∷◌, Memᴰ, inl}
use workflowui.Store.{set_running}
use workflowui.Debug
use workflowui.Debug.{add_breakpoint, set_paused_at}
use workflowui.Ws.{
  is_ready, run, step, connect, on_open, call, notification, default_call_timeout_ms,
}
use workflowui.Actions.{
  Session, Wire, RunNode, RunRequest, on_flow, on_debug, run_or_resume, stop, toggle_breakpoint_at,
}
use workflowui.Actions
use workflowui.Actions.Request.{entry}
use workflowui.Actions.Run.{run_includes}
use workflowui.Actions.Pause.{run_or_resume_stopped}
use workflowui.Menu.{MenuState, toggle_breakpoint}
use workflowui.Menu.Agree.{toggle_breakpoint-toggle_breakpoint_at}
use workflowui.Console.{ButtonName, click, action}
use workflowui.Console.Buttons.{click-action}
use workflowui.Tests.Store.{small, node_of, edge_of}
use workflowui.Tests.Ws.{subscribed, subscribed_connected}
use workflowui.Tests.Runner.{start}

-- what the requests are sent as does not matter here
abbrev wire : Wire ℕ
wire = record { of_request = λ q. 1; of_node_id = λ id. 2; run_id = λ v. some "run-3" }

abbrev pub desk : Session ℕ ℕ
desk = record { runner = start; client = subscribed; downloads = []; picker_clicks = 0 }

-- a run that is paused at "b", where a disabled breakpoint stands
abbrev paused : Session ℕ ℕ
paused =
    on_debug (λ d. Debug.toggle_breakpoint "b" (add_breakpoint "b" (set_paused_at (some "b") d)))
      (on_flow (set_running true) desk)

abbrev menu_of : String → MenuState ℕ
menu_of id = record { x = 1; y = 2; node_id = id }

b_shown : Memᴰ (node_of "b" "second") small.nodes
b_shown = Memᴰ.tail (Memᴰ.head refl)

run_includes_example :
    (q : RunRequest ℕ) × ((Actions.run wire desk).client
      ≡ call "workflow.execute" (some (wire.of_request q)) default_call_timeout_ms desk.client)
    × Memᴰ (entry (node_of "b" "second")) q.nodes
run_includes_example =
    run_includes wire desk (node_of "b" "second") (edge_of "f" "b" "b") refl subscribed_connected
      b_shown (Memᴰ.tail (Memᴰ.head refl)) (inl refl)

subscribed_ready : is_ready subscribed ≡ true
unfolding run step connect on_open
subscribed_ready = refl

paused_busy : paused.runner.workflow.is_running ≡ true
unfolding set_running
paused_busy = refl

run_or_resume_stopped_example :
    let t = run_or_resume wire (stop paused) in
    (t.client.outputs
      ≡ (paused.client.outputs ++ notification "workflow.stop" none ∷ [])
        ++ notification "debug.continue" none ∷ [])
    × (t.runner.workflow.is_running ≡ false)
    × (t.runner.debug.paused_at_node_id ≡ none)
unfolding set_paused_at add_breakpoint Debug.toggle_breakpoint Debug.find_breakpoint
run_or_resume_stopped_example = run_or_resume_stopped wire paused paused_busy refl subscribed_ready

toggle_breakpoint-toggle_breakpoint_at_example :
    toggle_breakpoint wire (menu_of "a") desk
    ≡ record { session = toggle_breakpoint_at wire "a" desk; menu = none }
toggle_breakpoint-toggle_breakpoint_at_example =
    toggle_breakpoint-toggle_breakpoint_at wire (menu_of "a") desk refl

-- the run button while a run is going on, when it is disabled
click-action_example :
    click wire ButtonName.run_button paused ≡ action wire ButtonName.run_button paused
click-action_example = click-action wire ButtonName.run_button paused
