-- ===== src/Tests/Debug.antt =====
-- The debug store on short histories.
use workflowui.Base.{ℕ, ◌≡◌, String, none, List, [], ◌∷◌, map}
use workflowui.Debug.{LogInput, info, init, clear_logs}
use workflowui.Debug.Logs.{log_all, logs-log_all, newest, stamp}
use workflowui.Debug.Breakpoints.{Command, add, remove, toggle}

abbrev note : String → ℕ × LogInput ℕ
note message = (7, record { node_id = "n"; message = message; level = info; payload = none })

logs-log_all_example :
    (log_all (note "a" ∷ note "b" ∷ []) (clear_logs init)).logs
    ≡ newest (map stamp (note "a" ∷ note "b" ∷ []))
logs-log_all_example = logs-log_all (note "a" ∷ note "b" ∷ []) init

abbrev calls : List Command
calls = add "a" ∷ add "a" ∷ toggle "a" ∷ add "b" ∷ remove "a" ∷ []
