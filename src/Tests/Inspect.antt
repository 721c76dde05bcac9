-- ===== src/Tests/Inspect.antt =====
-- The model inspection on short runs.
use workflowui.Base.{ℕ, ◌+◌, ◌≡◌, String, [], ◌∷◌, ◌++◌, arith}
use workflowui.Base.{ℤ, negsuc}
use workflowui.Ws.{Outcome, rejected}
use workflowui.Inspect.{InspectState, answered, init, inspect, commit, resume_all}
use workflowui.Inspect.Latest.{resume_all-inspect}

-- the first of two inspections is answered after the second
abbrev clicked : InspectState ℕ
clicked = inspect init

resume_all-inspect_example :
    resume_all ([] ++ (clicked.seq + 1, answered 7) ∷ (1, answered 3) ∷ []) (inspect clicked)
    ≡ commit (answered 7) (inspect clicked)
unfolding inspect
resume_all-inspect_example =
    resume_all-inspect [] ((1, answered 3) ∷ []) (answered 7) clicked tt (λ e. omega arith, tt)

abbrev shown : ℤ → String
shown code = "-32602"

abbrev decimal : ℕ → String
decimal n = "0"

abbrev malformed : Outcome ℕ
malformed = rejected (record { code = negsuc 32601; message = "bad model" })
