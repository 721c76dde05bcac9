-- ===== src/Runner/Types.antt =====
-- The events of the backend as the runner reads them, and the texts that it makes of them.
use Prim.Native.String
use workflowui.Base.{
  ℕ, String, Bool, true, Option, none, some, List, [], ◌∷◌, length, ◌==◌, if◌then◌else◌,
}
use workflowui.Store.{NodeStatus, idle, running, done, error, paused, skipped, Dict, WorkflowState}
use workflowui.Debug.{DebugState}
use workflowui.Toast.{ToastState}

infixr 65 ◌<>◌
abbrev pub ◌<>◌ : String → String → String
s <> t = String.◌++◌ s t

-- `if (text)`: neither `undefined` nor empty
abbrev pub truthy : Option String → Option String
truthy none = none
truthy (some t) = if t == "" then none else some t

abbrev pub or_text : Option String → String → String
or_text none t = t
or_text (some s) t = s

pub record ValidationError : Type 0 where
  pub kind : String
  pub message : String
  pub node_id : Option String
  pub edge : Option String

pub record NodeStatusUpdate (N V : Type 0) : Type 0 where
  pub node_id : String
  pub status : String
  pub elapsed_ms : Option N
  pub output : Option V
  pub error : Option String
  pub kind : Option String
  pub reason : Option String
  pub upstream : Option String
  pub runs_count : Option N
  pub avg_ms : Option N
  pub run_id : Option String
  pub errors : Option (List ValidationError)

-- `nested` is `event.data` where that is an object, `whole` the event itself
pub record DebugPausedEvent (V : Type 0) : Type 0 where
  pub node_id : String
  pub nested : Option V
  pub whole : V
  pub run_id : Option String

pub record WorkflowStateSnapshot : Type 0 where
  pub run_id : Option String
  pub statuses : Option (Dict String)
  pub paused_at : Option String

pub data Notification (N V : Type 0) : Type 0 where
  node_status : NodeStatusUpdate N V → Notification N V
  debug_paused : DebugPausedEvent V → Notification N V
  workflow_complete : Notification N V
  other_method : String → Notification N V

-- the stores that the handlers write, and the module variable `currentRunId`
pub record Runner (N V : Type 0) : Type 0 where
  pub workflow : WorkflowState N V
  pub debug : DebugState V
  pub toasts : ToastState
  pub current_run_id : Option String

unfoldable pub coerce_status : String → NodeStatus
coerce_status raw =
    if raw == "idle"
    then idle
    else if raw == "running"
    then running
    else if raw == "done"
    then done
    else if raw == "error"
    then error
    else if raw == "paused"
    then paused
    else if raw == "skipped"
    then skipped
    else idle

abbrev pub same_run : Option String → String → Bool
same_run none id = true
same_run (some current) id = id == current

-- `isFreshEvent`, with the active run first
unfoldable pub is_fresh_event : Option String → Option String → Bool
is_fresh_event current run_id = elim (truthy run_id) [ none ↦ true | some id ↦ same_run current id ]

-- the error of an update with its kind in brackets
unfoldable pub error_text : Option String → String → String
error_text kind e = elim (truthy kind) [ none ↦ e | some k ↦ "[" <> k <> "] " <> e ]

unfoldable pub skip_text : Option String → Option String → String
skip_text reason upstream =
    let failed : String = elim (truthy upstream) [
      | none ↦ "Skipped"
      | some u ↦ "Skipped (upstream '" <> u <> "' failed)"
    ] in
    elim reason [
      | none ↦ "Skipped"
      | some r ↦
          if r == "upstream_failed"
          then failed
          else if r == "branch_pruned"
          then "Skipped (branch not taken)"
          else "Skipped"
    ]

-- `decimal` prints the number of errors
abbrev pub summary : (ℕ → String) → List ValidationError → String
summary decimal (e ∷ []) = "Validation failed: " <> e.message
summary decimal es = "Validation failed: " <> decimal (length es) <> " errors (see console)"

abbrev pub present : {A : Type 0} → Option A → Option (Option A)
present none = none
present (some a) = some (some a)
