-- ===== src/Actions/Types.antt =====
-- What the actions work on: the stores, the client, and the requests that they make.
use workflowui.Base.{ℕ, String, Bool, Option, List, is_some}
use workflowui.Store.{ExportedWorkflow}
use workflowui.Runner.{Runner, truthy}
use workflowui.Ws.{Client}

pub record Session (N V : Type 0) : Type 0 where
  pub runner : Runner N V
  pub client : Client V
  -- what the browser has been given to download, and the clicks on the file input
  pub downloads : List (ExportedWorkflow N V)
  pub picker_clicks : ℕ

-- the parameters of 'workflow.execute'
pub record RunNode (V : Type 0) : Type 0 where
  pub id : String
  pub type : Option String
  pub config : V

pub record RunEdge : Type 0 where
  pub source : String
  pub source_handle : Option String
  pub target : String
  pub target_handle : Option String

pub record RunRequest (V : Type 0) : Type 0 where
  pub nodes : List (RunNode V)
  pub edges : List RunEdge
  pub breakpoints : List String

-- how `unknown` values are made of parameters, and `run_id` read from a reply
pub record Wire (V : Type 0) : Type 0 where
  pub of_request : RunRequest V → V
  pub of_node_id : String → V
  pub run_id : V → Option String

-- `if (text)` on a text that may be `null`
abbrev pub is_truthy : Option String → Bool
is_truthy t = is_some (truthy t)
