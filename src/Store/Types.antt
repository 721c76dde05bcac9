-- ===== src/Store/Types.antt =====
-- The state of frontend/src/store/workflowStore.ts. `N` is the type of the numbers that the canvas
-- computes with (coordinates and durations), `V` that of the source's `unknown` values.
use workflowui.Base.{ℕ, String, Bool, Option, List, [], ◌∷◌, ◌==◌, if◌then◌else◌, none, some}

pub data NodeStatus : Type 0 where
  idle running done error paused skipped : NodeStatus

-- a JavaScript object or `Map` with its keys in the order in which they came
abbrev pub Dict : Type 0 → Type 0
Dict A = List (String × A)

module _ {A : Type 0} where
  abbrev pub put : String → A → Dict A → Dict A
  put key a [] = (key, a) ∷ []
  put key a ((k, b) ∷ rest) = if k == key then (key, a) ∷ rest else (k, b) ∷ put key a rest

  abbrev pub get : String → Dict A → Option A
  get key [] = none
  get key ((k, b) ∷ rest) = if k == key then some b else get key rest

  -- the spread `{ ...old, ...new }` on the keys that have no field of their own
  abbrev pub put_all : Dict A → Dict A → Dict A
  put_all old [] = old
  put_all old ((k, a) ∷ new) = put_all (put k a old) new

pub record NodeData (N V : Type 0) : Type 0 where
  pub label : String
  pub type : String
  pub status : NodeStatus
  pub config : V
  pub elapsed_ms : Option N
  pub output : Option V
  pub runs_count : Option N
  pub avg_ms : Option N
  pub error : Option V
  pub extra : Dict V

-- `Partial<WorkflowNodeData>`: a field is there or not, and one that is there may be `undefined`
pub record DataPatch (N V : Type 0) : Type 0 where
  pub label : Option String
  pub type : Option String
  pub status : Option NodeStatus
  pub config : Option V
  pub elapsed_ms : Option (Option N)
  pub output : Option (Option V)
  pub runs_count : Option (Option N)
  pub avg_ms : Option (Option N)
  pub error : Option (Option V)
  pub extra : Dict V

-- a node of React Flow; `rest` stands for the fields that the store only copies
pub record Node (N V : Type 0) : Type 0 where
  pub id : String
  pub type : Option String
  pub x : N
  pub y : N
  pub selected : Option Bool
  pub rest : V
  pub body : NodeData N V

pub record Edge (V : Type 0) : Type 0 where
  pub id : String
  pub source : String
  pub source_handle : Option String
  pub target : String
  pub target_handle : Option String
  pub rest : V

pub record WorkflowState (N V : Type 0) : Type 0 where
  pub nodes : List (Node N V)
  pub nodes_by_id : Dict (Node N V)
  pub edges : List (Edge V)
  pub selected_node_id : Option String
  pub is_running : Bool
  -- the module variable `nodeIdCounter`
  pub node_id_counter : ℕ
