-- ===== src/Tests/Store.antt =====
-- The workflow store on small graphs. Numbers and `unknown` values are native numbers here.
use workflowui.Base.{
  ℕ, ◌+◌, ◌≡◌, ◌≢◌, ◌↔◌, refl, arith, String, Bool, true, false, none, some, List, [], ◌∷◌, map,
  Memᴰ, All, ◌==◌, eqb, eqb_iff, find?, ne_of_eq_false, Distinct,
}
use workflowui.Store.{
  running, DataPatch, Node, Edge, WorkflowState, Snapshot, ParsedNode, named, workflow, init,
  add_node, remove_node, get_node_by_id, partialize, update_node_status, rebuild_nodes_by_id,
  import_workflow, null_node, engine_error, generate_node_id, duplicate_node, equality,
}
use workflowui.Store.Consistent.{
  Action, adds, duplicates, updates_status, removes, run, step, get_node_by_id-run,
}
use workflowui.Store.Removal.{IsGone, remove_node_lem}
use workflowui.Store.Fresh.{AreUsedUp, IsReadable, generate_node_id-import_workflow}
use workflowui.Store.Equality.{node_view, edge_view, equality_iff}
use workflowui.Store.Names.{match_node, node_name}

abbrev pub node_of : String → String → Node ℕ ℕ
node_of id label = record {
  id = id;
  type = some "net";
  x = 10;
  y = 20;
  selected = none;
  rest = 0;
  body = record {
    label = label;
    type = "net";
    status = running;
    config = 5;
    elapsed_ms = some 12;
    output = none;
    runs_count = none;
    avg_ms = none;
    error = none;
    extra = [];
  };
}

abbrev pub edge_of : String → String → String → Edge ℕ
edge_of id a b = record {
  id = id;
  source = a;
  source_handle = none;
  target = b;
  target_handle = none;
  rest = 0;
}

abbrev actions : List (Action ℕ ℕ)
actions =
    adds (node_of "a" "first")
    ∷ adds (node_of "b" "second")
    ∷ duplicates (λ x. x + 40) "a"
    ∷ updates_status "b" running
    ∷ removes "a"
    ∷ []

actions-Distinct : Distinct (map Node.id (run actions init).nodes)
unfolding run step node_name add_node duplicate_node generate_node_id update_node_status remove_node
actions-Distinct = ((ne_of_eq_false _ _ refl, tt), (tt, tt))

get_node_by_id-run_example :
    get_node_by_id "b" (run actions init) ≡ find? (λ n. n.id == "b") (run actions init).nodes
get_node_by_id-run_example = get_node_by_id-run actions "b" actions-Distinct

abbrev pub small : WorkflowState ℕ ℕ
small = record {
  nodes = node_of "a" "first" ∷ node_of "b" "second" ∷ [];
  nodes_by_id = rebuild_nodes_by_id (node_of "a" "first" ∷ node_of "b" "second" ∷ []);
  edges = edge_of "e" "a" "b" ∷ edge_of "f" "b" "b" ∷ [];
  selected_node_id = some "a";
  is_running = false;
  node_id_counter = 4;
}

remove_node_lem_example :
    IsGone "a" (remove_node "a" small)
    × (Memᴰ (node_of "b" "second") (remove_node "a" small).nodes
        ↔ (Memᴰ (node_of "b" "second") small.nodes × (◌≢◌ {A = String} "b" "a")))
    × (Memᴰ (edge_of "f" "b" "b") (remove_node "a" small).edges ↔ (
        Memᴰ (edge_of "f" "b" "b") small.edges
        × (◌≢◌ {A = String} "b" "a")
        × (◌≢◌ {A = String} "b" "a")))
remove_node_lem_example = remove_node_lem "a" small (node_of "b" "second") (edge_of "f" "b" "b")

abbrev measured : DataPatch ℕ ℕ
measured = record {
  label = none;
  type = none;
  status = none;
  config = none;
  elapsed_ms = some (some 31);
  output = none;
  runs_count = none;
  avg_ms = none;
  error = some none;
  extra = [];
}

-- a snapshot is made of objects of its own
abbrev no_object_shared : Node ℕ ℕ → Node ℕ ℕ → Bool
no_object_shared m n = false

abbrev before : Snapshot ℕ ℕ
before = record { nodes = node_of "c" "third" ∷ node_of "b" "second" ∷ []; edges = [] }

-- the nodes are told apart by their labels
abbrev same_label : Node ℕ ℕ → Node ℕ ℕ → Bool
same_label m n = m.body.label == n.body.label

small-Distinct : Distinct (map Node.id small.nodes)
small-Distinct = ((ne_of_eq_false "a" "b" refl, tt), (tt, tt))

abbrev parsed : List (ParsedNode ℕ ℕ)
parsed =
    named (node_of "node_7" "x") ∷ named (node_of "copy" "y") ∷ named (node_of "node_12b" "z") ∷ []

imported_without_error : (import_workflow (workflow (some parsed) (some [])) small).thrown ≡ none
unfolding import_workflow
imported_without_error = refl

parsed-IsReadable : All IsReadable parsed
unfolding match_node
parsed-IsReadable = (omega arith, (tt, (omega arith, tt)))

-- the counter stands still at 2 ^ 53, so one id is generated twice
abbrev far : List (ParsedNode ℕ ℕ)
far = named (node_of "node_9007199254740992" "x") ∷ []

sticks :
    (generate_node_id (import_workflow (workflow (some far) (some [])) small).state).1
    ≡ "node_9007199254740992"
unfolding import_workflow generate_node_id
sticks = refl

-- a `null` among the nodes throws before the counter moves
null_thrown :
    import_workflow
      (workflow (some (named (node_of "node_7" "x") ∷ null_node ∷ [])) (some []))
      small
    ≡ record { state = small; thrown = some engine_error }
unfolding import_workflow
null_thrown = refl

generate_node_id-import_workflow_example :
    let s = (import_workflow (workflow (some parsed) (some [])) small).state in
    AreUsedUp s.node_id_counter s.nodes × All (λ n. n.id ≢ (generate_node_id s).1) s.nodes
generate_node_id-import_workflow_example =
    generate_node_id-import_workflow parsed [] small (omega arith) parsed-IsReadable
      imported_without_error

abbrev config_text : ℕ → String
config_text n = "{}"

equality_iff_example : (equality eqb config_text (partialize small) before ≡ true) ↔ (
    (map (node_view config_text) (partialize small).nodes
      ≡ map (node_view config_text) before.nodes)
    × (map edge_view (partialize small).edges ≡ map edge_view before.edges))
equality_iff_example = equality_iff eqb config_text eqb_iff (partialize small) before
