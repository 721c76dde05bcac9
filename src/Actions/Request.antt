-- ===== src/Actions/Request.antt =====
-- The nodes that take part in a run, and the request made of them.
use workflowui.Base.{
  ◌≡◌, ◌⊎◌, inl, inr, refl, subst, ◌||◌, true, ◌&&◌, List, [], ◌∷◌, map, filter, mem-filter,
  mem_of_filter, mem_of_any, any_of_mem, All, All-tabulate, All-of_map, mem_map, Memᴰ, arith, eqb,
  length, Bool-cases, eq_iff, ◌==◌,
}
use workflowui.Store.{Node, Edge, WorkflowState}
use workflowui.Debug.{Breakpoint}
use workflowui.Actions.{
  Session, RunRequest, RunNode, RunEdge, is_linked, active_nodes, is_active, breakpoint_ids,
  run_request,
}

-- a node takes part in a run if it is alone or at an end of an edge
abbrev pub TakesPart : {N V : Type 0} → WorkflowState N V → Node N V → Type 0
TakesPart {V} s n =
    (length s.nodes ≡ 1) ⊎ ((e : Edge V) × Memᴰ e s.edges × ((e.source ≡ n.id) ⊎ (e.target ≡ n.id)))

module _ {N V : Type 0} where
  active_nodes_sound :
      (s : WorkflowState N V) (n : Node N V)
      → Memᴰ n (active_nodes s)
      → Memᴰ n s.nodes × TakesPart s n
  unfolding active_nodes
  active_nodes_sound s n m = elim (Bool-cases (eqb (length s.nodes) 1)) [
    | inl alone ↦ (rw alone at m, inl (ground arith))
    | inr several ↦
        let (k, q) = mem_of_filter (λ x. is_linked s.edges x.id) n s.nodes (rw several at m) in
        let (e, l, ends) = mem_of_any (λ e. e.source == n.id || e.target == n.id) s.edges q in
        (k, inr (e, l, ground (arith, eq_iff e.source n.id, eq_iff e.target n.id)))
  ]

  pub active_nodes_complete :
      (s : WorkflowState N V) (n : Node N V) (e : Edge V)
      → Memᴰ n s.nodes
      → Memᴰ e s.edges
      → (e.source ≡ n.id) ⊎ (e.target ≡ n.id)
      → Memᴰ n (active_nodes s)
  unfolding active_nodes
  active_nodes_complete s n e m l ends = elim (Bool-cases (eqb (length s.nodes) 1)) [
    | inl alone ↦ rw alone m
    | inr several ↦
        let linked =
          any_of_mem (λ (x : Edge V). x.source == n.id || x.target == n.id) e s.edges l
            (ground (arith, eq_iff e.source n.id, eq_iff e.target n.id)) in
        rw several (mem-filter (λ x. is_linked s.edges x.id) n s.nodes m linked)
  ]

-- the entry of an edge
abbrev pub wire_of : {V : Type 0} → Edge V → RunEdge
wire_of e = record {
  source = e.source;
  source_handle = e.source_handle;
  target = e.target;
  target_handle = e.target_handle;
}

-- the entries of a request are of nodes that take part, and of enabled breakpoints on such nodes
pub record IsSound {N V : Type 0} (s : Session N V) (q : RunRequest V) : Type 0 where
  pub nodes_known :
      All
        (λ r.
          (n : Node N V) × Memᴰ n s.runner.workflow.nodes
          × TakesPart s.runner.workflow n
          × (r.id ≡ n.id)
          × (r.config ≡ n.body.config))
        q.nodes
  pub breakpoints_known :
      All
        (λ id.
          Memᴰ id (map RunNode.id q.nodes)
          × ((b : Breakpoint) × Memᴰ b s.runner.debug.breakpoints
              × (b.enabled ≡ true)
              × (b.node_id ≡ id)))
        q.breakpoints
  pub edges_all : q.edges ≡ map wire_of s.runner.workflow.edges

module _ {N V : Type 0} where
  abbrev pub entry : Node N V → RunNode V
  entry n = record { id = n.id; type = n.type; config = n.body.config }

  armed_known :
      (active : List (Node N V)) (bs : List Breakpoint) (b : Breakpoint)
      → Memᴰ b (filter (λ x. x.enabled && is_active active x.node_id) bs)
      → Memᴰ b.node_id (map RunNode.id (map entry active))
        × ((x : Breakpoint) × Memᴰ x bs × (x.enabled ≡ true) × (x.node_id ≡ b.node_id))
  armed_known active bs b m =
      let (k, q) = mem_of_filter (λ x. x.enabled && is_active active x.node_id) b bs m in
      let enabled : b.enabled ≡ true = ground arith in
      let (n, l, same) =
        mem_of_any (λ (x : Node N V). x.id == b.node_id) active (rw enabled at q) in
      let named = mem_map RunNode.id (map entry active) (mem_map entry active l) in
      (
        subst (λ id. Memᴰ id (map RunNode.id (map entry active))) ((eq_iff n.id b.node_id).0 same)
            named,
        (b, k, enabled, refl),
      )

  entries_known :
      (s : WorkflowState N V) (ns : List (Node N V))
      → All (λ n. Memᴰ n s.nodes × TakesPart s n) ns
      → All
          (λ (r : RunNode V).
            (n : Node N V) × Memᴰ n s.nodes
            × TakesPart s n
            × (r.id ≡ n.id)
            × (r.config ≡ n.body.config))
          (map entry ns)
  entries_known s [] h = tt
  entries_known s (n ∷ ns) h = ((n, h.0.0, h.0.1, refl, refl), entries_known s ns h.1)

  pub run_request-IsSound :
      (s : Session N V)
      → let w = s.runner.workflow in IsSound s (run_request (active_nodes w) w s.runner.debug)
  unfolding run_request breakpoint_ids
  run_request-IsSound s =
      let w = s.runner.workflow in
      let active = active_nodes w in
      record {
        nodes_known =
            entries_known w active (All-tabulate _ active (λ n m. active_nodes_sound w n m));
        breakpoints_known =
            let armed =
              filter (λ b. b.enabled && is_active active b.node_id) s.runner.debug.breakpoints in
            All-of_map Breakpoint.node_id _ armed
              (All-tabulate _ armed (armed_known active s.runner.debug.breakpoints));
        edges_all = refl;
      }
