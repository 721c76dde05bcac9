-- ===== src/Cycles/Sound.antt =====
-- Every id that the search reports belongs to an edge on a cycle.
use workflowui.Base.{
  ◌≡◌, ◌≢◌, refl, sym, ◌∙◌, subst, inl, inr, ◌⊎◌, String, Option, none, some, List, [], ◌∷◌, arith,
  eq_iff, ◌==◌, All, Bool-cases, ne_of_eq_false,
}
use workflowui.Cycles.{
  CycleEdge, Hop, Colour, gray, black, Frame, Search, Adjacency, add, paint, add_incoming, mark,
  follow, advance, start, fresh, find_cyclic_edges,
}
use workflowui.Cycles.Graph.{Reach, here, step, Reach-trans, OnCycle, Arc}
use workflowui.Cycles.Adjacency.{add-OnCycle, build_sound}
use workflowui.Cycles.Loop.{
  Colour-cases, some_eq, self_loops, hops_of, all_nodes, explored, explored_of_find, Keeps,
  explore_rule,
}

abbrev pub hop_to : String → String → Hop
hop_to target id = record { target = target; edge_id = id }

pub paint-cases :
    (m n : String) (c : Colour) (colour : String → Colour)
    → ((m ≡ n) × (paint m c colour n ≡ c)) ⊎ ((m ≢ n) × (paint m c colour n ≡ colour n))
unfolding paint
paint-cases m n c colour = elim (Bool-cases (m == n)) [
  | inl e ↦ inl ((eq_iff m n).0 e, rw e)
  | inr ne ↦ inr (ne_of_eq_false m n ne, rw ne)
]

module _ (edges : List CycleEdge) where
  -- how a frame was entered from the one below
  abbrev pub Entered : Frame → List Frame → Type 0
  Entered f [] = f.incoming ≡ none
  Entered f (g ∷ gs) = (id : String) × (f.incoming ≡ some id) × Arc edges g.node (hop_to f.node id)

  -- the stack is a path of the graph, and its iterators hold edges of their nodes
  abbrev pub IsChain : List Frame → Type 0
  IsChain [] = Unit
  IsChain (f ∷ fs) = All (Arc edges f.node) f.rest × Entered f fs × IsChain fs

  abbrev pub OnStack : String → List Frame → Type 0
  OnStack n [] = ⊥
  OnStack n (f ∷ fs) = (f.node ≡ n) ⊎ OnStack n fs

  add_incoming-OnCycle :
      (o : Option String) (xs : List String)
      → ((id : String) → o ≡ some id → OnCycle edges id)
      → All (OnCycle edges) xs
      → All (OnCycle edges) (add_incoming o xs)
  unfolding add_incoming
  add_incoming-OnCycle none xs c h = h
  add_incoming-OnCycle (some id) xs c h = elim (Bool-cases (id == "")) [
    | inl empty ↦ rw empty h
    | inr named ↦ rw named (add-OnCycle edges id xs (c id refl) h)
  ]

  -- the stack leads from each of its nodes to the node at its top
  stack_reach :
      (n : String) (g : Frame) (gs : List Frame)
      → IsChain (g ∷ gs)
      → OnStack n (g ∷ gs)
      → Reach edges g.node n
  stack_reach n g gs chain (inl e) = here (sym e)
  stack_reach n g (g' ∷ gs) chain (inr m) =
      let (id, inc, (e, listed, p, q, i)) = chain.1 in
      Reach-trans edges (stack_reach n g' gs chain.2 m) (step e listed (sym p) (here q))
  stack_reach n g [] chain (inr m) = absurd m

  below :
      (n : String) (f : Frame) (fs : List Frame) → f.node ≢ n → OnStack n (f ∷ fs) → OnStack n fs
  below n f fs other (inl e) = absurd (other e)
  below n f fs other (inr m) = m

  -- while the walk goes down, the top of what is left reaches the target
  mark-OnCycle :
      (target : String) (fs : List Frame) (f : Frame) (cyclic : List String)
      → IsChain (f ∷ fs)
      → Reach edges target f.node
      → OnStack target (f ∷ fs)
      → All (OnCycle edges) cyclic
      → All (OnCycle edges) (mark target (f ∷ fs) cyclic)
  unfolding mark add_incoming
  mark-OnCycle target [] f cyclic chain r on h = elim (Bool-cases (f.node == target)) [
    | inl found ↦ rw found h
    | inr other ↦ rw (other, chain.1) h
  ]
  mark-OnCycle target (g ∷ gs) f cyclic chain r on h = elim (Bool-cases (f.node == target)) [
    | inl found ↦ rw found h
    | inr other ↦
        let (id, inc, (e, listed, p, q, i)) = chain.1 in
        let on' = below target f (g ∷ gs) (ne_of_eq_false f.node target other) on in
        let back = subst (Reach edges target) (sym q) r in
        let round =
          subst (λ w. Reach edges w e.target) (sym p)
            (Reach-trans edges back (stack_reach target g gs chain.2 on')) in
        rw other (
          mark-OnCycle target gs g (add_incoming f.incoming cyclic) chain.2
            (step e listed (sym p) back) on'
            (add_incoming-OnCycle f.incoming cyclic
              (λ id' inc'. (e, listed, i ∙ some_eq (sym inc ∙ inc'), round)) h))
  ]

  pub record Inv (s : Search) : Type 0 where
    pub chain : IsChain s.stack
    pub gray_on : (n : String) → s.colour n ≡ gray → OnStack n s.stack
    pub cycles : All (OnCycle edges) s.cyclic

  module _ (adj : Adjacency) (arcs : (n : String) → All (Arc edges n) (adj n)) where
    pop-Inv :
        (f : Frame) (fs : List Frame) (s : Search)
        → s.stack ≡ f ∷ fs
        → Inv s
        → Inv (advance adj f [] fs s)
    unfolding advance
    pop-Inv f fs s e v = record {
      chain = (subst IsChain e v.chain).2;
      gray_on = λ n h. elim (paint-cases f.node n black s.colour) [
        | inl (same, p) ↦ absurd (cc (p, h))
        | inr (other, p) ↦ below n f fs other (subst (OnStack n) e (v.gray_on n (sym p ∙ h)))
      ];
      cycles = v.cycles;
    }

    module _ (f : Frame) (hop : Hop) (rest : List Hop) (fs : List Frame) (s : Search)
        (top : s.stack ≡ f ∷ fs) (left : f.rest ≡ hop ∷ rest) (v : Inv s) where
      abbrev moved : Frame
      moved = record f { rest = rest }

      whole : IsChain (f ∷ fs)
      whole = subst IsChain top v.chain

      hops : All (Arc edges f.node) (hop ∷ rest)
      hops = subst (All (Arc edges f.node)) left whole.0

      chain' : IsChain (moved ∷ fs)
      chain' = (hops.1, whole.1, whole.2)

      on' : (n : String) → s.colour n ≡ gray → OnStack n (moved ∷ fs)
      on' n h = subst (OnStack n) top (v.gray_on n h)

      back_edge-OnCycle : s.colour hop.target ≡ gray → OnCycle edges hop.edge_id
      back_edge-OnCycle h =
          let (e, m, p, q, i) = hops.0 in
          let down = stack_reach hop.target moved fs chain' (on' hop.target h) in
          (
            e,
            m,
            i,
            subst (λ w. Reach edges w e.target) (sym p) (subst (Reach edges f.node) (sym q) down),
          )

      follow-Inv : Inv (follow adj hop (moved ∷ fs) s)
      unfolding follow
      follow-Inv = elim (Colour-cases (s.colour hop.target)) [
        | inl done ↦ rw (done, follow) (record { chain = chain'; gray_on = on'; cycles = v.cycles })
        | inr (inl open_) ↦
            let (e, m, p, q, i) = hops.0 in
            rw (open_, follow)
              (record {
                chain = chain';
                gray_on = on';
                cycles =
                    mark-OnCycle hop.target fs moved (add hop.edge_id s.cyclic) chain'
                      (step e m (sym p) (here q)) (on' hop.target open_)
                      (add-OnCycle edges hop.edge_id s.cyclic (back_edge-OnCycle open_) v.cycles);
              })
        | inr (inr new) ↦
            rw (new, follow)
              (record {
                chain = (arcs hop.target, (hop.edge_id, refl, hops.0), chain');
                gray_on = λ n h. elim (paint-cases hop.target n gray s.colour) [
                  | inl (same, p) ↦ inl same
                  | inr (other, p) ↦ inr (on' n (sym p ∙ h))
                ];
                cycles = v.cycles;
              })
      ]

    rest-Inv :
        (f : Frame) (rest : List Hop) (fs : List Frame) (s : Search)
        → f.rest ≡ rest
        → s.stack ≡ f ∷ fs
        → Inv s
        → Inv (advance adj f rest fs s)
    unfolding advance
    rest-Inv f [] fs s left top v = pop-Inv f fs s top v
    rest-Inv f (hop ∷ rest) fs s left top v = follow-Inv f hop rest fs s top left v

    pub advance-Inv : Keeps adj Inv
    advance-Inv f fs s top v = rest-Inv f f.rest fs s refl top v

    pub start-Inv :
        (n : String) (s : Search) → s.stack ≡ [] → s.colour n ≢ black → Inv s → Inv (start adj n s)
    unfolding start
    start-Inv n s empty new v = record {
      chain = (arcs n, refl, tt);
      gray_on = λ m h. elim (paint-cases n m gray s.colour) [
        | inl (same, p) ↦ inl same
        | inr (other, p) ↦ absurd (subst (OnStack m) empty (v.gray_on m (sym p ∙ h)))
      ];
      cycles = v.cycles;
    }

  pub fresh-Inv : (loops : List String) → All (OnCycle edges) loops → Inv (fresh loops)
  fresh-Inv loops h = record { chain = tt; gray_on = λ n e. absurd (ground arith); cycles = h }

module _ (edges : List CycleEdge) where
  pub collected :
      All (OnCycle edges) (self_loops edges) × ((n : String) → All (Arc edges n) (hops_of edges n))
  collected = build_sound edges edges [] (λ n. []) (λ e m. m) tt (λ n. tt)

  pub explored-Inv : (s : Search) → explored edges ≡ some s → Inv edges s
  explored-Inv s found =
      let (loops, arcs) = collected in
      (explore_rule (hops_of edges) (Inv edges) (advance-Inv edges (hops_of edges) arcs)
        (start-Inv edges (hops_of edges) arcs) _ (all_nodes edges) (fresh (self_loops edges)) s refl
        (fresh-Inv edges (self_loops edges) loops) found).0

-- Every id that `findCyclicEdges` returns is the id of an edge from whose target a path leads back
-- to its source.
pub find_cyclic_edges_sound :
    (edges : List CycleEdge) (ids : List String)
    → find_cyclic_edges edges ≡ some ids
    → All (OnCycle edges) ids
find_cyclic_edges_sound edges ids h =
    let (s, found, same) = explored_of_find edges h in
    subst (All (OnCycle edges)) same (explored-Inv edges s found).cycles
