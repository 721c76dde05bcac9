-- ===== src/Canvas/Layout.antt =====
-- The layout button: `onLayout` of frontend/src/App.tsx and frontend/src/utils/layout.ts. `dagre` lays
-- out boxes of the heights that it is told and gives their centres.
use workflowui.Base.{
  ◌≡◌, ◌⊎◌, inl, inr, Bool-cases, if_true, if_false, ne_of_eq_false, mem_map, mem_of_map, ap, sym,
  ◌∙◌, String, Option, none, some, List, [], ◌∷◌, map, Memᴰ, ◌==◌, eq_iff,
}
use workflowui.Store.{Dict, Node, Edge, set_nodes, set_edges, get, put}
use workflowui.Store.Index.{get-put}
use workflowui.Actions.{on_flow}
use workflowui.Canvas.Handlers.{Canvas, on_session}

-- `measure?.(node.id) ?? DEFAULT_NODE_HEIGHT`
abbrev pub height_of : {N : Type 0} → (String → Option N) → N → String → N
height_of measure default_height id = elim (measure id) [ none ↦ default_height | some h ↦ h ]

-- the map `heightUsed`, which is also what dagre is told
abbrev pub heights : {N V : Type 0} → (String → Option N) → N → List (Node N V) → Dict N → Dict N
heights measure default_height [] m = m
heights measure default_height (n ∷ ns) m =
    heights measure default_height ns (put n.id (height_of measure default_height n.id) m)

abbrev pub used_height : {N : Type 0} → N → Dict N → String → N
used_height default_height m id = elim (get id m) [ none ↦ default_height | some h ↦ h ]

-- `measure` reads a node's height on the page, the default height is 350, `minus_half_width` takes
-- away half of the width of 250, and `minus_half` half of its second number
pub record Metrics (N : Type 0) : Type 0 where
  pub measure : String → Option N
  pub default_height : N
  pub minus_half_width : N → N
  pub minus_half : N → N → N
  pub dagre : Dict N → List (String × String) → String → N × N

module _ {N : Type 0} (k : Metrics N) where
  get-put_height :
      (id other : String) (m : Dict N)
      → (get id m ≡ some (height_of k.measure k.default_height id)) ⊎ (id ≡ other)
      → get id (put other (height_of k.measure k.default_height other) m)
        ≡ some (height_of k.measure k.default_height id)
  get-put_height id other m h = get-put id other _ m ∙ elim (Bool-cases (other == id)) [
    | inl same ↦
        if_true (other == id) _ _ same
        ∙ ap (λ i. some (height_of k.measure k.default_height i)) ((eq_iff other id).0 same)
    | inr differ ↦ if_false (other == id) _ _ differ ∙ elim h [
      | inl known ↦ known
      | inr equal ↦ absurd (ne_of_eq_false other id differ (sym equal))
    ]
  ]

module _ {N V : Type 0} (k : Metrics N) where
  abbrev pub place : List (Node N V) → List (Edge V) → String → N × N
  place ns es =
      k.dagre (heights k.measure k.default_height ns []) (map (λ e. (e.source, e.target)) es)

  abbrev pub move : Dict N → (String → N × N) → Node N V → Node N V
  move used centre n = record n {
    x = k.minus_half_width (centre n.id).0;
    y = k.minus_half (centre n.id).1 (used_height k.default_height used n.id);
  }

  -- `getLayoutedElements`, which hands the edges on
  unfoldable pub get_layouted_nodes : List (Node N V) → List (Edge V) → List (Node N V)
  get_layouted_nodes ns es = map (move (heights k.measure k.default_height ns []) (place ns es)) ns

  unfoldable pub on_layout : Canvas N V → Canvas N V
  unfolding get_layouted_nodes
  on_layout c =
      let w = c.session.runner.workflow in
      on_session
        (on_flow
          (λ s. set_edges (λ es. w.edges) (set_nodes (get_layouted_nodes w.nodes w.edges) s)))
        c

  get-heights :
      (id : String) (ns : List (Node N V)) (m : Dict N)
      → (get id m ≡ some (height_of k.measure k.default_height id)) ⊎ Memᴰ id (map Node.id ns)
      → get id (heights k.measure k.default_height ns m)
        ≡ some (height_of k.measure k.default_height id)
  get-heights id [] m (inl e) = e
  get-heights id [] m (inr n) = elim n [ ]
  get-heights id (n ∷ ns) m (inl e) = get-heights id ns _ (inl (get-put_height k id n.id m (inl e)))
  get-heights id (n ∷ ns) m (inr (Memᴰ.head e)) =
      get-heights id ns _ (inl (get-put_height k id n.id m (inr e)))
  get-heights id (n ∷ ns) m (inr (Memᴰ.tail l)) = get-heights id ns _ (inr l)

  -- Every node that the layout returns is one of the graph's, with nothing changed but its place,
  -- which is dagre's centre less half of the default width and half of the very height that dagre was
  -- told for the node, the measured one where there is one.
  pub get_layouted_nodes_lem :
      (ns : List (Node N V)) (es : List (Edge V)) (m : Node N V)
      → Memᴰ m (get_layouted_nodes ns es)
      → (n : Node N V) × Memᴰ n ns
        × (get n.id (heights k.measure k.default_height ns [])
            ≡ some (height_of k.measure k.default_height n.id))
        × (m ≡ record n {
          x = k.minus_half_width (place ns es n.id).0;
          y = k.minus_half (place ns es n.id).1 (height_of k.measure k.default_height n.id);
        })
  unfolding get_layouted_nodes
  get_layouted_nodes_lem ns es m l =
      let used = heights k.measure k.default_height ns [] in
      let (n, here, same) = mem_of_map (move used (place ns es)) ns l in
      let told = get-heights n.id ns [] (inr (mem_map Node.id ns here)) in
      (
        n,
        here,
        told,
        sym same
            ∙ ap
                (λ (o : Option N). record n {
                  x = k.minus_half_width (place ns es n.id).0;
                  y =
                      k.minus_half (place ns es n.id).1
                        (elim o [ none ↦ k.default_height | some h ↦ h ]);
                })
                told,
      )
