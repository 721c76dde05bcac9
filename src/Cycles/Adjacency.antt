-- ===== src/Cycles/Adjacency.antt =====
-- What the first loop of `findCyclicEdges` collects: the self-loops, and for each node the hops of
-- its other edges.
use workflowui.Base.{
  refl, sym, inl, inr, String, List, [], ◌∷◌, Memᴰ, eq_iff, ◌==◌, any, All, All-append, Bool-cases,
}
use workflowui.Cycles.{CycleEdge, Adjacency, add, push_hop, build}
use workflowui.Cycles.Graph.{here, OnCycle, Arc}

module _ (edges : List CycleEdge) where
  pub add-OnCycle :
      (x : String) (xs : List String)
      → OnCycle edges x
      → All (OnCycle edges) xs
      → All (OnCycle edges) (add x xs)
  unfolding add
  add-OnCycle x xs c h = elim (Bool-cases (any (λ y. y == x) xs)) [
    | inl old ↦ rw old h
    | inr new ↦ rw new (All-append _ xs h c)
  ]

  push_hop-Arc :
      (e : CycleEdge) (adj : Adjacency)
      → Memᴰ e edges
      → ((n : String) → All (Arc edges n) (adj n))
      → (n : String) → All (Arc edges n) (push_hop e adj n)
  unfolding push_hop
  push_hop-Arc e adj m arcs n = elim (Bool-cases (e.source == n)) [
    | inl same ↦
        rw same (All-append _ (adj n) (arcs n) (e, m, (eq_iff e.source n).0 same, refl, refl))
    | inr other ↦ rw other (arcs n)
  ]

  pub build_sound :
      (es : List CycleEdge) (cyclic : List String) (adj : Adjacency)
      → ((e : CycleEdge) → Memᴰ e es → Memᴰ e edges)
      → All (OnCycle edges) cyclic
      → ((n : String) → All (Arc edges n) (adj n))
      → All (OnCycle edges) (build es cyclic adj).0
        × ((n : String) → All (Arc edges n) ((build es cyclic adj).1 n))
  unfolding build
  build_sound [] cyclic adj sub loops arcs = (loops, arcs)
  build_sound (e ∷ es) cyclic adj sub loops arcs =
      let listed = sub e (Memᴰ.head refl) in
      let sub' = λ (x : CycleEdge) (m : Memᴰ x es). sub x (Memᴰ.tail m) in
      elim (Bool-cases (e.source == e.target)) [
        | inl loop ↦
            let round = here (sym ((eq_iff e.source e.target).0 loop)) in
            rw loop (
              build_sound es (add e.id cyclic) adj sub'
                (add-OnCycle e.id cyclic (e, listed, refl, round) loops) arcs)
        | inr other ↦
            rw other
              (build_sound es cyclic (push_hop e adj) sub' loops (push_hop-Arc e adj listed arcs))
      ]
