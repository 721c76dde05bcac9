-- ===== src/Cycles/Graph.antt =====
-- Paths and cycles of a list of edges, independent of the search.
use workflowui.Base.{String, ◌≡◌, sym, subst, List, Memᴰ}
use workflowui.Cycles.{CycleEdge, Hop}

module _ (edges : List CycleEdge) where
  -- the paths to `v`
  pub data Reach (v : String) : String → Type 0 where
    here : {u : String} → u ≡ v → Reach v u
    step : {u : String} (e : CycleEdge) → Memᴰ e edges → u ≡ e.source → Reach v e.target → Reach v u

  pub Reach-trans : {v w u : String} → Reach v u → Reach w v → Reach w u
  Reach-trans (here e) q = subst (Reach _) (sym e) q
  Reach-trans (step e m p r) q = step e m p (Reach-trans r q)

  -- some edge with this id lies on a cycle
  abbrev pub OnCycle : String → Type 0
  OnCycle id = (e : CycleEdge) × Memᴰ e edges × (e.id ≡ id) × Reach e.source e.target

  -- an entry of the adjacency list stands for an edge
  abbrev pub Arc : String → Hop → Type 0
  Arc n h =
      (e : CycleEdge) × Memᴰ e edges × (e.source ≡ n) × (e.target ≡ h.target) × (e.id ≡ h.edge_id)
