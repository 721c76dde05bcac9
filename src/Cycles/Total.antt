-- ===== src/Cycles/Total.antt =====
-- The search ends: its fuel, a round for each node and each hop, is enough.
use workflowui.Base.{
  ℕ, zero, suc, ◌+◌, ◌≤◌, ◌≡◌, ◌≢◌, refl, ap, subst, inl, inr, String, some, List, [], ◌∷◌, Memᴰ,
  arith, length, All, All-map_imp, List-cases, eq_iff,
}
use workflowui.Cycles.{
  CycleEdge, Hop, Colour, white, gray, black, Frame, Search, Adjacency, paint, follow, advance,
  search, start, explore, fuel_for, fresh, find_cyclic_edges,
}
use workflowui.Cycles.Graph.{Arc}
use workflowui.Cycles.Nodes.{ends-collect_nodes}
use workflowui.Cycles.Loop.{
  Colour-cases, search_rule, hops_of, self_loops, all_nodes, find_of_explored,
}
use workflowui.Cycles.Sound.{Inv, IsChain, advance-Inv, start-Inv, fresh-Inv, collected, OnStack}

-- the rounds that a node will take, if the search has still to enter it
abbrev pending : Colour → ℕ → ℕ
pending white n = n + 1
pending _ n = 0

module _ (adj : Adjacency) where
  whites : (String → Colour) → List String → ℕ
  whites colour [] = 0
  whites colour (n ∷ ns) = pending (colour n) (length (adj n)) + whites colour ns

  abbrev rounds : List Frame → ℕ
  rounds [] = 0
  rounds (f ∷ fs) = length f.rest + 1 + rounds fs

  whites-le-fuel :
      (colour : String → Colour) (ns : List String) → whites colour ns ≤ fuel_for adj ns
  unfolding whites fuel_for
  whites-le-fuel colour [] = omega arith
  whites-le-fuel colour (n ∷ ns) = ground (arith, whites-le-fuel colour ns)

  pending-paint :
      (m n : String) (c : Colour) (colour : String → Colour)
      → c ≢ white
      → pending (paint m c colour n) (length (adj n)) ≤ pending (colour n) (length (adj n))
  unfolding paint
  pending-paint m n c colour h = ground (arith, h)

  whites-paint :
      (m : String) (c : Colour) (colour : String → Colour) (ns : List String)
      → c ≢ white
      → whites (paint m c colour) ns ≤ whites colour ns
  unfolding whites
  whites-paint m c colour [] h = omega arith
  whites-paint m c colour (n ∷ ns) h =
      omega (arith, pending-paint m n c colour h, whites-paint m c colour ns h)

  pending_gone :
      (m n : String) (c : Colour) (colour : String → Colour)
      → m ≡ n
      → c ≢ white
      → pending (paint m c colour n) (length (adj n)) ≡ 0
  unfolding paint
  pending_gone m n c colour e h = ground (arith, eq_iff m n, h)

  whites-paint_mem :
      (m : String) (c : Colour) (colour : String → Colour) (ns : List String)
      → c ≢ white
      → colour m ≡ white
      → Memᴰ m ns
      → whites (paint m c colour) ns + (length (adj m) + 1) ≤ whites colour ns
  unfolding whites
  whites-paint_mem m c colour [] h w i = elim i [ ]
  whites-paint_mem m c colour (n ∷ ns) h w (Memᴰ.head e) =
      let gone = pending_gone m n c colour e h in
      let here : colour n ≡ white = subst (λ k. colour k ≡ white) e w in
      let same : length (adj m) ≡ length (adj n) = ap (λ k. length (adj k)) e in
      rw (gone, here) (omega (arith, same, whites-paint m c colour ns h))
  whites-paint_mem m c colour (n ∷ ns) h w (Memᴰ.tail i) =
      omega (arith, pending-paint m n c colour h, whites-paint_mem m c colour ns h w i)

  abbrev work : List String → Search → ℕ
  work nodes s = rounds s.stack + whites s.colour nodes

  -- the hops that the iterators hold lead to known nodes
  abbrev Known : List String → List Hop → Type 0
  Known nodes = All (λ (h : Hop). Memᴰ h.target nodes)

  follow-work :
      (nodes : List String) (hop : Hop) (stack : List Frame) (s : Search)
      → Memᴰ hop.target nodes
      → work nodes (follow adj hop stack s) ≤ rounds stack + whites s.colour nodes
  unfolding follow
  follow-work nodes hop stack s m = elim (Colour-cases (s.colour hop.target)) [
    | inl done ↦ rw (done, follow) (omega arith)
    | inr (inl on) ↦ rw (on, follow) (omega arith)
    | inr (inr new) ↦
        rw (new, follow)
          (omega (arith, whites-paint_mem hop.target gray s.colour nodes (λ e. cc) new m))
  ]

  advance-work :
      (nodes : List String) (f : Frame) (rest : List Hop) (fs : List Frame) (s : Search)
      → Known nodes rest
      → work nodes (advance adj f rest fs s) + 1
        ≤ length rest + 1 + rounds fs + whites s.colour nodes
  unfolding advance
  advance-work nodes f [] fs s k = omega (arith, whites-paint f.node black s.colour nodes (λ e. cc))
  advance-work nodes f (hop ∷ rest) fs s k =
      omega (arith, follow-work nodes hop (record f { rest = rest } ∷ fs) s k.0)

module _ (edges : List CycleEdge) where
  abbrev adj : Adjacency
  adj = hops_of edges

  abbrev nodes : List String
  nodes = all_nodes edges

  known : (n : String) (hops : List Hop) → All (Arc edges n) hops → Known adj nodes hops
  known n hops arcs =
      All-map_imp _ _ hops
        (λ h (e, m, p, q, i). subst (λ t. Memᴰ t nodes) q (ends-collect_nodes e edges [] m).1) arcs

  step-work :
      (f : Frame) (fs : List Frame) (s : Search)
      → s.stack ≡ f ∷ fs
      → Inv edges s
      → work adj nodes (advance adj f f.rest fs s) + 1 ≤ work adj nodes s
  step-work f fs s top v =
      let chain = subst (IsChain edges) top v.chain in
      omega (
        arith,
        ap (rounds adj) top,
        advance-work adj nodes f f.rest fs s (known f.node f.rest chain.0),
      )

  search_total :
      (fuel : ℕ) (s : Search)
      → Inv edges s
      → work adj nodes s ≤ fuel
      → (t : Search) × (search adj fuel s ≡ some t)
  unfolding search
  search_total zero s v h = elim (List-cases s.stack) [
    | inl empty ↦ (s, ground arith)
    | inr (f, fs, top) ↦ absurd (omega (arith, step-work f fs s top v))
  ]
  search_total (suc fuel) s v h = elim (List-cases s.stack) [
    | inl empty ↦ (s, ground arith)
    | inr (f, fs, top) ↦
        let v' = advance-Inv edges adj (collected edges).1 f fs s top v in
        let (t, found) =
          search_total fuel (advance adj f f.rest fs s) v'
            (omega (arith, step-work f fs s top v)) in
        (t, rw (top, search) found)
  ]

  no_gray : (n : String) (s : Search) → Inv edges s → s.stack ≡ [] → s.colour n ≢ gray
  no_gray n s v empty g = subst (OnStack edges n) empty (v.gray_on n g)

  start-work :
      (n : String) (s : Search)
      → s.colour n ≡ white
      → Memᴰ n nodes
      → work adj nodes (start adj n s) ≤ fuel_for adj nodes
  unfolding start
  start-work n s new m = omega (
    arith,
    whites-paint_mem adj n gray s.colour nodes (λ e. cc) new m,
    whites-le-fuel adj s.colour nodes,
  )

  explore_total :
      (ns : List String) (s : Search)
      → ((n : String) → Memᴰ n ns → Memᴰ n nodes)
      → Inv edges s
      → s.stack ≡ []
      → (t : Search) × (explore adj (fuel_for adj nodes) ns s ≡ some t)
  unfolding explore
  explore_total [] s sub v empty = (s, refl)
  explore_total (n ∷ ns) s sub v empty = elim (Colour-cases (s.colour n)) [
    | inl done ↦
        let (t, found) = explore_total ns s (λ m i. sub m (Memᴰ.tail i)) v empty in
        (t, rw (done, explore) found)
    | inr (inl on) ↦ absurd (no_gray n s v empty on)
    | inr (inr new) ↦
        let arcs = (collected edges).1 in
        let v' = start-Inv edges adj arcs n s empty (λ e. cc) v in
        let (u, ended) =
          search_total (fuel_for adj nodes) (start adj n s) v'
            (start-work n s new (sub n (Memᴰ.head refl))) in
        let (w, clear) =
          search_rule adj (Inv edges) (advance-Inv edges adj arcs) (fuel_for adj nodes)
            (start adj n s) u v' ended in
        let (t, found) = explore_total ns u (λ m i. sub m (Memᴰ.tail i)) w clear in
        (t, rw (new, explore) (rw (ended, explore) found))
  ]

-- `findCyclicEdges` ends on every list of edges, and returns a set of ids.
pub find_cyclic_edges_total :
    (edges : List CycleEdge) → (ids : List String) × (find_cyclic_edges edges ≡ some ids)
find_cyclic_edges_total edges =
    let fresh_ok = fresh-Inv edges (self_loops edges) (collected edges).0 in
    let (s, found) =
      explore_total edges (all_nodes edges) (fresh (self_loops edges)) (λ n m. m) fresh_ok refl in
    (s.cyclic, find_of_explored edges found)
