-- ===== src/Cycles/Complete.antt =====
-- The search reports nothing exactly on the acyclic graphs.
use mathlib.Core.List.Memᴰ
use workflowui.Base.{
  ℕ, ◌≡◌, ◌≢◌, ◌↔◌, refl, sym, ◌∙◌, subst, inl, inr, ◌⊎◌, String, some, List, [], ◌∷◌, Memᴰ, arith,
  All, Option-cases,
}
use workflowui.Cycles.{
  CycleEdge, Hop, Colour, white, gray, black, Frame, Search, Adjacency, paint, follow, advance,
  search, start, explore, fresh, fuel_for, find_cyclic_edges,
}
use workflowui.Cycles.Graph.{Reach}
use workflowui.Cycles.Nodes.{ends-collect_nodes}
use workflowui.Cycles.Loop.{
  Colour-cases, not_black, Keeps, search_rule, explore_rule, self_loops, hops_of, all_nodes,
  explored, explored_of_find,
}
use workflowui.Cycles.Sound.{
  Inv, OnStack, paint-cases, advance-Inv, start-Inv, fresh-Inv, collected, find_cyclic_edges_sound,
}
use workflowui.Cycles.Acyclic.{build_complete, acc_no_cycle}
use workflowui.Cycles.Progress.{
  Clear, IsClear, advance-IsClear, start-IsClear, paint_keeps, painted_self, cyclic-advance,
  fresh-IsClear,
}

module _ (adj : Adjacency) (n : String) where
  -- the search never makes a node white again
  abbrev IsSeen : Search → Type 0
  IsSeen s = s.colour n ≢ white

  abbrev IsBlack : Search → Type 0
  IsBlack s = s.colour n ≡ black

  -- a round repaints nothing, or finishes the top node, or enters a white one
  abbrev Repaints : Frame → Search → (String → Colour) → Type 0
  Repaints f s c =
      (c ≡ s.colour)
      ⊎ ((c ≡ paint f.node black s.colour)
          ⊎ ((m : String) × (s.colour m ≡ white) × (c ≡ paint m gray s.colour)))

  advance-Repaints :
      (f : Frame) (rest : List Hop) (fs : List Frame) (s : Search)
      → Repaints f s (advance adj f rest fs s).colour
  unfolding advance follow
  advance-Repaints f [] fs s = inr (inl refl)
  advance-Repaints f (hop ∷ rest) fs s = elim (Colour-cases (s.colour hop.target)) [
    | inl done ↦ rw (done, follow) (inl refl)
    | inr (inl on) ↦ rw (on, follow) (inl refl)
    | inr (inr new) ↦ rw (new, follow) (inr (inr (hop.target, new, refl)))
  ]

  paint-IsSeen :
      (m : String) (col : Colour) (c : String → Colour)
      → col ≢ white
      → c n ≢ white
      → paint m col c n ≢ white
  paint-IsSeen m col c dark seen h = elim (paint-cases m n col c) [
    | inl (same, p) ↦ dark (sym p ∙ h)
    | inr (other, p) ↦ seen (sym p ∙ h)
  ]

  advance-IsSeen : Keeps adj IsSeen
  advance-IsSeen f fs s top h = elim (advance-Repaints f f.rest fs s) [
    | inl same ↦ rw same h
    | inr (inl dark) ↦ rw dark (paint-IsSeen f.node black s.colour (λ e. cc) h)
    | inr (inr (m, new, lit)) ↦ rw lit (paint-IsSeen m gray s.colour (λ e. cc) h)
  ]

  advance-IsBlack : Keeps adj IsBlack
  advance-IsBlack f fs s top h = elim (advance-Repaints f f.rest fs s) [
    | inl same ↦ rw same h
    | inr (inl dark) ↦ rw dark (paint_keeps adj f.node black s.colour (inr refl) n h)
    | inr (inr (m, new, lit)) ↦
        rw lit (paint_keeps adj m gray s.colour (inl (λ e. cc (e, new))) n h)
  ]

  start-IsSeen : (s : Search) → IsSeen (start adj n s)
  unfolding start
  start-IsSeen s h = cc (painted_self adj n n gray s.colour refl, h)

  start-IsBlack :
      (m : String) (s : Search)
      → s.stack ≡ []
      → s.colour m ≢ black
      → IsBlack s
      → IsBlack (start adj m s)
  unfolding start
  start-IsBlack m s empty new h = paint_keeps adj m gray s.colour (inl new) n h

module _ (edges : List CycleEdge) where
  abbrev adj : Adjacency
  adj = hops_of edges

  -- a search from a node finishes it
  search-IsBlack :
      (fuel : ℕ) (n : String) (s t : Search)
      → s.stack ≡ []
      → s.colour n ≢ black
      → Inv edges s
      → search adj fuel (start adj n s) ≡ some t
      → t.colour n ≡ black
  search-IsBlack fuel n s t empty new v found =
      let arcs = (collected edges).1 in
      let entered : (start adj n s).colour n ≢ white = start-IsSeen adj n s in
      let (seen, _) =
        search_rule adj (IsSeen adj n) (advance-IsSeen adj n) fuel (start adj n s) t entered
          found in
      let (w, clear) =
        search_rule adj (Inv edges) (advance-Inv edges adj arcs) fuel (start adj n s) t
          (start-Inv edges adj arcs n s empty new v) found in
      elim (Colour-cases (t.colour n)) [
        | inl done ↦ done
        | inr (inl on) ↦ absurd (subst (OnStack edges n) clear (w.gray_on n on))
        | inr (inr white_) ↦ absurd (seen white_)
      ]

  explore-IsBlack :
      (fuel : ℕ) (ns : List String) (s t : Search)
      → s.stack ≡ []
      → Inv edges s
      → explore adj fuel ns s ≡ some t
      → (n : String) → Memᴰ n ns
      → t.colour n ≡ black
  unfolding explore
  explore-IsBlack fuel [] s t empty v h n m = elim m [ ]
  explore-IsBlack fuel (x ∷ ns) s t empty v h n m = elim (Colour-cases (s.colour x)) [
    | inl done ↦
        let h' : explore adj fuel ns s ≡ some t = rw (done, explore) at h in
        elim (Memᴰ.cases_cons m) [
          | inl same ↦
              (explore_rule adj (IsBlack adj n) (advance-IsBlack adj n) (start-IsBlack adj n) fuel
                ns s t empty (subst (λ k. s.colour k ≡ black) (sym same) done) h').0
          | inr later ↦ explore-IsBlack fuel ns s t empty v h' n later
        ]
    | inr new ↦ elim (Option-cases (search adj fuel (start adj x s))) [
      | inl out ↦ absurd (ground arith)
      | inr (u, found) ↦
          let fresh_x = not_black (s.colour x) new in
          let arcs = (collected edges).1 in
          let dark = search-IsBlack fuel x s u empty fresh_x v found in
          let (w, clear) =
            search_rule adj (Inv edges) (advance-Inv edges adj arcs) fuel (start adj x s) u
              (start-Inv edges adj arcs x s empty fresh_x v) found in
          let h' : explore adj fuel ns u ≡ some t = ground arith in
          elim (Memᴰ.cases_cons m) [
            | inl same ↦
                (explore_rule adj (IsBlack adj n) (advance-IsBlack adj n) (start-IsBlack adj n) fuel
                  ns u t clear (subst (λ k. u.colour k ≡ black) (sym same) dark) h').0
            | inr later ↦ explore-IsBlack fuel ns u t clear w h' n later
          ]
    ]
  ]

  module _ (s : Search) (found : explored edges ≡ some s) (nothing : s.cyclic ≡ []) where
    no_self_loops : self_loops edges ≡ []
    no_self_loops =
        (explore_rule adj (λ t. t.cyclic ≡ [] → self_loops edges ≡ [])
            (λ f fs t top p h. p (cyclic-advance adj f f.rest fs t h))
            (λ n t empty new p h. p (unfold start in h)) (fuel_for adj (all_nodes edges))
            (all_nodes edges) (fresh (self_loops edges)) s refl (λ h. h) found).0
          nothing

    explored-Clear : Clear adj s
    explored-Clear =
        (explore_rule adj (IsClear adj) (advance-IsClear adj) (start-IsClear adj)
            (fuel_for adj (all_nodes edges)) (all_nodes edges) (fresh (self_loops edges)) s refl
            (fresh-IsClear adj (self_loops edges)) found).0
          nothing

    -- a search that reports nothing leaves no cycle
    explored_acyclic : (e : CycleEdge) → Memᴰ e edges → ¬ Reach edges e.source e.target
    explored_acyclic e m =
        let finished =
          explore-IsBlack (fuel_for adj (all_nodes edges)) (all_nodes edges)
            (fresh (self_loops edges)) s refl
            (fresh-Inv edges (self_loops edges) (collected edges).0) found e.source
            (ends-collect_nodes e edges [] m).0 in
        acc_no_cycle edges adj (λ x i. build_complete edges [] (λ n. []) x no_self_loops i) e.source
          (explored-Clear.ended e.source finished) e m refl

all_nil {ℓ κ} : {A : Type ℓ} {P : A → Type κ} (xs : List A) → All P xs → ((x : A) → ¬ P x) → xs ≡ []
all_nil [] h no_p = refl
all_nil (x ∷ xs) h no_p = absurd (no_p x h.0)

-- `findCyclicEdges` returns the empty set exactly when no edge lies on a cycle, that is, when from no
-- edge's target a path leads back to its source.
pub find_cyclic_edges_empty_iff :
    (edges : List CycleEdge) (ids : List String)
    → find_cyclic_edges edges ≡ some ids
    → (ids ≡ []) ↔ ((e : CycleEdge) → Memᴰ e edges → ¬ Reach edges e.source e.target)
find_cyclic_edges_empty_iff edges ids h = (
  λ nothing.
      let (s, found, same) = explored_of_find edges h in
      explored_acyclic edges s found (same ∙ nothing),
  λ acyclic. all_nil ids (find_cyclic_edges_sound edges ids h) (λ id (e, m, p, r). acyclic e m r),
)
