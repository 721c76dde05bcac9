-- ===== src/Cycles/Loop.antt =====
-- Rules for the two loops of the search: what a round keeps holds at the end.
use workflowui.Base.{
  ℕ, zero, suc, ◌≡◌, ◌≢◌, refl, inl, inr, ◌⊎◌, String, Option, some, List, [], ◌∷◌, arith,
  Option-cases, List-cases, sym, ◌∙◌,
}
use workflowui.Cycles.{
  Search, Frame, Adjacency, Colour, white, gray, black, advance, search, start, explore, build,
  collect_nodes, fuel_for, fresh, find_cyclic_edges, CycleEdge,
}

pub Colour-cases : (c : Colour) → (c ≡ black) ⊎ ((c ≡ gray) ⊎ (c ≡ white))
Colour-cases black = inl refl
Colour-cases gray = inr (inl refl)
Colour-cases white = inr (inr refl)

pub not_black : (c : Colour) → (c ≡ gray) ⊎ (c ≡ white) → c ≢ black
not_black c (inl g) e = cc
not_black c (inr w) e = cc

pub some_eq {ℓ} : {A : Type ℓ} {a b : A} → some a ≡ some b → a ≡ b
some_eq h = cc

module _ {ℓ} (adj : Adjacency) (P : Search → Type ℓ) where
  abbrev pub Keeps : Type ℓ
  Keeps =
      (f : Frame) (fs : List Frame) (s : Search)
      → s.stack ≡ f ∷ fs
      → P s
      → P (advance adj f f.rest fs s)

  pub search_rule :
      Keeps → (fuel : ℕ) (s t : Search) → P s → search adj fuel s ≡ some t → P t × (t.stack ≡ [])
  unfolding search
  search_rule keep zero s t p h = elim (List-cases s.stack) [
    | inl empty ↦ ground arith
    | inr (f, fs, e) ↦ absurd (ground arith)
  ]
  search_rule keep (suc fuel) s t p h = elim (List-cases s.stack) [
    | inl empty ↦ ground arith
    | inr (f, fs, e) ↦
        search_rule keep fuel (advance adj f f.rest fs s) t (keep f fs s e p) (rw (e, search) at h)
  ]

  pub explore_rule :
      Keeps
      → ((n : String) (s : Search) → s.stack ≡ [] → s.colour n ≢ black → P s → P (start adj n s))
      → (fuel : ℕ) (ns : List String) (s t : Search) → s.stack ≡ []
      → P s
      → explore adj fuel ns s ≡ some t
      → P t × (t.stack ≡ [])
  unfolding explore
  explore_rule keep open_at fuel [] s t empty p h = ground arith
  explore_rule keep open_at fuel (n ∷ ns) s t empty p h = elim (Colour-cases (s.colour n)) [
    | inl done ↦ explore_rule keep open_at fuel ns s t empty p (rw (done, explore) at h)
    | inr new ↦ elim (Option-cases (search adj fuel (start adj n s))) [
      | inl out ↦ absurd (ground arith)
      | inr (u, found) ↦
          let (q, empty') =
            search_rule keep fuel (start adj n s) u
              (open_at n s empty (not_black (s.colour n) new) p) found in
          explore_rule keep open_at fuel ns u t empty' q (ground arith)
    ]
  ]

module _ (edges : List CycleEdge) where
  -- what the first loop hands over to the search
  abbrev pub self_loops : List String
  self_loops = (build edges [] (λ n. [])).0

  abbrev pub hops_of : Adjacency
  hops_of = (build edges [] (λ n. [])).1

  abbrev pub all_nodes : List String
  all_nodes = collect_nodes edges []

  abbrev pub explored : Option Search
  explored = explore hops_of (fuel_for hops_of all_nodes) all_nodes (fresh self_loops)

  pub find_of_explored : {s : Search} → explored ≡ some s → find_cyclic_edges edges ≡ some s.cyclic
  unfolding find_cyclic_edges
  find_of_explored h = rw (h, find_cyclic_edges)

  pub explored_of_find :
      {ids : List String}
      → find_cyclic_edges edges ≡ some ids
      → (s : Search) × (explored ≡ some s) × (s.cyclic ≡ ids)
  explored_of_find {ids} h = elim (Option-cases explored) [
    | inl out ↦ absurd (unfold find_cyclic_edges in ground arith)
    | inr (s, found) ↦ (s, found, some_eq (sym (find_of_explored found) ∙ h))
  ]
