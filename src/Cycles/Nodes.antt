-- ===== src/Cycles/Nodes.antt =====
-- The node set of `findCyclicEdges` holds both ends of every edge.
use mathlib.Core.List.Memᴰ
use workflowui.Base.{
  ◌≡◌, refl, sym, subst, inl, inr, String, true, List, [], ◌∷◌, Memᴰ, arith, eq_iff, ◌==◌, any,
  Bool-cases,
}
use workflowui.Cycles.{CycleEdge, add, collect_nodes}

mem_of_any : (x : String) (xs : List String) → any (λ y. y == x) xs ≡ true → Memᴰ x xs
mem_of_any x [] h = absurd (ground arith)
mem_of_any x (y ∷ xs) h = elim (Bool-cases (y == x)) [
  | inl same ↦ Memᴰ.head (sym ((eq_iff y x).0 same))
  | inr other ↦ Memᴰ.tail (mem_of_any x xs (ground arith))
]

mem-add_self : (x : String) (xs : List String) → Memᴰ x (add x xs)
unfolding add
mem-add_self x xs = elim (Bool-cases (any (λ y. y == x) xs)) [
  | inl old ↦ rw old (mem_of_any x xs old)
  | inr new ↦ rw new (Memᴰ.append_right xs (Memᴰ.head refl))
]

mem-add : (z x : String) (xs : List String) → Memᴰ z xs → Memᴰ z (add x xs)
unfolding add
mem-add z x xs m = elim (Bool-cases (any (λ y. y == x) xs)) [
  | inl old ↦ rw old m
  | inr new ↦ rw new (Memᴰ.append_left _ m)
]

mem-collect_nodes :
    (z : String) (es : List CycleEdge) (ns : List String) → Memᴰ z ns → Memᴰ z (collect_nodes es ns)
unfolding collect_nodes
mem-collect_nodes z [] ns m = m
mem-collect_nodes z (e ∷ es) ns m =
    mem-collect_nodes z es (add e.target (add e.source ns))
      (mem-add z e.target _ (mem-add z e.source ns m))

pub ends-collect_nodes :
    (e : CycleEdge) (es : List CycleEdge) (ns : List String)
    → Memᴰ e es
    → Memᴰ e.source (collect_nodes es ns) × Memᴰ e.target (collect_nodes es ns)
unfolding collect_nodes
ends-collect_nodes e [] ns m = elim m [ ]
ends-collect_nodes e (x ∷ es) ns (Memᴰ.head p) =
    let all = add x.target (add x.source ns) in
    subst
      (λ (y : CycleEdge).
        Memᴰ y.source (collect_nodes es all) × Memᴰ y.target (collect_nodes es all))
      (sym p)
      (
        mem-collect_nodes x.source es all (mem-add x.source x.target _ (mem-add_self x.source ns)),
        mem-collect_nodes x.target es all (mem-add_self x.target _),
      )
ends-collect_nodes e (x ∷ es) ns (Memᴰ.tail m) = ends-collect_nodes e es _ m
