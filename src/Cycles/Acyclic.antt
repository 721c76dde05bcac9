-- ===== src/Cycles/Acyclic.antt =====
-- Without self-loops every edge is a hop of the adjacency list, and a node from which no endless
-- walk starts lies on no cycle.
use mathlib.Core.List.Memᴰ
use mathlib.Core.WellFounded.{Acc}
use workflowui.Base.{
  ◌≡◌, ◌≢◌, refl, sym, ◌∙◌, subst, inl, inr, String, List, [], ◌∷◌, Memᴰ, arith, eq_refl, ◌==◌,
  Bool-cases, ne_of_eq_false,
}
use workflowui.Cycles.{CycleEdge, Hop, Adjacency, add, push_hop, build}
use workflowui.Cycles.Graph.{Reach, here, step, Reach-trans}

pub add-ne-nil : (x : String) (xs : List String) → add x xs ≢ []
unfolding add
add-ne-nil x [] h = cc
add-ne-nil x (y ∷ xs) h = ground arith

abbrev pub hop_of : CycleEdge → Hop
hop_of e = record { target = e.target; edge_id = e.id }

build-ne-nil :
    (es : List CycleEdge) (cyclic : List String) (adj : Adjacency)
    → cyclic ≢ []
    → (build es cyclic adj).0 ≢ []
unfolding build
build-ne-nil [] cyclic adj h = h
build-ne-nil (e ∷ es) cyclic adj h = elim (Bool-cases (e.source == e.target)) [
  | inl loop ↦ rw loop (build-ne-nil es (add e.id cyclic) adj (add-ne-nil e.id cyclic))
  | inr other ↦ rw other (build-ne-nil es cyclic (push_hop e adj) h)
]

mem-push_hop :
    (e : CycleEdge) (adj : Adjacency) (n : String) (h : Hop)
    → Memᴰ h (adj n)
    → Memᴰ h (push_hop e adj n)
unfolding push_hop
mem-push_hop e adj n h m = elim (Bool-cases (e.source == n)) [
  | inl same ↦ rw same (Memᴰ.append_left _ m)
  | inr other ↦ rw other m
]

mem-push_hop_self : (e : CycleEdge) (adj : Adjacency) → Memᴰ (hop_of e) (push_hop e adj e.source)
unfolding push_hop
mem-push_hop_self e adj = rw eq_refl (Memᴰ.append_right (adj e.source) (Memᴰ.head refl))

mem-build :
    (es : List CycleEdge) (cyclic : List String) (adj : Adjacency) (n : String) (h : Hop)
    → Memᴰ h (adj n)
    → Memᴰ h ((build es cyclic adj).1 n)
unfolding build
mem-build [] cyclic adj n h m = m
mem-build (e ∷ es) cyclic adj n h m = elim (Bool-cases (e.source == e.target)) [
  | inl loop ↦ rw loop (mem-build es (add e.id cyclic) adj n h m)
  | inr other ↦ rw other (mem-build es cyclic (push_hop e adj) n h (mem-push_hop e adj n h m))
]

-- if the first loop reports nothing, no edge is a self-loop and all are in the adjacency list
pub build_complete :
    (es : List CycleEdge) (cyclic : List String) (adj : Adjacency) (e : CycleEdge)
    → (build es cyclic adj).0 ≡ []
    → Memᴰ e es
    → (e.source ≢ e.target) × Memᴰ (hop_of e) ((build es cyclic adj).1 e.source)
unfolding build
build_complete [] cyclic adj e clear m = elim m [ ]
build_complete (x ∷ es) cyclic adj e clear m = elim (Bool-cases (x.source == x.target)) [
  | inl loop ↦
      absurd (build-ne-nil es (add x.id cyclic) adj (add-ne-nil x.id cyclic) (rw loop at clear))
  | inr other ↦ rw other (elim (Memᴰ.cases_cons m) [
    | inl same ↦
        subst
          (λ (y : CycleEdge).
            (y.source ≢ y.target) × Memᴰ (hop_of y) ((build es cyclic (push_hop x adj)).1 y.source))
          (sym same)
          (
            ne_of_eq_false x.source x.target other,
            mem-build es cyclic (push_hop x adj) x.source (hop_of x) (mem-push_hop_self x adj),
          )
    | inr later ↦ build_complete es cyclic (push_hop x adj) e (rw other at clear) later
  ])
]

-- `m` follows `n`
abbrev pub Follows : Adjacency → String → String → Type 0
Follows adj m n = (h : Hop) × Memᴰ h (adj n) × (h.target ≡ m)

module _ (edges : List CycleEdge) (adj : Adjacency) where
  pub acc_no_cycle :
      ((e : CycleEdge) → Memᴰ e edges → (e.source ≢ e.target) × Memᴰ (hop_of e) (adj e.source))
      → (n : String) → Acc (Follows adj) n
      → (e : CycleEdge) → Memᴰ e edges
      → e.source ≡ n
      → ¬ Reach edges n e.target
  acc_no_cycle full n (Acc.intro _ smaller) e m p (here q) = absurd ((full e m).0 (p ∙ sym q))
  acc_no_cycle full n (Acc.intro _ smaller) e m p (step e' m' p' r) =
      let next = subst (λ k. Memᴰ (hop_of e) (adj k)) p (full e m).1 in
      acc_no_cycle full e.target (smaller e.target (hop_of e, next, refl)) e' m' (sym p')
        (Reach-trans edges r (step e m (sym p) (here refl)))
