-- ===== src/Cycles.antt =====
-- Cycle detection on the edges of a workflow: `findCyclicEdges` of frontend/src/utils/cycles.ts.
-- A `Set` is a list without repetition in insertion order, the maps `adj` and `colour` are
-- functions, and an iterator is the list of what it has left. The stack has its top at the head.
pub mod Graph
mod Adjacency
mod Nodes
mod Acyclic
pub mod Loop
pub mod Sound
pub mod Total
mod Progress
pub mod Complete
use workflowui.Base.{
  ℕ, zero, suc, ◌+◌, String, Bool, true, false, Option, none, some, List, [], ◌∷◌, ◌++◌, length,
  any, ◌==◌, if◌then◌else◌,
}

pub record CycleEdge : Type 0 where
  pub id : String
  pub source : String
  pub target : String

-- an entry of the adjacency list
pub record Hop : Type 0 where
  pub target : String
  pub edge_id : String

pub data Colour : Type 0 where
  white gray black : Colour

pub record Frame : Type 0 where
  pub node : String
  pub rest : List Hop
  pub incoming : Option String

pub record Search : Type 0 where
  pub stack : List Frame
  pub colour : String → Colour
  pub cyclic : List String

abbrev pub Adjacency : Type 0
Adjacency = String → List Hop

-- `Set.add`
unfoldable pub add : String → List String → List String
add x xs = if any (λ y. y == x) xs then xs else xs ++ x ∷ []

pub push_hop : CycleEdge → Adjacency → Adjacency
push_hop e adj n =
    if e.source == n then adj n ++ record { target = e.target; edge_id = e.id } ∷ [] else adj n

-- the first loop: self-loops are cyclic at once, the other edges enter the adjacency list
pub build : List CycleEdge → List String → Adjacency → List String × Adjacency
build [] cyclic adj = (cyclic, adj)
build (e ∷ es) cyclic adj =
    if e.source == e.target
    then build es (add e.id cyclic) adj
    else build es cyclic (push_hop e adj)

pub collect_nodes : List CycleEdge → List String → List String
unfolding add
collect_nodes [] nodes = nodes
collect_nodes (e ∷ es) nodes = collect_nodes es (add e.target (add e.source nodes))

pub paint : String → Colour → (String → Colour) → String → Colour
paint n c colour m = if n == m then c else colour m

pub add_incoming : Option String → List String → List String
add_incoming none cyclic = cyclic
add_incoming (some id) cyclic = if id == "" then cyclic else add id cyclic

-- the backward walk over the stack
pub mark : String → List Frame → List String → List String
mark target [] cyclic = cyclic
mark target (f ∷ fs) cyclic =
    if f.node == target then cyclic else mark target fs (add_incoming f.incoming cyclic)

module _ (adj : Adjacency) where
  abbrev pub enter : String → Option String → Frame
  enter n incoming = record { node = n; rest = adj n; incoming = incoming }

  -- one hop, with the stack after the iterator has moved on
  pub follow : Hop → List Frame → Search → Search
  unfolding paint
  follow hop stack s = elim (s.colour hop.target) [
    | gray ↦ record s { stack = stack; cyclic = mark hop.target stack (add hop.edge_id s.cyclic) }
    | white ↦ record s {
      stack = enter hop.target (some hop.edge_id) ∷ stack;
      colour = paint hop.target gray s.colour;
    }
    | black ↦ record s { stack = stack }
  ]

  -- the body of the `while` loop, for the top frame and the frames below
  pub advance : Frame → List Hop → List Frame → Search → Search
  unfolding follow
  advance f [] fs s = record s { stack = fs; colour = paint f.node black s.colour }
  advance f (hop ∷ rest) fs s = follow hop (record f { rest = rest } ∷ fs) s

  pub search : ℕ → Search → Option Search
  search zero s = elim s.stack [ [] ↦ some s | _ ∷ _ ↦ none ]
  search (suc fuel) s = elim s.stack [ [] ↦ some s | f ∷ fs ↦ search fuel (advance f f.rest fs s) ]

  pub start : String → Search → Search
  unfolding paint
  start n s = record s { stack = enter n none ∷ []; colour = paint n gray s.colour }

  -- the loop over all nodes
  pub explore : ℕ → List String → Search → Option Search
  explore fuel [] s = some s
  explore fuel (n ∷ ns) s = elim (s.colour n) [
    | black ↦ explore fuel ns s
    | _ ↦ elim (search fuel (start n s)) [ none ↦ none | some t ↦ explore fuel ns t ]
  ]

-- One round of the inner loop for each hop and one for each node are enough.
pub fuel_for : Adjacency → List String → ℕ
fuel_for adj [] = 0
fuel_for adj (n ∷ ns) = length (adj n) + 1 + fuel_for adj ns

abbrev pub fresh : List String → Search
fresh cyclic = record { stack = []; colour = λ n. white; cyclic = cyclic }

-- `none` would mean that the fuel ran out.
unfoldable pub find_cyclic_edges : List CycleEdge → Option (List String)
unfolding build push_hop collect_nodes explore search start advance mark add_incoming fuel_for
find_cyclic_edges edges =
    let (self_loops, adj) = build edges [] (λ n. []) in
    let nodes = collect_nodes edges [] in
    elim (explore adj (fuel_for adj nodes) nodes (fresh self_loops)) [
      | none ↦ none
      | some s ↦ some s.cyclic
    ]
