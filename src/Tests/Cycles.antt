-- ===== src/Tests/Cycles.antt =====
-- The cycle search on small graphs.
use workflowui.Base.{◌≡◌, ◌↔◌, refl, some, String, List, [], ◌∷◌, All, Memᴰ}
use workflowui.Cycles.{CycleEdge, find_cyclic_edges}
use workflowui.Cycles.Graph.{Reach, OnCycle}
use workflowui.Cycles.Sound.{find_cyclic_edges_sound}
use workflowui.Cycles.Total.{find_cyclic_edges_total}
use workflowui.Cycles.Complete.{find_cyclic_edges_empty_iff}

abbrev edge : String → String → String → CycleEdge
edge id s t = record { id = id; source = s; target = t }

-- a cycle of three nodes, and an edge back along it that closes a second cycle
abbrev forward : List CycleEdge
forward = edge "ab" "a" "b" ∷ edge "bc" "b" "c" ∷ edge "ca" "c" "a" ∷ edge "ac" "a" "c" ∷ []

-- the edge "ac" lies on the cycle of "ac" and "ca", and is not reported
find_forward : find_cyclic_edges forward ≡ some ("ca" ∷ "bc" ∷ "ab" ∷ [])
unfolding find_cyclic_edges
find_forward = refl

find_loop : find_cyclic_edges (edge "x" "a" "a" ∷ edge "y" "a" "b" ∷ []) ≡ some ("x" ∷ [])
unfolding find_cyclic_edges
find_loop = refl

abbrev diamond : List CycleEdge
diamond = edge "1" "a" "b" ∷ edge "2" "a" "c" ∷ edge "3" "b" "d" ∷ edge "4" "c" "d" ∷ []

find_diamond : find_cyclic_edges diamond ≡ some []
unfolding find_cyclic_edges
find_diamond = refl

find_cyclic_edges_sound_example : All (OnCycle forward) ("ca" ∷ "bc" ∷ "ab" ∷ [])
find_cyclic_edges_sound_example =
    find_cyclic_edges_sound forward ("ca" ∷ "bc" ∷ "ab" ∷ []) find_forward

find_cyclic_edges_total_example : (ids : List String) × (find_cyclic_edges diamond ≡ some ids)
find_cyclic_edges_total_example = find_cyclic_edges_total diamond

find_cyclic_edges_empty_iff_example :
    (◌≡◌ {A = List String} [] [])
    ↔ ((e : CycleEdge) → Memᴰ e diamond → ¬ Reach diamond e.source e.target)
find_cyclic_edges_empty_iff_example = find_cyclic_edges_empty_iff diamond [] find_diamond
