-- ===== src/Debug/Breakpoints.antt =====
-- Breakpoints of the debug store: at most one to a node, and what each operation does to the
-- breakpoint that `find` returns for a node.
use mathlib.Core.Option
use workflowui.Base.{
  ℕ, ◌+◌, ◌≤◌, ◌≡◌, refl, String, true, not, Option, none, some, List, [], ◌∷◌, ◌++◌, map, arith,
  eq_iff, ◌==◌, if◌then◌else◌, filter, is_some, inl, inr, Bool-cases,
}
use workflowui.Debug.{
  Breakpoint, DebugState, find_breakpoint, add_breakpoint, remove_breakpoint, toggle_breakpoint,
  flip,
}

-- how many breakpoints a list has for a node
abbrev pub occurrences : String → List Breakpoint → ℕ
occurrences id [] = 0
occurrences id (b ∷ bs) = (if b.node_id == id then 1 else 0) + occurrences id bs

-- the calls that change the breakpoints
pub data Command : Type 0 where
  add remove toggle : String → Command

module _ {ℓ} {V : Type ℓ} where
  unfoldable pub apply : Command → DebugState V → DebugState V
  apply (add id) s = add_breakpoint id s
  apply (remove id) s = remove_breakpoint id s
  apply (toggle id) s = toggle_breakpoint id s

  pub apply_all : List Command → DebugState V → DebugState V
  apply_all [] s = s
  apply_all (c ∷ cs) s = apply_all cs (apply c s)

occurrences-append :
    (id : String) (bs : List Breakpoint) (b : Breakpoint)
    → occurrences id (bs ++ b ∷ []) ≡ occurrences id bs + (if b.node_id == id then 1 else 0)
occurrences-append id [] b = ground arith
occurrences-append id (x ∷ bs) b = omega (arith, occurrences-append id bs b)

occurrences-filter :
    (i j : String) (bs : List Breakpoint)
    → occurrences j (filter (λ b. not (b.node_id == i)) bs) ≤ occurrences j bs
occurrences-filter i j [] = omega arith
occurrences-filter i j (x ∷ bs) = ground (arith, occurrences-filter i j bs)

occurrences-flip :
    (i j : String) (bs : List Breakpoint) → occurrences j (map (flip i) bs) ≡ occurrences j bs
occurrences-flip i j [] = refl
occurrences-flip i j (x ∷ bs) = ground (arith, occurrences-flip i j bs)

occurrences_of_none :
    (id : String) (bs : List Breakpoint)
    → is_some (find_breakpoint id bs) ≡ is_some {A = Breakpoint} none
    → occurrences id bs ≡ 0
unfolding find_breakpoint
occurrences_of_none id [] h = refl
occurrences_of_none id (b ∷ bs) h = ground (arith, occurrences_of_none id bs)

module _ {ℓ} {V : Type ℓ} where
  abbrev pub IsUnique : DebugState V → Type 0
  IsUnique s = (id : String) → occurrences id s.breakpoints ≤ 1

  apply-IsUnique : (c : Command) (s : DebugState V) → IsUnique s → IsUnique (apply c s)
  unfolding apply add_breakpoint remove_breakpoint toggle_breakpoint
  apply-IsUnique (add i) s h id = ground (
    arith,
    h id,
    eq_iff i id,
    occurrences_of_none i s.breakpoints,
    occurrences-append id s.breakpoints (record { node_id = i; enabled = true }),
  )
  apply-IsUnique (remove i) s h id = omega (arith, h id, occurrences-filter i id s.breakpoints)
  apply-IsUnique (toggle i) s h id = omega (arith, h id, occurrences-flip i id s.breakpoints)

  -- Whatever breakpoint calls are made from a store with at most one breakpoint to each node, no
  -- node ever has two.
  pub apply_all-IsUnique :
      (cs : List Command) (s : DebugState V) → IsUnique s → IsUnique (apply_all cs s)
  unfolding apply_all
  apply_all-IsUnique [] s h = h
  apply_all-IsUnique (c ∷ cs) s h = apply_all-IsUnique cs (apply c s) (apply-IsUnique c s h)

-- what a call means for the breakpoint of node `j`, with the breakpoints seen as a finite map
abbrev pub meaning : Command → String → Option Breakpoint → Option Breakpoint
meaning (add i) j (some b) = some b
meaning (add i) j none = if i == j then some (record { node_id = i; enabled = true }) else none
meaning (remove i) j o = if i == j then none else o
meaning (toggle i) j o = Option.map (flip i) o

found_id :
    (j : String) (bs : List Breakpoint) {b : Breakpoint}
    → find_breakpoint j bs ≡ some b
    → (b.node_id == j) ≡ true
unfolding find_breakpoint
found_id j [] h = cc
found_id j (x ∷ bs) {b} h = elim (Bool-cases (x.node_id == j)) [
  | inl same ↦ ground arith
  | inr other ↦ found_id j bs (rw other at h)
]

find-append :
    (j : String) (bs : List Breakpoint) (b : Breakpoint)
    → find_breakpoint j (bs ++ b ∷ []) ≡ (
        if is_some (find_breakpoint j bs)
        then find_breakpoint j bs
        else if b.node_id == j
        then some b
        else none)
unfolding find_breakpoint
find-append j [] b = refl
find-append j (x ∷ bs) b = ground (arith, find-append j bs b)

find-filter :
    (i j : String) (bs : List Breakpoint)
    → find_breakpoint j (filter (λ b. not (b.node_id == i)) bs)
      ≡ (if i == j then none else find_breakpoint j bs)
unfolding find_breakpoint
find-filter i j [] = ground arith
find-filter i j (x ∷ bs) =
    ground (arith, find-filter i j bs, eq_iff i j, eq_iff x.node_id i, eq_iff x.node_id j)

find-flip :
    (i j : String) (bs : List Breakpoint)
    → find_breakpoint j (map (flip i) bs) ≡ Option.map (flip i) (find_breakpoint j bs)
unfolding find_breakpoint
find-flip i j [] = refl
find-flip i j (x ∷ bs) = ground (arith, find-flip i j bs)

-- The breakpoints implement a finite map from nodes: adding sets an enabled breakpoint where there
-- was none and changes nothing else, removing deletes that node's, and toggling inverts it.
pub find-apply {ℓ} :
    {V : Type ℓ} (c : Command) (j : String) (s : DebugState V)
    → find_breakpoint j (apply c s).breakpoints ≡ meaning c j (find_breakpoint j s.breakpoints)
unfolding apply add_breakpoint remove_breakpoint toggle_breakpoint
find-apply (add i) j s =
    ground (arith, eq_iff i j, find-append j s.breakpoints (record { node_id = i; enabled = true }))
find-apply (remove i) j s = find-filter i j s.breakpoints
find-apply (toggle i) j s = find-flip i j s.breakpoints
