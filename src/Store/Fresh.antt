-- ===== src/Store/Fresh.antt =====
-- Generated ids are new: an import moves the counter past every number it meets.
use workflowui.Base.{
  ℕ, ◌+◌, ◌≤◌, ◌<◌, subst, if_both, sym, refl, any, leb, if◌then◌else◌, if_true, if_false,
  Bool-cases, inl, inr, ◌≡◌, ◌≢◌, ap, ◌∙◌, Option, some, none, List, [], ◌∷◌, arith, All,
  All-map_imp,
}
use workflowui.Store.{
  Node, Edge, WorkflowState, ParsedNode, named, nameless, null_node, is_null, Imported, ImportError,
  engine_error, workflow, bump, bump_all, prepend, finish_import, import_workflow, generate_node_id,
}
use workflowui.Store.Doubles.{to_double_exact}
use workflowui.Store.Names.{match_node, match_node-node_name}

-- the number in a node's id, if there is one, has been used up
abbrev pub IsUsedUp : ℕ → Option ℕ → Type 0
IsUsedUp counter none = Unit
IsUsedUp counter (some num) = num ≤ counter

IsUsedUp-mono : (o : Option ℕ) (c d : ℕ) → c ≤ d → IsUsedUp c o → IsUsedUp d o
IsUsedUp-mono none c d h u = tt
IsUsedUp-mono (some num) c d h u = omega arith

-- the number in an id, if there is one, and its successor are below 2 ^ 53
abbrev pub IsExact : Option ℕ → Type 0
IsExact none = Unit
IsExact (some num) = num + 1 < 9007199254740992

-- on exact numbers the loop adds without rounding
bump_exact :
    (num c : ℕ) → IsExact (some num) → bump (some num) c ≡ (if leb c num then num + 1 else c)
unfolding bump
bump_exact num c small =
    rw (to_double_exact num (omega arith), to_double_exact (num + 1) (omega arith)) refl

counted_mono : (num c : ℕ) → c ≤ (if leb c num then num + 1 else c)
counted_mono num c = ground arith

counted_past : (num c : ℕ) → num ≤ (if leb c num then num + 1 else c)
counted_past num c = ground arith

counted_bounded :
    (num c bound : ℕ) → num + 1 < bound → c < bound → (if leb c num then num + 1 else c) < bound
counted_bounded num c bound small h = if_both (λ k. k < bound) (leb c num) _ _ small h

bump_mono : (o : Option ℕ) (c : ℕ) → IsExact o → c ≤ bump o c
unfolding bump
bump_mono none c small = omega arith
bump_mono (some num) c small =
    subst (λ k. c ≤ k) (sym (bump_exact num c small)) (counted_mono num c)

bump-IsUsedUp : (o : Option ℕ) (c : ℕ) → IsExact o → IsUsedUp (bump o c) o
bump-IsUsedUp none c small = tt
bump-IsUsedUp (some num) c small =
    subst (λ k. num ≤ k) (sym (bump_exact num c small)) (counted_past num c)

bump_bounded :
    (o : Option ℕ) (c : ℕ) → IsExact o → c < 9007199254740992 → bump o c < 9007199254740992
unfolding bump
bump_bounded none c small h = h
bump_bounded (some num) c small h =
    subst (λ k. k < 9007199254740992) (sym (bump_exact num c small))
      (counted_bounded num c _ small h)

past_used : (o : Option ℕ) (counter : ℕ) → IsUsedUp counter o → o ≢ some (counter + 1)
past_used none counter u e = cc
past_used (some num) counter u e = ground arith

module _ {N V : Type 0} where
  -- the number in the id of an element of `nodes`
  abbrev pub IsReadable : ParsedNode N V → Type 0
  IsReadable nameless = Unit
  IsReadable null_node = Unit
  IsReadable (named n) = IsExact (match_node n.id)

  abbrev pub AreUsedUp : ℕ → List (Node N V) → Type 0
  AreUsedUp counter ns = All (λ n. IsUsedUp counter (match_node n.id)) ns

  -- what a run of the loop gives: a counter below 2 ^ 53 that is not smaller, and past the numbers
  -- of its nodes
  AreRead : ℕ → ℕ × Option (List (Node N V)) → Type 0
  AreRead counter (c, none) = (counter ≤ c) × (c < 9007199254740992)
  AreRead counter (c, some ns) = (counter ≤ c) × (c < 9007199254740992) × AreUsedUp c ns

  AreRead-prepend :
      (n : Node N V) (counter : ℕ) (r : ℕ × Option (List (Node N V)))
      → IsExact (match_node n.id)
      → AreRead (bump (match_node n.id) counter) r
      → AreRead counter (prepend n r)
  unfolding AreRead
  AreRead-prepend n counter (c, none) small h =
      (omega (arith, bump_mono (match_node n.id) counter small, h.0), h.1)
  AreRead-prepend n counter (c, some ns) small (h, b, u) = (
    omega (arith, bump_mono (match_node n.id) counter small),
    b,
    (IsUsedUp-mono (match_node n.id) _ c h (bump-IsUsedUp (match_node n.id) counter small), u),
  )

  AreRead-bump_all :
      (ps : List (ParsedNode N V)) (counter : ℕ)
      → All IsReadable ps
      → counter < 9007199254740992
      → AreRead counter (bump_all ps counter)
  unfolding bump_all AreRead
  AreRead-bump_all [] counter small h = (omega arith, h, tt)
  AreRead-bump_all (nameless ∷ ps) counter small h = (omega arith, h)
  AreRead-bump_all (null_node ∷ ps) counter small h = (omega arith, h)
  AreRead-bump_all (named n ∷ ps) counter small h = AreRead-prepend n counter _ small.0 (
      AreRead-bump_all ps (bump (match_node n.id) counter) small.1
        (bump_bounded (match_node n.id) counter small.0 h))

  -- an id that is generated next is none of theirs
  generate_node_id_new :
      (s : WorkflowState N V)
      → s.node_id_counter < 9007199254740992
      → AreUsedUp s.node_id_counter s.nodes
      → All (λ n. n.id ≢ (generate_node_id s).1) s.nodes
  unfolding generate_node_id
  generate_node_id_new s small u = rw (to_double_exact (s.node_id_counter + 1) (omega arith)) (
      All-map_imp _ _ s.nodes
        (λ n h e.
          past_used (match_node n.id) s.node_id_counter h
            (ap match_node e ∙ match_node-node_name (s.node_id_counter + 1)))
        u)

  AreRead-finish_import :
      (r : ℕ × Option (List (Node N V))) (edges : List (Edge V)) (s : WorkflowState N V)
      → AreRead s.node_id_counter r
      → (finish_import r edges s).thrown ≡ none
      → let s' = (finish_import r edges s).state in
        (s'.node_id_counter < 9007199254740992) × AreUsedUp s'.node_id_counter s'.nodes
  unfolding finish_import AreRead
  AreRead-finish_import (counter, none) edges s h e = cc
  AreRead-finish_import (counter, some ns) edges s (h, b, u) e = (b, u)

  -- Where `nodeIdCounter` is below 2 ^ 53 and so is the successor of each number in the ids of a
  -- file, so that doubles are exact, and the import of the file does not throw: the number in every
  -- node's id is at most the `nodeIdCounter` afterwards, and the id that is generated next is the id
  -- of no node.
  pub generate_node_id-import_workflow :
      (ps : List (ParsedNode N V)) (edges : List (Edge V)) (s : WorkflowState N V)
      → s.node_id_counter < 9007199254740992
      → All IsReadable ps
      → (import_workflow (workflow (some ps) (some edges)) s).thrown ≡ none
      → let s' = (import_workflow (workflow (some ps) (some edges)) s).state in
        AreUsedUp s'.node_id_counter s'.nodes × All (λ n. n.id ≢ (generate_node_id s').1) s'.nodes
  unfolding import_workflow
  generate_node_id-import_workflow ps edges s small readable e =
      elim (Bool-cases (any is_null ps)) [
        | inl throws ↦
            let t : ◌≡◌ {A = Option ImportError} (some engine_error) none =
              sym (ap Imported.thrown (if_true _ _ _ throws)) ∙ e in
            cc
        | inr reads ↦
            let read = AreRead-bump_all ps s.node_id_counter readable small in
            let done : (finish_import (bump_all ps s.node_id_counter) edges s).thrown ≡ none =
              sym (ap Imported.thrown (if_false _ _ _ reads)) ∙ e in
            let (bounded, u) = AreRead-finish_import _ edges s read done in
            rw reads (u, generate_node_id_new _ bounded u)
      ]
