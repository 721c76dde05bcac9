-- ===== src/Store/Removal.antt =====
-- What `removeNode` takes away, and what it keeps.
use workflowui.Base.{
  ◌≡◌, ◌≢◌, ◌↔◌, inl, inr, String, Option, some, none, List, [], ◌∷◌, Memᴰ, arith, eq_iff,
  eq_false_of_ne, true, filter, All, All-map_imp, mem-filter, filter-All, Bool, Bool-cases,
}
use workflowui.Store.{Node, Edge, WorkflowState, unselect, remove_node}

unselect_lem : (id : String) (o : Option String) → unselect id o ≢ some id
unselect_lem id none = λ e. cc
unselect_lem id (some s) = λ e. ground (arith, eq_iff s id)

-- nothing of a state refers to an id
pub record IsGone {N V : Type 0} (id : String) (s : WorkflowState N V) : Type 0 where
  pub nodes : All (λ (n : Node N V). n.id ≢ id) s.nodes
  pub edges : All (λ (e : Edge V). (e.source ≢ id) × (e.target ≢ id)) s.edges
  pub selection : s.selected_node_id ≢ some id

mem_of_kept {ℓ} :
    {A : Type ℓ} (p : A → Bool) (x y : A) (ys : List A)
    → p y ≡ true
    → (Memᴰ x (filter p ys) → Memᴰ x ys × (p x ≡ true))
    → Memᴰ x (y ∷ filter p ys)
    → Memᴰ x (y ∷ ys) × (p x ≡ true)
mem_of_kept p x y ys kept rest (Memᴰ.head same) = (Memᴰ.head same, rw same kept)
mem_of_kept p x y ys kept rest (Memᴰ.tail m) = let (n, e) = rest m in (Memᴰ.tail n, e)

mem_of_filter {ℓ} :
    {A : Type ℓ} (p : A → Bool) (x : A) (xs : List A)
    → Memᴰ x (filter p xs)
    → Memᴰ x xs × (p x ≡ true)
mem_of_filter p x [] m = elim m [ ]
mem_of_filter p x (y ∷ ys) m = elim (Bool-cases (p y)) [
  | inl kept ↦ mem_of_kept p x y ys kept (mem_of_filter p x ys) (rw kept at m)
  | inr gone ↦ let (n, e) = mem_of_filter p x ys (rw gone at m) in (Memᴰ.tail n, e)
]

module _ {N V : Type 0} (id : String) (s : WorkflowState N V) (n : Node N V) (e : Edge V) where
  -- After `removeNode(id)` no node has that id, no edge starts or ends there and it is not selected;
  -- the nodes that are left are exactly those with another id, and the edges that are left exactly
  -- those between others.
  pub remove_node_lem :
      IsGone id (remove_node id s)
      × (Memᴰ n (remove_node id s).nodes ↔ (Memᴰ n s.nodes × (n.id ≢ id)))
      × (Memᴰ e (remove_node id s).edges ↔ (Memᴰ e s.edges × (e.source ≢ id) × (e.target ≢ id)))
  unfolding remove_node
  remove_node_lem = (
    record {
      nodes = All-map_imp _ _ _ (λ m e same. ground (arith, eq_iff m.id id)) (filter-All _ s.nodes);
      edges =
          All-map_imp _ _ _
            (λ f h. (
              λ same. ground (arith, eq_iff f.source id),
              λ same. ground (arith, eq_iff f.target id),
            ))
            (filter-All _ s.edges);
      selection = unselect_lem id s.selected_node_id;
    },
    (
      λ m.
          let (old, kept) = mem_of_filter _ n s.nodes m in
          (old, λ same. ground (arith, eq_iff n.id id)),
      λ h. mem-filter _ n s.nodes h.0 (rw (eq_false_of_ne n.id id h.1)),
    ),
    (
      λ m.
          let (old, kept) = mem_of_filter _ e s.edges m in
          (
            old,
            λ same. ground (arith, eq_iff e.source id),
            λ same. ground (arith, eq_iff e.target id),
          ),
      λ h.
          mem-filter _ e s.edges h.0
            (rw (eq_false_of_ne e.source id h.1, eq_false_of_ne e.target id h.2)),
    ),
  )
