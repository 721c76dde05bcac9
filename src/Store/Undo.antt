-- ===== src/Store/Undo.antt =====
-- What undo and redo see, and what they leave in the index.
use workflowui.Base.{
  suc, ◌+◌, Distinct, eq_refl, ◌≡◌, refl, ap, ◌∙◌, inl, inr, String, Bool, true, false, some, none,
  List, [], ◌∷◌, map, Memᴰ, arith, ◌==◌, eqb, eqb_iff, length, Bool-cases, Option-cases,
}
use workflowui.Store.Index.{get-rebuild, find_last-Distinct, length-rebuild}
use workflowui.Store.{
  NodeStatus, NodeData, DataPatch, Dict, get, Node, Edge, WorkflowState, Snapshot, strip_node,
  strip_runtime_fields, partialize, update_body, patch_data, update_node_status, update_node_data,
  resync, restore, sample_agrees, rebuild_nodes_by_id,
}

nil_of_length : {A : Type 0} (xs : List A) → length xs ≡ 0 → xs ≡ []
nil_of_length [] e = refl
nil_of_length (x ∷ xs) e = absurd (omega arith)

module _ {N V : Type 0} where
  strip-update_body :
      (id : String) (f : NodeData N V → NodeData N V)
      → ((d : NodeData N V) → strip_runtime_fields (f d) ≡ strip_runtime_fields d)
      → (ns : List (Node N V)) → map strip_node (map (update_body id f) ns) ≡ map strip_node ns
  strip-update_body id f same [] = refl
  strip-update_body id f same (n ∷ ns) = elim (Bool-cases (n.id == id)) [
    | inl here ↦ rw here (λ i. record n { body = same n.body i } ∷ strip-update_body id f same ns i)
    | inr other ↦ rw other (ap (λ ms. strip_node n ∷ ms) (strip-update_body id f same ns))
  ]

  -- a patch of runtime fields only
  pub record IsRuntime (p : DataPatch N V) : Type 0 where
    pub label : p.label ≡ none
    pub type : p.type ≡ none
    pub config : p.config ≡ none
    pub extra : p.extra ≡ []

  strip-patch_data :
      (p : DataPatch N V)
      → IsRuntime p
      → (d : NodeData N V) → strip_runtime_fields (patch_data p d) ≡ strip_runtime_fields d
  strip-patch_data p r d = rw (r.label, r.type, r.config, r.extra)

  -- Undo sees no change of a node's status, nor an update of runtime fields only: the snapshot of
  -- the state is the same before and after.
  pub partialize_runtime :
      (id : String) (status : NodeStatus) (p : DataPatch N V) (s : WorkflowState N V)
      → IsRuntime p
      → (partialize (update_node_status id status s) ≡ partialize s)
        × (partialize (update_node_data id p s) ≡ partialize s)
  unfolding partialize update_node_status update_node_data
  partialize_runtime id status p s r = (
    ap (λ ns. record { nodes = ns; edges = s.edges }) (strip-update_body id _ (λ d. refl) s.nodes),
    ap (λ ns. record { nodes = ns; edges = s.edges })
        (strip-update_body id (patch_data p) (strip-patch_data p r) s.nodes),
  )

  module _ (same_object : Node N V → Node N V → Bool) where
    -- the cache holds none of the objects of a list of nodes
    abbrev pub IsForeign : Dict (Node N V) → List (Node N V) → Type 0
    IsForeign cache ns =
        (m n : Node N V) → Memᴰ n ns → get n.id cache ≡ some m → same_object m n ≡ false

    disagrees :
        (cache : Dict (Node N V)) (n : Node N V) (ns : List (Node N V))
        → IsForeign cache (n ∷ ns)
        → sample_agrees same_object (n ∷ ns) cache ≡ false
    disagrees cache n ns foreign = elim (Option-cases (get n.id cache)) [
      | inl missing ↦ rw missing
      | inr (m, found) ↦ rw found (foreign m n (Memᴰ.head refl) found)
    ]

    resync_lem :
        (ns : List (Node N V)) (es : List (Edge V)) (s : WorkflowState N V)
        → IsForeign s.nodes_by_id ns
        → (resync same_object (record s { nodes = ns; edges = es })).nodes_by_id
          ≡ rebuild_nodes_by_id ns
    unfolding resync
    resync_lem [] es s foreign = elim (Bool-cases (eqb (length s.nodes_by_id) 0)) [
      | inl empty ↦ rw empty (nil_of_length s.nodes_by_id ((eqb_iff _ _).0 empty))
      | inr filled ↦ rw filled
    ]
    resync_lem (n ∷ ns) es s foreign =
        elim (Bool-cases (eqb (length s.nodes_by_id) (suc (length ns)))) [
          | inl fits ↦ rw (fits, disagrees s.nodes_by_id n ns foreign)
          | inr other ↦ rw other
        ]

    -- Undo and redo write nodes and edges only. Where the nodes that they write are objects that the
    -- index does not hold, the subscriber rebuilds the index from them.
    pub resync-restore :
        (snap : Snapshot N V) (s : WorkflowState N V)
        → IsForeign s.nodes_by_id snap.nodes
        → (resync same_object (restore snap s)).nodes_by_id ≡ rebuild_nodes_by_id snap.nodes
    unfolding restore
    resync-restore snap s foreign = resync_lem snap.nodes snap.edges s foreign

    -- A write that keeps the first node, as an object, and the number of nodes goes unnoticed where
    -- ids were distinct: the subscriber leaves the index that belongs to the old nodes.
    pub resync_stale :
        (n : Node N V) (old new : List (Node N V)) (s : WorkflowState N V)
        → s.nodes_by_id ≡ rebuild_nodes_by_id (n ∷ old)
        → Distinct (map Node.id (n ∷ old))
        → length new ≡ length old
        → same_object n n ≡ true
        → (resync same_object (record s { nodes = n ∷ new })).nodes_by_id
          ≡ rebuild_nodes_by_id (n ∷ old)
    unfolding resync
    resync_stale n old new s cached d l same =
        let size : length s.nodes_by_id ≡ length new + 1 =
          ap length cached ∙ length-rebuild (n ∷ old) d ∙ omega arith in
        let here : get n.id s.nodes_by_id ≡ some n =
          ap (get n.id) cached
          ∙ get-rebuild n.id (n ∷ old)
          ∙ find_last-Distinct n.id (n ∷ old) d
          ∙ rw (eq_refl n.id) in
        let fits : eqb (length s.nodes_by_id) (suc (length new)) ≡ true = ground arith in
        rw (fits, here, same) cached
