-- ===== src/Runner/Reconcile.antt =====
-- Taking over the backend's view after a reconnection.
use workflowui.Base.{
  Option, none, not, any, any_of_mem, eq_refl, Bool, false, if◌then◌else◌, Option-cases,
  All-tabulate, ◌≡◌, ◌≢◌, refl, sym, ◌∙◌, ap, inl, inr, String, true, some, List, [], ◌∷◌, map,
  Memᴰ, All, All-map, All-map_imp, Distinct, ◌==◌, eq_iff, is_some, Bool-cases, if_both, if_true,
  subst,
}
use workflowui.Debug.{set_paused_at}
use workflowui.Store.{NodeData, Dict, Node, WorkflowState, get, update_body, update_node_status}
use workflowui.Runner.{
  Runner, WorkflowStateSnapshot, truthy, coerce_status, take_statuses, reconcile_from_snapshot,
}
use workflowui.Runner.Nodes.{DataOf, DataOf-update_body, filter-update_body, nodes_where}

-- the statuses of a snapshot, none where it has none
abbrev pub entries_of : Option (Dict String) → Dict String
entries_of none = []
entries_of (some statuses) = statuses

named_away :
    (statuses : Dict String) (e : String × String)
    → Memᴰ e statuses
    → not (any (λ p. p.0 == e.0) statuses) ≡ false
named_away statuses e m =
    rw (any_of_mem (λ (p : String × String). p.0 == e.0) e statuses m (eq_refl e.0)) refl

module _ {N V : Type 0} where
  -- an update under another id
  DataOf-other {κ} :
      (id j : String) (f : NodeData N V → NodeData N V) (Q : NodeData N V → Type κ)
      (ns : List (Node N V))
      → id ≢ j
      → DataOf j Q ns
      → DataOf j Q (map (update_body id f) ns)
  DataOf-other id j f Q [] other h = tt
  DataOf-other id j f Q (n ∷ ns) other h = elim (Bool-cases (n.id == id)) [
    | inl here ↦ rw here (
      (λ e. absurd (other (sym ((eq_iff n.id id).0 here) ∙ e))),
      DataOf-other id j f Q ns other h.1,
    )
    | inr away ↦ rw away (h.0, DataOf-other id j f Q ns other h.1)
  ]

  module _ (known : Dict (Node N V)) where
    take_statuses_keep {κ} :
        (j : String) (Q : NodeData N V → Type κ) (statuses : Dict String) (s : WorkflowState N V)
        → All (λ e. e.0 ≢ j) statuses
        → DataOf j Q s.nodes
        → DataOf j Q (take_statuses known statuses s).nodes
    unfolding take_statuses update_node_status
    take_statuses_keep j Q [] s others h = h
    take_statuses_keep j Q ((id, status) ∷ rest) s others h =
        take_statuses_keep j Q rest _ others.1 (
          if_both (λ (w : WorkflowState N V). DataOf j Q w.nodes) (is_some (get id known))
            (update_node_status id (coerce_status status) s) s
            (DataOf-other id j _ Q s.nodes others.0 h) h)

    -- a known id of the snapshot gets its status
    take_statuses_taken :
        (statuses : Dict String) (id status : String) (s : WorkflowState N V)
        → Distinct (map (λ e. e.0) statuses)
        → Memᴰ (id, status) statuses
        → is_some (get id known) ≡ true
        → DataOf id (λ d. d.status ≡ coerce_status status) (take_statuses known statuses s).nodes
    unfolding take_statuses update_node_status
    take_statuses_taken [] id status s d m k = elim m [ ]
    take_statuses_taken ((j, other) ∷ rest) id status s d (Memᴰ.head e) k =
        let named : j ≡ id = ap (λ (p : String × String). p.0) (sym e) in
        let told : other ≡ status = ap (λ (p : String × String). p.1) (sym e) in
        rw (named, told)
          (take_statuses_keep id (λ d. d.status ≡ coerce_status status) rest _
            (All-map_imp _ _ rest (λ p h same. h (named ∙ sym same))
              (All-map (λ (p : String × String). p.0) (λ i. j ≢ i) rest d.0))
            (subst
              (λ (w : WorkflowState N V). DataOf id (λ d. d.status ≡ coerce_status status) w.nodes)
              (sym (
                if_true (is_some (get id known)) (update_node_status id (coerce_status status) s) s
                  k))
              (DataOf-update_body id _ (λ d. d.status ≡ coerce_status status) (λ d. refl) s.nodes)))
    take_statuses_taken ((j, other) ∷ rest) id status s d (Memᴰ.tail m) k =
        take_statuses_taken rest id status _ d.1 m k

    -- the nodes of a choice of ids that are in no entry of the snapshot
    take_statuses_others :
        (q : String → Bool) (statuses : Dict String) (s : WorkflowState N V)
        → All (λ e. q e.0 ≡ false) statuses
        → nodes_where q (take_statuses known statuses s) ≡ nodes_where q s
    unfolding take_statuses update_node_status
    take_statuses_others q [] s away = refl
    take_statuses_others q ((id, status) ∷ rest) s away =
        take_statuses_others q rest _ away.1
        ∙ if_both (λ (w : WorkflowState N V). nodes_where q w ≡ nodes_where q s)
            (is_some (get id known)) (update_node_status id (coerce_status status) s) s
            (filter-update_body id _ q s.nodes away.0) refl

  -- the nodes under the id of an entry, where the index knows one
  abbrev pub IsTaken : Dict (Node N V) → WorkflowState N V → String × String → Type 0
  IsTaken known t e =
      if is_some (get e.0 known)
      then DataOf e.0 (λ d. d.status ≡ coerce_status e.1) t.nodes
      else Unit

  take_statuses-IsTaken :
      (known : Dict (Node N V)) (statuses : Dict String) (s : WorkflowState N V)
      (e : String × String)
      → Distinct (map (λ e. e.0) statuses)
      → Memᴰ e statuses
      → IsTaken known (take_statuses known statuses s) e
  take_statuses-IsTaken known statuses s (id, status) d m =
      elim (Bool-cases (is_some (get id known))) [
        | inl here ↦ rw (IsTaken, here) (take_statuses_taken known statuses id status s d m here)
        | inr absent ↦ rw (IsTaken, absent) tt
      ]

  -- After a reconnection the answer of the backend, whose statuses are none or an object with one
  -- entry to an id, sets the active run and the paused node to its own. Every node under an id that it
  -- names and the index knows then has the status that it gives; the nodes under ids that it does not
  -- name, which are all of them where it has no statuses, are as they were.
  pub reconcile_from_snapshot_lem :
      (snap : WorkflowStateSnapshot) (r : Runner N V)
      → Distinct (map (λ e. e.0) (entries_of snap.statuses))
      → let r' = reconcile_from_snapshot (some snap) r in
        let q = λ (id : String). not (any (λ e. e.0 == id) (entries_of snap.statuses)) in
        (r'.current_run_id ≡ truthy snap.run_id)
        × (r'.debug.paused_at_node_id ≡ truthy snap.paused_at)
        × All (IsTaken r.workflow.nodes_by_id r'.workflow) (entries_of snap.statuses)
        × (nodes_where q r'.workflow ≡ nodes_where q r.workflow)
  unfolding reconcile_from_snapshot set_paused_at
  reconcile_from_snapshot_lem snap r d = elim (Option-cases snap.statuses) [
    | inl bare ↦ rw bare (refl, refl, tt, refl)
    | inr (statuses, told) ↦
        let known = r.workflow.nodes_by_id in
        let one : Distinct (map (λ e. e.0) statuses) =
          subst (λ o. Distinct (map (λ e. e.0) (entries_of o))) told d in
        rw told (
          refl,
          refl,
          All-tabulate _ statuses (λ e m. take_statuses-IsTaken known statuses r.workflow e one m),
          take_statuses_others known (λ (id : String). not (any (λ e. e.0 == id) statuses)) statuses
              r.workflow (All-tabulate _ statuses (named_away statuses)),
        )
  ]
