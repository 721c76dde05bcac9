-- ===== src/Runner/Nodes.antt =====
-- What a run paints on the canvas: which nodes an event changes, and which it leaves alone.
use workflowui.Base.{
  not, ◌⊎◌, none, Option, Bool, any, any_of_mem, eq_refl, filter, All-tabulate, if◌then◌else◌, ℕ,
  ◌≡◌, ◌≢◌, refl, sym, ap, ◌∙◌, inl, inr, String, true, false, some, List, [], ◌∷◌, map, Memᴰ, All,
  ◌==◌, eq_iff, eq_false_of_ne, is_some, if_both, subst, Bool-cases, Option-cases, arith,
}
use workflowui.Store.{
  error, NodeData, Dict, DataPatch, Node, WorkflowState, get, update_body, update_node_status,
  update_node_data,
}
use workflowui.Toast.{ToastLevel, add_toast}
use workflowui.Runner.Graph.{workflow-toast_update}
use workflowui.Runner.{
  on_notification, node_status, is_fresh_event, Runner, NodeStatusUpdate, ValidationError, truthy,
  report, report_all, handle_validation_failed, summary, coerce_status, data_update, update_node,
  is_patched, no_patch,
}

fresh_lem :
    (current run_id : Option String)
    → (truthy run_id ≡ none) ⊎ (current ≡ none) ⊎ (truthy run_id ≡ current)
    → is_fresh_event current run_id ≡ true
unfolding is_fresh_event
fresh_lem current run_id fresh = elim (Option-cases (truthy run_id)) [
  | inl untagged ↦ rw (is_fresh_event, untagged) refl
  | inr (id, tagged) ↦ elim fresh [
    | inl none_named ↦ cc
    | inr (inl idle) ↦ rw (is_fresh_event, tagged, idle) refl
    | inr (inr same) ↦ rw (is_fresh_event, tagged, sym same ∙ tagged) (eq_refl id)
  ]
]

abbrev is_at : String → Option String → Bool
is_at id none = false
is_at id (some j) = j == id

-- an error names the id of a node
abbrev pub names : String → ValidationError → Bool
names id e = is_at id (truthy e.node_id)

named_away :
    (es : List ValidationError) (e : ValidationError)
    → Memᴰ e es
    → (id : String) → truthy e.node_id ≡ some id
    → not (any (names id) es) ≡ false
named_away es e m id named = rw (any_of_mem (names id) e es m (rw named (eq_refl id))) refl

module _ {N V : Type 0} where
  -- the data of each node under an id
  abbrev pub DataOf {κ} : String → (NodeData N V → Type κ) → List (Node N V) → Type κ
  DataOf id Q ns = All (λ n. n.id ≡ id → Q n.body) ns

  module _ (id : String) (f : NodeData N V → NodeData N V) where
    pub DataOf-update_body {κ} :
        (Q : NodeData N V → Type κ)
        → ((d : NodeData N V) → Q (f d))
        → (ns : List (Node N V)) → DataOf id Q (map (update_body id f) ns)
    DataOf-update_body Q q [] = tt
    DataOf-update_body Q q (n ∷ ns) = elim (Bool-cases (n.id == id)) [
      | inl here ↦ rw here ((λ e. q n.body), DataOf-update_body Q q ns)
      | inr other ↦
          rw other ((λ e. absurd (ground (arith, eq_iff n.id id))), DataOf-update_body Q q ns)
    ]

    -- an update that keeps a property of the data keeps it under every id
    pub DataOf-keep {κ} :
        (Q : NodeData N V → Type κ) (j : String)
        → ((d : NodeData N V) → Q d → Q (f d))
        → (ns : List (Node N V)) → DataOf j Q ns
        → DataOf j Q (map (update_body id f) ns)
    DataOf-keep Q j q [] h = tt
    DataOf-keep Q j q (n ∷ ns) h = elim (Bool-cases (n.id == id)) [
      | inl here ↦ rw here ((λ e. q n.body (h.0 e)), DataOf-keep Q j q ns h.1)
      | inr other ↦ rw other (h.0, DataOf-keep Q j q ns h.1)
    ]

    pub mem-update_body :
        (n : Node N V) (ns : List (Node N V))
        → Memᴰ n ns
        → n.id ≢ id
        → Memᴰ n (map (update_body id f) ns)
    mem-update_body n [] m e = elim m [ ]
    mem-update_body n (k ∷ ns) (Memᴰ.head same) e =
        let other : (k.id == id) ≡ false = rw (← same) (eq_false_of_ne n.id id e) in
        rw other (Memᴰ.head same)
    mem-update_body n (k ∷ ns) (Memᴰ.tail m) e = Memᴰ.tail (mem-update_body n ns m e)

    -- the nodes of the other ids, in their order
    pub filter-update_body :
        (q : String → Bool) (ns : List (Node N V))
        → q id ≡ false
        → filter (λ n. q n.id) (map (update_body id f) ns) ≡ filter (λ n. q n.id) ns
    filter-update_body q [] away = refl
    filter-update_body q (n ∷ ns) away = elim (Bool-cases (n.id == id)) [
      | inl here ↦
          let dropped : q n.id ≡ false = ap q ((eq_iff n.id id).0 here) ∙ away in
          rw (here, dropped, filter-update_body q ns away) refl
      | inr other ↦ rw (other, filter-update_body q ns away) refl
    ]

    pub ids-update_body :
        (ns : List (Node N V)) → map Node.id (map (update_body id f) ns) ≡ map Node.id ns
    ids-update_body [] = refl
    ids-update_body (n ∷ ns) = elim (Bool-cases (n.id == id)) [
      | inl here ↦ rw (here, ids-update_body ns) refl
      | inr other ↦ rw (other, ids-update_body ns) refl
    ]

  -- the nodes with an id that has a property
  abbrev pub nodes_where : (String → Bool) → WorkflowState N V → List (Node N V)
  nodes_where q s = filter (λ n. q n.id) s.nodes

  -- the nodes under the id that an error names, where the index knows one
  abbrev pub IsPainted : Dict (Node N V) → WorkflowState N V → ValidationError → Type 0
  IsPainted known t e = elim (truthy e.node_id) [
    | none ↦ Unit
    | some id ↦ if is_some (get id known) then DataOf id (λ d. d.status ≡ error) t.nodes else Unit
  ]

  abbrev painted : (String → V) → ValidationError → DataPatch N V
  painted of_text e = record no_patch { error = some (some (of_text e.message)) }

  module _ (of_text : String → V) (now : ℕ) where
    -- the state of the workflow after an update of an ordinary node has a property if it holds with
    -- the new status, and still after the patch of the data
    update_node_cases {κ} :
        (P : WorkflowState N V → Type κ) (u : NodeStatusUpdate N V) (r : Runner N V)
        → let moved = update_node_status u.node_id (coerce_status u.status) r.workflow in
          P moved
          → P (update_node_data u.node_id (data_update of_text u) moved)
          → P (update_node of_text now u r).workflow
    unfolding update_node
    update_node_cases P u r p q =
        subst P (sym (workflow-toast_update u _))
          (if_both P (is_patched (data_update of_text u)) _ _ q p)

    -- what an update of an ordinary node does to the nodes
    pub record IsMoved (u : NodeStatusUpdate N V) (s t : WorkflowState N V) : Type 0 where
      pub status : DataOf u.node_id (λ d. d.status ≡ coerce_status u.status) t.nodes
      pub others :
          nodes_where (λ id. not (id == u.node_id)) t ≡ nodes_where (λ id. not (id == u.node_id)) s
      pub ids : map Node.id t.nodes ≡ map Node.id s.nodes

    update_node-IsMoved :
        (u : NodeStatusUpdate N V) (r : Runner N V)
        → IsMoved u r.workflow (update_node of_text now u r).workflow
    unfolding update_node_status update_node_data data_update
    update_node-IsMoved u r =
        let q = λ (id : String). not (id == u.node_id) in
        let away : q u.node_id ≡ false = rw (eq_refl u.node_id) refl in
        let Q = λ (d : NodeData N V). d.status ≡ coerce_status u.status in
        let status_set = DataOf-update_body u.node_id _ Q (λ d. refl) r.workflow.nodes in
        let rest = filter-update_body u.node_id _ q r.workflow.nodes away in
        let same = ids-update_body u.node_id _ r.workflow.nodes in
        record {
          status =
              update_node_cases (λ s. DataOf u.node_id Q s.nodes) u r status_set
                (DataOf-keep u.node_id _ Q u.node_id (λ d q. q) _ status_set);
          others =
              update_node_cases (λ s. nodes_where q s ≡ nodes_where q r.workflow) u r rest
                (filter-update_body u.node_id _ q _ away ∙ rest);
          ids =
              update_node_cases (λ s. map Node.id s.nodes ≡ map Node.id r.workflow.nodes) u r same
                (ids-update_body u.node_id _ _ ∙ same);
        }

    -- A 'node.status' event that is tagged with no run, or with the active one, or comes when no run
    -- is active, and is not of the node '__workflow__': every node under its id then has the status of
    -- the event, or 'idle' where that is no status; the nodes under other ids are as they were, and
    -- the graph has the same ids in the same order.
    pub on_notification_fresh :
        (decimal : ℕ → String) (u : NodeStatusUpdate N V) (r : Runner N V)
        → (truthy u.run_id ≡ none)
          ⊎ (r.current_run_id ≡ none)
          ⊎ (truthy u.run_id ≡ r.current_run_id)
        → u.node_id ≢ "__workflow__"
        → let t = (on_notification of_text decimal now (node_status u) r).workflow in
          DataOf u.node_id (λ d. d.status ≡ coerce_status u.status) t.nodes
          × (nodes_where (λ id. not (id == u.node_id)) t
              ≡ nodes_where (λ id. not (id == u.node_id)) r.workflow)
          × (map Node.id t.nodes ≡ map Node.id r.workflow.nodes)
    unfolding on_notification
    on_notification_fresh decimal u r fresh ordinary =
        let lets : is_fresh_event r.current_run_id u.run_id ≡ true =
          fresh_lem r.current_run_id u.run_id fresh in
        let other = eq_false_of_ne u.node_id "__workflow__" ordinary in
        let moved = update_node-IsMoved u r in
        rw (lets, other) (moved.status, moved.others, moved.ids)

    -- one error of a failed validation leaves the nodes, or paints those under an id that is known
    report_cases {κ} :
        (P : WorkflowState N V → Type κ) (known : Dict (Node N V)) (e : ValidationError)
        (r : Runner N V)
        → P r.workflow
        → ((id : String)
            → truthy e.node_id ≡ some id
            → P (update_node_data id (painted of_text e) (update_node_status id error r.workflow)))
        → P (report of_text now known e r).workflow
    unfolding report
    report_cases P known e r p q = elim (Option-cases (truthy e.node_id)) [
      | inl nowhere ↦ rw nowhere p
      | inr (id, named) ↦ elim (Bool-cases (is_some (get id known))) [
        | inl here ↦ rw (named, here) (q id named)
        | inr absent ↦ rw (named, absent) p
      ]
    ]

    -- an error that names a known id paints the nodes under it
    report_painted :
        (known : Dict (Node N V)) (e : ValidationError) (id : String) (r : Runner N V)
        → truthy e.node_id ≡ some id
        → is_some (get id known) ≡ true
        → DataOf id (λ d. d.status ≡ error) (report of_text now known e r).workflow.nodes
    unfolding report update_node_status update_node_data
    report_painted known e id r named here =
        rw (named, here)
          (DataOf-keep id _ (λ d. d.status ≡ error) id (λ d s. s) _
            (DataOf-update_body id _ (λ d. d.status ≡ error) (λ d. refl) r.workflow.nodes))

    -- paint stays on
    report_all_keep :
        (known : Dict (Node N V)) (es : List ValidationError) (id : String) (r : Runner N V)
        → DataOf id (λ d. d.status ≡ error) r.workflow.nodes
        → DataOf id (λ d. d.status ≡ error) (report_all of_text now known es r).workflow.nodes
    unfolding report_all update_node_status update_node_data
    report_all_keep known [] id r h = h
    report_all_keep known (e ∷ es) id r h =
        report_all_keep known es id (report of_text now known e r) (
          report_cases (λ s. DataOf id (λ d. d.status ≡ error) s.nodes) known e r h
            (λ j named.
              DataOf-keep j _ (λ d. d.status ≡ error) id (λ d s. s) _
                (DataOf-keep j _ (λ d. d.status ≡ error) id (λ d s. refl) r.workflow.nodes h)))

    report_all_marked :
        (known : Dict (Node N V)) (es : List ValidationError) (e : ValidationError) (id : String)
        (r : Runner N V)
        → Memᴰ e es
        → truthy e.node_id ≡ some id
        → is_some (get id known) ≡ true
        → DataOf id (λ d. d.status ≡ error) (report_all of_text now known es r).workflow.nodes
    unfolding report_all
    report_all_marked known [] e id r m named here = elim m [ ]
    report_all_marked known (f ∷ es) e id r (Memᴰ.head same) named here =
        report_all_keep known es id _ (
          report_painted known f id r
            (ap (λ (v : ValidationError). truthy v.node_id) (sym same) ∙ named) here)
    report_all_marked known (f ∷ es) e id r (Memᴰ.tail m) named here =
        report_all_marked known es e id (report of_text now known f r) m named here

    -- nodes that no error names, of any choice of ids
    report_all_others :
        (known : Dict (Node N V)) (q : String → Bool) (es : List ValidationError) (r : Runner N V)
        → All (λ e. (id : String) → truthy e.node_id ≡ some id → q id ≡ false) es
        → nodes_where q (report_all of_text now known es r).workflow ≡ nodes_where q r.workflow
    unfolding report_all update_node_status update_node_data
    report_all_others known q [] r unnamed = refl
    report_all_others known q (e ∷ es) r unnamed =
        report_all_others known q es (report of_text now known e r) unnamed.1
        ∙ report_cases (λ s. nodes_where q s ≡ nodes_where q r.workflow) known e r refl
            (λ j named.
              let away = unnamed.0 j named in
              filter-update_body j _ q _ away ∙ filter-update_body j _ q r.workflow.nodes away)

    report_all-IsPainted :
        (known : Dict (Node N V)) (es : List ValidationError) (r : Runner N V) (e : ValidationError)
        → Memᴰ e es
        → IsPainted known (report_all of_text now known es r).workflow e
    report_all-IsPainted known es r e m = elim (Option-cases (truthy e.node_id)) [
      | inl nowhere ↦ rw (IsPainted, nowhere) tt
      | inr (id, named) ↦ elim (Bool-cases (is_some (get id known))) [
        | inl here ↦ rw (IsPainted, named, here) (report_all_marked known es e id r m named here)
        | inr absent ↦ rw (IsPainted, named, absent) tt
      ]
    ]

    toasts-report :
        (known : Dict (Node N V)) (e : ValidationError) (r : Runner N V)
        → (report of_text now known e r).toasts ≡ r.toasts
    unfolding report
    toasts-report known e r = elim (Option-cases (truthy e.node_id)) [
      | inl nowhere ↦ rw nowhere
      | inr (id, named) ↦ elim (Bool-cases (is_some (get id known))) [
        | inl here ↦ rw (named, here)
        | inr absent ↦ rw (named, absent)
      ]
    ]

    toasts-report_all :
        (known : Dict (Node N V)) (es : List ValidationError) (r : Runner N V)
        → (report_all of_text now known es r).toasts ≡ r.toasts
    unfolding report_all
    toasts-report_all known [] r = refl
    toasts-report_all known (e ∷ es) r =
        toasts-report_all known es (report of_text now known e r) ∙ toasts-report known e r

    -- A failed validation, whatever its errors, be there none, adds one toast to those on screen. For
    -- each error that names an id which the index knows, the nodes under it have status 'error'
    -- afterwards; the nodes that no error names are as they were.
    pub handle_validation_failed_lem :
        (decimal : ℕ → String) (es : List ValidationError) (r : Runner N V)
        → let t = handle_validation_failed of_text decimal now es r in
          (t.toasts ≡ add_toast (summary decimal es) ToastLevel.error r.toasts)
          × All (IsPainted r.workflow.nodes_by_id t.workflow) es
          × (nodes_where (λ id. not (any (names id) es)) t.workflow
              ≡ nodes_where (λ id. not (any (names id) es)) r.workflow)
    unfolding handle_validation_failed
    handle_validation_failed_lem decimal es r =
        let known = r.workflow.nodes_by_id in
        (
          ap (add_toast (summary decimal es) ToastLevel.error) (toasts-report_all known es r),
          All-tabulate _ es (report_all-IsPainted known es r),
          report_all_others known (λ id. not (any (names id) es)) es r
              (All-tabulate _ es (named_away es)),
        )
