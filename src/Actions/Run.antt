-- ===== src/Actions/Run.antt =====
-- When `run` sends a request, and what the request holds.
use workflowui.Base.{
  Bool, ◌||◌, if◌then◌else◌, ◌≡◌, ◌⊎◌, inl, inr, refl, sym, subst, String, true, false, some, List,
  [], ◌∷◌, map, mem_map, Memᴰ, arith, eqb, length, if_cases, List-cases, ap, not,
}
use workflowui.Store.{Node, Edge, WorkflowState, set_running}
use workflowui.Debug.{clear_logs}
use workflowui.Toast.{ToastLevel}
use workflowui.Ws.{call, is_connected, default_call_timeout_ms}
use workflowui.Actions.{
  Session, RunRequest, Wire, active_nodes, run_request, launch, show_toast, run, on_flow, on_debug,
}
use workflowui.Actions.Request.{IsSound, entry, active_nodes_complete, run_request-IsSound}

module _ {N V : Type 0} where
  -- what is left of a refused run
  pub record IsRefused (s t : Session N V) : Type 0 where
    pub silent : t.client ≡ s.client
    pub running : t.runner.workflow.is_running ≡ s.runner.workflow.is_running
    pub nodes : t.runner.workflow.nodes ≡ s.runner.workflow.nodes
    pub edges : t.runner.workflow.edges ≡ s.runner.workflow.edges

  pub record IsLaunched (wire : Wire V) (s t : Session N V) : Type 0 where
    pub request : RunRequest V
    pub sent :
        t.client
        ≡ call "workflow.execute" (some (wire.of_request request)) default_call_timeout_ms s.client
    pub running : t.runner.workflow ≡ set_running true s.runner.workflow
    pub logs : t.runner.debug.logs ≡ []
    pub sound : IsSound s request
    pub taken : request.nodes ≡ map entry (active_nodes s.runner.workflow)

  -- the stores as `run` leaves them before it chooses the nodes
  abbrev ready : Session N V → Session N V
  ready s = on_debug clear_logs (on_flow (set_running true) s)

  refused_lem :
      (wire : Wire V) (s : Session N V)
      → s.runner.workflow.is_running ≡ false
      → IsRefused s (launch wire [] (ready s))
  unfolding launch set_running clear_logs show_toast
  refused_lem wire s idle = record { silent = refl; running = sym idle; nodes = refl; edges = refl }

  launched_lem :
      (wire : Wire V) (s : Session N V) (n : Node N V) (ns : List (Node N V))
      → active_nodes s.runner.workflow ≡ n ∷ ns
      → IsLaunched wire s (launch wire (n ∷ ns) (ready s))
  unfolding launch set_running clear_logs run_request
  launched_lem wire s n ns e = record {
    request = run_request (n ∷ ns) s.runner.workflow s.runner.debug;
    sent = refl;
    running = refl;
    logs = refl;
    sound =
        subst (λ a. IsSound s (run_request a s.runner.workflow s.runner.debug)) e
          (run_request-IsSound s);
    taken = ap (map entry) (sym e);
  }

  -- a run is going on, the backend is cut off, or no node takes part
  abbrev pub refuses : Session N V → Bool
  refuses s =
      s.runner.workflow.is_running
      || not (is_connected s.client)
      || eqb (length (active_nodes s.runner.workflow)) 0

  abbrev Answer : Wire V → Session N V → Session N V → Type 0
  Answer wire s t = if refuses s then IsRefused s t else IsLaunched wire s t

  refused : (wire : Wire V) (s t : Session N V) → refuses s ≡ true → IsRefused s t → Answer wire s t
  refused wire s t h p = rw h p

  launched :
      (wire : Wire V) (s t : Session N V)
      → refuses s ≡ false
      → IsLaunched wire s t
      → Answer wire s t
  launched wire s t h p = rw h p

  launch_lem :
      (wire : Wire V) (s : Session N V)
      → s.runner.workflow.is_running ≡ false
      → is_connected s.client ≡ true
      → Answer wire s (launch wire (active_nodes s.runner.workflow) (ready s))
  launch_lem wire s idle on = elim (List-cases (active_nodes s.runner.workflow)) [
    | inl e ↦
        refused wire s _ (rw (e, idle, on) refl)
          (subst (λ a. IsRefused s (launch wire a (ready s))) (sym e) (refused_lem wire s idle))
    | inr (n, ns, e) ↦ launched wire s _ (rw (e, idle, on) (ground arith)) (
        subst (λ a. IsLaunched wire s (launch wire a (ready s))) (sym e)
          (launched_lem wire s n ns e))
  ]

  show_toast-IsRefused :
      (message : String) (level : ToastLevel) (s : Session N V)
      → IsRefused s (show_toast message level s)
  unfolding show_toast
  show_toast-IsRefused message level s = record {
    silent = refl;
    running = refl;
    nodes = refl;
    edges = refl;
  }

  empty_inactive : (w : WorkflowState N V) → eqb (length w.nodes) 0 ≡ true → active_nodes w ≡ []
  unfolding active_nodes
  empty_inactive w h = elim (List-cases w.nodes) [
    | inl e ↦ rw e refl
    | inr (n, ns, e) ↦ absurd (ground (arith, ap length e))
  ]

  pub run_lem :
      (wire : Wire V) (s : Session N V)
      → let t = run wire s in
        if s.runner.workflow.is_running
          || not (is_connected s.client)
          || eqb (length (active_nodes s.runner.workflow)) 0
        then IsRefused s t
        else IsLaunched wire s t
  unfolding run
  run_lem wire s =
      let w = s.runner.workflow in
      if_cases (Answer wire s) w.is_running _ _
        (λ busy.
          refused wire s _ (rw busy refl)
            (record { silent = refl; running = refl; nodes = refl; edges = refl }))
        (λ idle.
          if_cases (Answer wire s) (not (is_connected s.client)) _ _
            (λ off.
              refused wire s _ (rw (idle, off) refl)
                (show_toast-IsRefused "Backend not connected" ToastLevel.error s))
            (λ on.
              if_cases (Answer wire s) (eqb (length w.nodes) 0) _ _
                (λ empty.
                  refused wire s _ (rw (empty_inactive w empty, idle, on) refl)
                    (show_toast-IsRefused "Add some nodes first" ToastLevel.warn s))
                (λ filled. launch_lem wire s idle (ground arith))))

  -- A run that is neither going on nor cut off from the backend includes every node at an end of an
  -- edge: the request that it sends has an entry with that node's id, type and configuration.
  pub run_includes :
      (wire : Wire V) (s : Session N V) (n : Node N V) (e : Edge V)
      → s.runner.workflow.is_running ≡ false
      → is_connected s.client ≡ true
      → Memᴰ n s.runner.workflow.nodes
      → Memᴰ e s.runner.workflow.edges
      → (e.source ≡ n.id) ⊎ (e.target ≡ n.id)
      → (q : RunRequest V) × ((run wire s).client
          ≡ call "workflow.execute" (some (wire.of_request q)) default_call_timeout_ms s.client)
        × Memᴰ (entry n) q.nodes
  run_includes wire s n e idle on m l ends =
      let active = active_nodes_complete s.runner.workflow n e m l ends in
      elim (List-cases (active_nodes s.runner.workflow)) [
        | inl nobody ↦ elim (rw nobody at active) [ ]
        | inr (k, ks, some_take_part) ↦
            let goes : refuses s ≡ false = rw (some_take_part, idle, on) (ground arith) in
            let launched : IsLaunched wire s (run wire s) = rw goes at (run_lem wire s) in
            (
              launched.request,
              launched.sent,
              subst (λ ns. Memᴰ (entry n) ns) (sym launched.taken)
                  (mem_map entry (active_nodes s.runner.workflow) active),
            )
      ]
