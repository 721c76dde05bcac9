-- ===== src/Runner/Stale.antt =====
-- Events of a run that is no longer the active one.
use workflowui.Base.{ℕ, ◌≡◌, ◌≢◌, String, false, Option, some, eq_false_of_ne}
use workflowui.Runner.{
  Runner, Notification, node_status, debug_paused, workflow_complete, other_method, truthy,
  is_fresh_event, on_notification,
}

-- an event is tagged with a run that is not the active one
abbrev pub IsStale : Option String → Option String → Type 0
IsStale current run_id =
    (id : String) × (active : String) × (truthy run_id ≡ some id)
    × (current ≡ some active)
    × (id ≢ active)

is_fresh_event_stale :
    (current run_id : Option String)
    → IsStale current run_id
    → is_fresh_event current run_id ≡ false
unfolding is_fresh_event
is_fresh_event_stale current run_id (id, active, tagged, running, other) =
    rw (tagged, running, is_fresh_event) (eq_false_of_ne id active other)

module _ {N V : Type 0} where
  -- a notification that is tagged with a run other than the active one
  abbrev pub IsStaleEvent : Option String → Notification N V → Type 0
  IsStaleEvent current (node_status u) = IsStale current u.run_id
  IsStaleEvent current (debug_paused ev) = IsStale current ev.run_id
  IsStaleEvent current workflow_complete = ⊥
  IsStaleEvent current (other_method method) = ⊥

  -- A 'node.status' or 'debug.paused' event that is tagged with another run than the active one
  -- changes nothing: no node, no log, no toast, no paused node.
  pub on_notification_stale :
      (of_text : String → V) (decimal : ℕ → String) (now : ℕ) (n : Notification N V)
      (r : Runner N V)
      → IsStaleEvent r.current_run_id n
      → on_notification of_text decimal now n r ≡ r
  unfolding on_notification
  on_notification_stale of_text decimal now (node_status u) r stale =
      rw (is_fresh_event_stale r.current_run_id u.run_id stale)
  on_notification_stale of_text decimal now (debug_paused ev) r stale =
      rw (is_fresh_event_stale r.current_run_id ev.run_id stale)
  on_notification_stale of_text decimal now workflow_complete r stale = absurd stale
  on_notification_stale of_text decimal now (other_method method) r stale = absurd stale
