-- ===== src/Ws/Tracked.antt =====
-- Each armed reconnection is the one that the client can cancel.
use workflowui.Base.{
  ℕ, ◌≡◌, refl, sym, ◌∙◌, inl, inr, true, false, ◌||◌, Option, some, none, List, [], ◌∷◌, eqb, ltb,
  find?, is_some, All, All-append, All-mem, String, Bool, Option-cases, find?-mem, All-map_imp,
  if_both, if_true, subst, ◌==◌,
}
use workflowui.Ws.{
  connect_threw, PendingCall, Purpose, reply, retry, Client, Event, MessageId, absent, other,
  number, RpcResponse, Parsed, invalid, null, response, Output, rejected, init, run, step,
  reject_all, clear_timeout, disarm, update, closed_error, complete, schedule_reconnect, connect,
  settle_connect, on_open, on_error, on_close, on_response, dispatch, handle_message, issue, call,
  notify, is_ready, run_purpose, run_timer, on_timer, disconnect, subscribe, unsubscribe, emit,
  emit_state, notify_connection, connects, opened, failed, closed, receives, calls, notifies,
  expires, disconnects, subscribes, unsubscribes, Topic, notifications, connections, reconnects,
  states,
}
use workflowui.Ws.Accounts.{All-clear_timeout}

abbrev pub TrackedBy : Option ℕ → ℕ → Purpose → Type 0
TrackedBy timer handle (reply id ms method) = Unit
TrackedBy timer handle (retry delay) = timer ≡ some handle

TrackedBy-change :
    (old new : Option ℕ) (handle : ℕ) (purpose : Purpose)
    → (old ≡ some handle → new ≡ some handle)
    → TrackedBy old handle purpose
    → TrackedBy new handle purpose
TrackedBy-change old new handle (reply id ms method) f h = tt
TrackedBy-change old new handle (retry delay) f h = f h

module _ {ℓ} {V : Type ℓ} where
  pub record IsTracked (c : Client V) : Type ℓ where
    pub tracked : All (λ t. TrackedBy c.reconnect_timer t.handle t.purpose) c.timers

  schedule_reconnect-IsTracked :
      (random : ℕ) (c : Client V) → IsTracked c → IsTracked (schedule_reconnect random c)
  unfolding schedule_reconnect emit_state
  schedule_reconnect-IsTracked random c v = elim (Option-cases c.reconnect_timer) [
    | inr (h, e) ↦
        let test : (is_some c.reconnect_timer || c.stopped) ≡ true = rw e in
        subst IsTracked (sym (if_true _ c _ test)) v
    | inl idle ↦ if_both IsTracked (is_some c.reconnect_timer || c.stopped) c _ v (record {
      tracked =
          All-append _ c.timers
            (All-map_imp _ _ c.timers
              (λ t x.
                TrackedBy-change c.reconnect_timer (some c.next_handle) t.handle t.purpose (λ e. cc)
                  x)
              v.tracked)
            refl;
    })
  ]

  settle_connect-IsTracked :
      (socket : ℕ) (o : Output V) (c : Client V)
      → IsTracked c
      → IsTracked (settle_connect socket o c)
  unfolding settle_connect
  settle_connect-IsTracked socket o c v =
      if_both IsTracked (c.is_settled socket) c _ v (record { tracked = v.tracked })

  on_open-IsTracked : (socket : ℕ) (c : Client V) → IsTracked c → IsTracked (on_open socket c)
  unfolding on_open notify_connection emit_state
  on_open-IsTracked socket c v = settle_connect-IsTracked socket _ _ (
      if_both IsTracked c.had_first_open _ _ (record { tracked = v.tracked })
        (record { tracked = v.tracked }))

  reject_all-IsTracked :
      (ps : List PendingCall) (c : Client V) → IsTracked c → IsTracked (reject_all ps c)
  unfolding reject_all
  reject_all-IsTracked [] c v = v
  reject_all-IsTracked (p ∷ ps) c v =
      reject_all-IsTracked ps
        (record c {
          timers = clear_timeout p.timer c.timers;
          settlements = (p.id, rejected closed_error) ∷ c.settlements;
        })
        (record {
          tracked = All-map_imp _ _ _ (λ t x. x.0) (All-clear_timeout _ p.timer c.timers v.tracked);
        })

  on_close-IsTracked :
      (socket random : ℕ) (c : Client V) → IsTracked c → IsTracked (on_close socket random c)
  unfolding on_close notify_connection emit_state
  on_close-IsTracked socket random c v =
      let shut = record c { is_open = update c.is_open socket false; connected = false } in
      let told : Client V =
        notify_connection false (record (reject_all c.pending shut) { pending = [] }) in
      let w : IsTracked told = record {
        tracked = (reject_all-IsTracked c.pending shut (record { tracked = v.tracked })).tracked;
      } in
      if_both IsTracked c.stopped told (schedule_reconnect random told) w
        (schedule_reconnect-IsTracked random told w)

  on_response-IsTracked :
      (id : MessageId) (msg : RpcResponse V) (c : Client V)
      → IsTracked c
      → IsTracked (on_response id msg c)
  unfolding on_response complete
  on_response-IsTracked absent msg c v = v
  on_response-IsTracked other msg c v = v
  on_response-IsTracked (number id) msg c v =
      elim (Option-cases (find? (λ p. eqb p.id id) c.pending)) [
        | inl missing ↦ rw missing v
        | inr (p, found) ↦ rw found (record {
          tracked = All-map_imp _ _ _ (λ t x. x.0) (All-clear_timeout _ p.timer c.timers v.tracked);
        })
      ]

  dispatch-IsTracked :
      (method : Option String) (id : MessageId) (msg : RpcResponse V) (c : Client V)
      → IsTracked c
      → IsTracked (dispatch method id msg c)
  unfolding dispatch
  dispatch-IsTracked none id msg c v = on_response-IsTracked id msg c v
  dispatch-IsTracked (some method) absent msg c v =
      if_both IsTracked (method == "") c _ v (record { tracked = v.tracked })
  dispatch-IsTracked (some method) other msg c v = on_response-IsTracked other msg c v
  dispatch-IsTracked (some method) (number id) msg c v = on_response-IsTracked (number id) msg c v

  handle_message-IsTracked :
      (msg : Parsed V) (c : Client V) → IsTracked c → IsTracked (handle_message msg c)
  unfolding handle_message
  handle_message-IsTracked invalid c v = v
  handle_message-IsTracked null c v = record { tracked = v.tracked }
  handle_message-IsTracked (response msg) c v = dispatch-IsTracked msg.method msg.id msg c v

  call-IsTracked :
      (method : String) (params : Option V) (timeout_ms : ℕ) (c : Client V)
      → IsTracked c
      → IsTracked (call method params timeout_ms c)
  unfolding call issue
  call-IsTracked method params timeout_ms c v =
      if_both IsTracked (is_ready c) _ _
        (if_both IsTracked (ltb 0 timeout_ms) _ _
          (record { tracked = All-append _ c.timers v.tracked tt })
          (record { tracked = v.tracked }))
        (record { tracked = v.tracked })

  notify-IsTracked :
      (method : String) (params : Option V) (c : Client V)
      → IsTracked c
      → IsTracked (notify method params c)
  unfolding notify
  notify-IsTracked method params c v =
      if_both IsTracked (is_ready c) _ c (record { tracked = v.tracked }) v

  connect-IsTracked :
      (fails : Bool) (random : ℕ) (c : Client V) → IsTracked c → IsTracked (connect fails random c)
  unfolding connect
  connect-IsTracked true random c v =
      schedule_reconnect-IsTracked random (emit (connect_threw ∷ []) (record c { stopped = false }))
        (record { tracked = v.tracked })
  connect-IsTracked false random c v = record { tracked = v.tracked }

  run_purpose-IsTracked :
      (handle : ℕ) (purpose : Purpose) (fails : Bool) (random : ℕ) (c : Client V)
      → IsTracked c
      → TrackedBy c.reconnect_timer handle purpose
      → IsTracked (run_purpose purpose fails random (record c { timers = disarm handle c.timers }))
  unfolding run_purpose
  run_purpose-IsTracked handle (reply id ms method) fails random c v h = record {
    tracked = All-map_imp _ _ _ (λ t x. x.0) (All-clear_timeout _ (some handle) c.timers v.tracked);
  }
  run_purpose-IsTracked handle (retry delay) fails random c v h =
      connect-IsTracked fails random
        (record c { timers = disarm handle c.timers; reconnect_timer = none })
        (record {
          tracked =
              All-map_imp _ _ _
                (λ t x.
                  TrackedBy-change c.reconnect_timer none t.handle t.purpose
                    (λ e. absurd (x.1 (sym h ∙ e))) x.0)
                (All-clear_timeout _ (some handle) c.timers v.tracked);
        })

  on_timer-IsTracked :
      (handle : ℕ) (fails : Bool) (random : ℕ) (c : Client V)
      → IsTracked c
      → IsTracked (on_timer handle fails random c)
  unfolding on_timer run_timer
  on_timer-IsTracked handle fails random c v =
      elim (Option-cases (find? (λ t. eqb t.handle handle) c.timers)) [
        | inl missing ↦ rw missing v
        | inr (t, found) ↦ rw found (
            run_purpose-IsTracked t.handle t.purpose fails random c v
              (All-mem _ c.timers v.tracked (find?-mem _ c.timers t found).0))
      ]

  -- after the reconnection has been cancelled no timer is left for one
  pub no_retry-clear_timeout :
      (c : Client V)
      → IsTracked c
      → All (λ t. TrackedBy none t.handle t.purpose) (clear_timeout c.reconnect_timer c.timers)
  no_retry-clear_timeout c v =
      All-map_imp _ _ _
        (λ t x.
          TrackedBy-change c.reconnect_timer none t.handle t.purpose (λ e. absurd (x.1 e)) x.0)
        (All-clear_timeout _ c.reconnect_timer c.timers v.tracked)

  disconnect-IsTracked : (c : Client V) → IsTracked c → IsTracked (disconnect c)
  unfolding disconnect emit_state
  disconnect-IsTracked c v = record { tracked = no_retry-clear_timeout c v }

  subscribe-IsTracked :
      (topic : Topic) (h : ℕ) (c : Client V) → IsTracked c → IsTracked (subscribe topic h c)
  unfolding subscribe
  subscribe-IsTracked notifications h c v = record { tracked = v.tracked }
  subscribe-IsTracked connections h c v = record { tracked = v.tracked }
  subscribe-IsTracked reconnects h c v = record { tracked = v.tracked }
  subscribe-IsTracked states h c v = record { tracked = v.tracked }

  unsubscribe-IsTracked :
      (topic : Topic) (h : ℕ) (c : Client V) → IsTracked c → IsTracked (unsubscribe topic h c)
  unfolding unsubscribe
  unsubscribe-IsTracked notifications h c v = record { tracked = v.tracked }
  unsubscribe-IsTracked connections h c v = record { tracked = v.tracked }
  unsubscribe-IsTracked reconnects h c v = record { tracked = v.tracked }
  unsubscribe-IsTracked states h c v = record { tracked = v.tracked }

  step-IsTracked : (e : Event V) (c : Client V) → IsTracked c → IsTracked (step e c)
  unfolding step on_error
  step-IsTracked (connects fails random) c v = connect-IsTracked fails random c v
  step-IsTracked (opened socket) c v = on_open-IsTracked socket c v
  step-IsTracked (failed socket) c v = settle_connect-IsTracked socket _ c v
  step-IsTracked (closed socket random) c v = on_close-IsTracked socket random c v
  step-IsTracked (receives msg) c v = handle_message-IsTracked msg c v
  step-IsTracked (calls method params timeout_ms) c v = call-IsTracked method params timeout_ms c v
  step-IsTracked (notifies method params) c v = notify-IsTracked method params c v
  step-IsTracked (expires handle fails random) c v = on_timer-IsTracked handle fails random c v
  step-IsTracked disconnects c v = disconnect-IsTracked c v
  step-IsTracked (subscribes topic h) c v = subscribe-IsTracked topic h c v
  step-IsTracked (unsubscribes topic h) c v = unsubscribe-IsTracked topic h c v

  run_from-IsTracked : (es : List (Event V)) (c : Client V) → IsTracked c → IsTracked (run es c)
  unfolding run
  run_from-IsTracked [] c v = v
  run_from-IsTracked (e ∷ es) c v = run_from-IsTracked es (step e c) (step-IsTracked e c v)

  pub run-IsTracked : (es : List (Event V)) → IsTracked (run es init)
  run-IsTracked es = run_from-IsTracked es init (record { tracked = tt })
