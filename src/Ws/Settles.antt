-- ===== src/Ws/Settles.antt =====
-- Every call of a `WsClient` is settled once: by its response, its timeout or the closing of the
-- socket, in whatever order these come.
use workflowui.Base.{
  ℕ, ◌+◌, ◌≡◌, ◌≢◌, refl, ap, subst, inl, inr, true, false, ◌||◌, Option, some, none, List, [], ◌∷◌,
  arith, eqb, ltb, find?, is_some, All, String, ◌==◌, Bool, Option-cases, find?-mem, All-mem,
  All-map_imp, if◌then◌else◌,
}
use workflowui.Ws.{
  connect_threw, rejected, timed_out, disarm, update, PendingCall, Purpose, reply, retry, Timer,
  Client, Event, MessageId, absent, other, number, RpcResponse, Parsed, invalid, null, response,
  Output, init, run, step, reject_all, clear_timeout, closed_error, complete, outcome_of,
  schedule_reconnect, connect, settle_connect, on_open, on_error, on_close, on_response, dispatch,
  handle_message, issue, call, notify, is_ready, run_purpose, run_timer, on_timer, disconnect,
  close_socket, subscribe, unsubscribe, emit, emit_state, notify_connection, connects, opened,
  failed, closed, receives, calls, notifies, expires, disconnects, subscribes, unsubscribes, Topic,
  notifications, connections, reconnects, states,
}
use workflowui.Ws.Accounts.{
  waiting, settled, issued, ExpectedFor, ExpectedFor-mono, All-clear_timeout, IsAccounted,
  settle-IsAccounted, issue-IsAccounted, issue_timed-IsAccounted, retry-IsAccounted,
  clear-IsAccounted,
}

module _ {ℓ} {V : Type ℓ} where
  pub record IsSound (c : Client V) : Type ℓ where
    pub accounts : IsAccounted c.request_id c.pending c.timers c.settlements

  IsSound-if : (b : Bool) {c d : Client V} → IsSound c → IsSound d → IsSound (if b then c else d)
  IsSound-if true v w = v
  IsSound-if false v w = w

  -- the loop of `onclose` settles each call of its list and clears its timer
  settled-reject_all :
      (id : ℕ) (ps : List PendingCall) (c : Client V)
      → settled id (reject_all ps c).settlements ≡ waiting id ps + settled id c.settlements
  unfolding reject_all waiting settled
  settled-reject_all id [] c = omega arith
  settled-reject_all id (p ∷ ps) c = omega (
    arith,
    settled-reject_all id ps (record c {
      timers = clear_timeout p.timer c.timers;
      settlements = (p.id, rejected closed_error) ∷ c.settlements;
    }),
  )

  request_id-reject_all :
      (ps : List PendingCall) (c : Client V) → (reject_all ps c).request_id ≡ c.request_id
  unfolding reject_all
  request_id-reject_all [] c = refl
  request_id-reject_all (p ∷ ps) c = request_id-reject_all ps _

  timers-reject_all {κ} :
      (ps : List PendingCall) (P : Timer → Type κ) (c : Client V)
      → All P c.timers
      → All (λ t. P t × All (λ p. p.timer ≢ some t.handle) ps) (reject_all ps c).timers
  unfolding reject_all
  timers-reject_all [] P c h = All-map_imp _ _ _ (λ t x. (x, tt)) h
  timers-reject_all (p ∷ ps) P c h =
      All-map_imp _ _ _ (λ t x. (x.0.0, (x.0.1, x.1)))
        (timers-reject_all ps _ _ (All-clear_timeout P p.timer c.timers h))

  reject_all-IsSound :
      (c : Client V) → IsSound c → IsSound (record (reject_all c.pending c) { pending = [] })
  unfolding waiting
  reject_all-IsSound c v = record {
    accounts = record {
      once = λ id. omega (
        arith,
        v.accounts.once id,
        settled-reject_all id c.pending c,
        ap (issued id) (request_id-reject_all c.pending c),
      );
      expected =
          All-map_imp _ _ _
            (λ t x.
              ExpectedFor-mono c.pending [] t.handle t.purpose
                (λ p e m. absurd (All-mem (λ q. q.timer ≢ some t.handle) c.pending x.1 m e)) x.0)
            (timers-reject_all c.pending _ c v.accounts.expected);
    };
  }

  schedule_reconnect-IsSound :
      (random : ℕ) (c : Client V) → IsSound c → IsSound (schedule_reconnect random c)
  unfolding schedule_reconnect emit_state
  schedule_reconnect-IsSound random c v =
      IsSound-if (is_some c.reconnect_timer || c.stopped) v
        (record { accounts = retry-IsAccounted v.accounts _ _ })

  settle_connect-IsSound :
      (socket : ℕ) (o : Output V) {c : Client V} → IsSound c → IsSound (settle_connect socket o c)
  unfolding settle_connect
  settle_connect-IsSound socket o {c} v =
      IsSound-if (c.is_settled socket) v (record { accounts = v.accounts })

  on_open-IsSound : (socket : ℕ) {c : Client V} → IsSound c → IsSound (on_open socket c)
  unfolding on_open notify_connection emit_state
  on_open-IsSound socket {c} v = settle_connect-IsSound socket _ (
      IsSound-if c.had_first_open (record { accounts = v.accounts })
        (record { accounts = v.accounts }))

  on_error-IsSound : (socket : ℕ) {c : Client V} → IsSound c → IsSound (on_error socket c)
  unfolding on_error
  on_error-IsSound socket v = settle_connect-IsSound socket _ v

  on_close-IsSound :
      (socket random : ℕ) (c : Client V) → IsSound c → IsSound (on_close socket random c)
  unfolding on_close notify_connection emit_state
  on_close-IsSound socket random c v =
      let shut = record c { is_open = update c.is_open socket false; connected = false } in
      let told : Client V =
        notify_connection false (record (reject_all c.pending shut) { pending = [] }) in
      let w : IsSound told = record {
        accounts = (reject_all-IsSound shut (record { accounts = v.accounts })).accounts;
      } in
      IsSound-if c.stopped w (schedule_reconnect-IsSound random told w)

  on_response-IsSound :
      (id : MessageId) (msg : RpcResponse V) {c : Client V}
      → IsSound c
      → IsSound (on_response id msg c)
  unfolding on_response complete
  on_response-IsSound absent msg v = v
  on_response-IsSound other msg v = v
  on_response-IsSound (number id) msg {c} v =
      elim (Option-cases (find? (λ p. eqb p.id id) c.pending)) [
        | inl missing ↦ rw missing v
        | inr (p, found) ↦ rw found (record {
          accounts =
              settle-IsAccounted v.accounts p (outcome_of msg) (find?-mem _ c.pending p found).0;
        })
      ]

  dispatch-IsSound :
      (method : Option String) (id : MessageId) (msg : RpcResponse V) {c : Client V}
      → IsSound c
      → IsSound (dispatch method id msg c)
  unfolding dispatch
  dispatch-IsSound none id msg v = on_response-IsSound id msg v
  dispatch-IsSound (some method) absent msg v =
      IsSound-if (method == "") v (record { accounts = v.accounts })
  dispatch-IsSound (some method) other msg v = on_response-IsSound other msg v
  dispatch-IsSound (some method) (number id) msg v = on_response-IsSound (number id) msg v

  handle_message-IsSound :
      (msg : Parsed V) {c : Client V} → IsSound c → IsSound (handle_message msg c)
  unfolding handle_message
  handle_message-IsSound invalid v = v
  handle_message-IsSound null v = record { accounts = v.accounts }
  handle_message-IsSound (response msg) v = dispatch-IsSound msg.method msg.id msg v

  call-IsSound :
      (method : String) (params : Option V) (timeout_ms : ℕ) {c : Client V}
      → IsSound c
      → IsSound (call method params timeout_ms c)
  unfolding call issue
  call-IsSound method params timeout_ms {c} v =
      IsSound-if (is_ready c)
        (IsSound-if (ltb 0 timeout_ms)
          (record { accounts = issue_timed-IsAccounted v.accounts c.next_handle timeout_ms method })
          (record { accounts = issue-IsAccounted v.accounts }))
        (record { accounts = v.accounts })

  notify-IsSound :
      (method : String) (params : Option V) {c : Client V}
      → IsSound c
      → IsSound (notify method params c)
  unfolding notify
  notify-IsSound method params {c} v = IsSound-if (is_ready c) (record { accounts = v.accounts }) v

  connect-IsSound :
      (fails : Bool) (random : ℕ) {c : Client V} → IsSound c → IsSound (connect fails random c)
  unfolding connect
  connect-IsSound true random {c} v =
      schedule_reconnect-IsSound random (emit (connect_threw ∷ []) (record c { stopped = false }))
        (record { accounts = v.accounts })
  connect-IsSound false random v = record { accounts = v.accounts }

  -- a timer of a waiting call settles that call, a timer for a retry connects
  run_purpose-IsSound :
      (handle : ℕ) (purpose : Purpose) (fails : Bool) (random : ℕ) (c : Client V)
      → IsSound c
      → ExpectedFor c.pending handle purpose
      → IsSound (run_purpose purpose fails random (record c { timers = disarm handle c.timers }))
  unfolding run_purpose
  run_purpose-IsSound handle (reply id ms method) fails random c v m = record {
    accounts =
        settle-IsAccounted v.accounts (record { id = id; timer = some handle })
          (timed_out ms method) m;
  }
  run_purpose-IsSound handle (retry delay) fails random c v m =
      connect-IsSound fails random
        {c = record c { timers = disarm handle c.timers; reconnect_timer = none }}
        (record { accounts = clear-IsAccounted v.accounts (some handle) })

  on_timer-IsSound :
      (handle : ℕ) (fails : Bool) (random : ℕ) (c : Client V)
      → IsSound c
      → IsSound (on_timer handle fails random c)
  unfolding on_timer run_timer
  on_timer-IsSound handle fails random c v =
      elim (Option-cases (find? (λ t. eqb t.handle handle) c.timers)) [
        | inl missing ↦ rw missing v
        | inr (t, found) ↦ rw found (
            run_purpose-IsSound t.handle t.purpose fails random c v
              (All-mem _ c.timers v.accounts.expected (find?-mem _ c.timers t found).0))
      ]

  close_socket-IsSound : (o : Option ℕ) {c : Client V} → IsSound c → IsSound (close_socket o c)
  unfolding close_socket
  close_socket-IsSound none v = v
  close_socket-IsSound (some socket) v = record { accounts = v.accounts }

  timers-close_socket : (o : Option ℕ) (c : Client V) → (close_socket o c).timers ≡ c.timers
  unfolding close_socket
  timers-close_socket none c = refl
  timers-close_socket (some socket) c = refl

  disconnect-IsSound : (c : Client V) → IsSound c → IsSound (disconnect c)
  unfolding disconnect emit_state
  disconnect-IsSound c v = record {
    accounts =
        let c' = close_socket c.ws c in
        subst
          (λ ts.
            IsAccounted c'.request_id c'.pending (clear_timeout c.reconnect_timer ts)
              c'.settlements)
          (timers-close_socket c.ws c)
          (clear-IsAccounted (close_socket-IsSound c.ws v).accounts c.reconnect_timer);
  }

  subscribe-IsSound :
      (topic : Topic) (h : ℕ) {c : Client V} → IsSound c → IsSound (subscribe topic h c)
  unfolding subscribe
  subscribe-IsSound notifications h v = record { accounts = v.accounts }
  subscribe-IsSound connections h v = record { accounts = v.accounts }
  subscribe-IsSound reconnects h v = record { accounts = v.accounts }
  subscribe-IsSound states h v = record { accounts = v.accounts }

  unsubscribe-IsSound :
      (topic : Topic) (h : ℕ) {c : Client V} → IsSound c → IsSound (unsubscribe topic h c)
  unfolding unsubscribe
  unsubscribe-IsSound notifications h v = record { accounts = v.accounts }
  unsubscribe-IsSound connections h v = record { accounts = v.accounts }
  unsubscribe-IsSound reconnects h v = record { accounts = v.accounts }
  unsubscribe-IsSound states h v = record { accounts = v.accounts }

  step-IsSound : (e : Event V) (c : Client V) → IsSound c → IsSound (step e c)
  unfolding step
  step-IsSound (connects fails random) c v = connect-IsSound fails random v
  step-IsSound (opened socket) c v = on_open-IsSound socket v
  step-IsSound (failed socket) c v = on_error-IsSound socket v
  step-IsSound (closed socket random) c v = on_close-IsSound socket random c v
  step-IsSound (receives msg) c v = handle_message-IsSound msg v
  step-IsSound (calls method params timeout_ms) c v = call-IsSound method params timeout_ms v
  step-IsSound (notifies method params) c v = notify-IsSound method params v
  step-IsSound (expires handle fails random) c v = on_timer-IsSound handle fails random c v
  step-IsSound disconnects c v = disconnect-IsSound c v
  step-IsSound (subscribes topic h) c v = subscribe-IsSound topic h v
  step-IsSound (unsubscribes topic h) c v = unsubscribe-IsSound topic h v

  run_from-IsSound : (es : List (Event V)) (c : Client V) → IsSound c → IsSound (run es c)
  unfolding run
  run_from-IsSound [] c v = v
  run_from-IsSound (e ∷ es) c v = run_from-IsSound es (step e c) (step-IsSound e c v)

  init-IsSound : IsSound (init {V = V})
  unfolding waiting settled
  init-IsSound = record { accounts = record { once = λ id. ground arith; expected = tt } }

  -- After any events from the start, in any order, each id up to `requestId` has been handed to one
  -- call, which either still waits, under one entry of `pending`, or has had its promise settled
  -- exactly once; no other id waits or has been settled; and each armed timer for a reply is the
  -- timer of a call that still waits.
  pub run-IsSound : (es : List (Event V)) → IsSound (run es init)
  run-IsSound es = run_from-IsSound es init init-IsSound
