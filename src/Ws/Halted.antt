-- ===== src/Ws/Halted.antt =====
-- A client that has been disconnected stays so until `connect` is called.
use workflowui.Base.{
  ℕ, ◌≡◌, refl, sym, ◌∙◌, inl, inr, true, false, ◌||◌, Option, some, none, List, [], ◌∷◌, eqb,
  find?, is_some, All, All-mem, String, Bool, Option-cases, find?-mem, All-map_imp, if_both,
  if_true, subst, ◌==◌,
}
use workflowui.Ws.{
  PendingCall, Purpose, reply, retry, Timer, Client, Event, MessageId, absent, other, number,
  RpcResponse, Parsed, invalid, null, response, Output, rejected, init, run, step, reject_all,
  clear_timeout, disarm, update, closed_error, complete, schedule_reconnect, settle_connect,
  on_open, on_error, on_close, on_response, dispatch, handle_message, call, notify, is_ready,
  run_purpose, run_timer, on_timer, disconnect, close_socket, subscribe, unsubscribe, emit_state,
  notify_connection, connects, opened, failed, closed, receives, calls, notifies, expires,
  disconnects, subscribes, unsubscribes, Topic, notifications, connections, reconnects, states,
}
use workflowui.Ws.Accounts.{All-clear_timeout}
use workflowui.Ws.Tracked.{TrackedBy, IsTracked, run-IsTracked, no_retry-clear_timeout}

cleared :
    (o : Option ℕ) (ts : List Timer)
    → All (λ t. TrackedBy none t.handle t.purpose) ts
    → All (λ t. TrackedBy none t.handle t.purpose) (clear_timeout o ts)
cleared o ts h = All-map_imp _ _ _ (λ t x. x.0) (All-clear_timeout _ o ts h)

module _ {ℓ} {V : Type ℓ} where
  -- `n` sockets have been made, none is held, and no timer is armed that would make another
  pub record IsHalted (n : ℕ) (c : Client V) : Type ℓ where
    pub stopped : c.stopped ≡ true
    pub ws : c.ws ≡ none
    pub reconnect_timer : c.reconnect_timer ≡ none
    pub no_retry : All (λ t. TrackedBy none t.handle t.purpose) c.timers
    pub sockets : c.next_socket ≡ n

  IsHalted-frame :
      {n : ℕ} (c d : Client V)
      → IsHalted n c
      → d.stopped ≡ c.stopped
      → d.ws ≡ c.ws
      → d.reconnect_timer ≡ c.reconnect_timer
      → All (λ t. TrackedBy none t.handle t.purpose) d.timers
      → d.next_socket ≡ c.next_socket
      → IsHalted n d
  IsHalted-frame c d v a b r ts s = record {
    stopped = a ∙ v.stopped;
    ws = b ∙ v.ws;
    reconnect_timer = r ∙ v.reconnect_timer;
    no_retry = ts;
    sockets = s ∙ v.sockets;
  }

  -- what leaves the fields alone that `IsHalted` reads
  same :
      {n : ℕ} (c d : Client V)
      → IsHalted n c
      → d.stopped ≡ c.stopped
      → d.ws ≡ c.ws
      → d.reconnect_timer ≡ c.reconnect_timer
      → d.timers ≡ c.timers
      → d.next_socket ≡ c.next_socket
      → IsHalted n d
  same c d v a b r ts s =
      IsHalted-frame c d v a b r
        (subst (All (λ t. TrackedBy none t.handle t.purpose)) (sym ts) v.no_retry) s

  schedule_reconnect-IsHalted :
      {n : ℕ} (random : ℕ) (c : Client V) → IsHalted n c → IsHalted n (schedule_reconnect random c)
  unfolding schedule_reconnect
  schedule_reconnect-IsHalted {n} random c v =
      let test : (is_some c.reconnect_timer || c.stopped) ≡ true =
        rw (v.reconnect_timer, v.stopped) in
      subst (IsHalted n) (sym (if_true _ c _ test)) v

  reject_all-IsHalted :
      {n : ℕ} (ps : List PendingCall) (c : Client V) → IsHalted n c → IsHalted n (reject_all ps c)
  unfolding reject_all
  reject_all-IsHalted [] c v = v
  reject_all-IsHalted (p ∷ ps) c v =
      let next = record c {
        timers = clear_timeout p.timer c.timers;
        settlements = (p.id, rejected closed_error) ∷ c.settlements;
      } in
      reject_all-IsHalted ps next
        (IsHalted-frame c next v refl refl refl (cleared p.timer c.timers v.no_retry) refl)

  settle_connect-IsHalted :
      {n : ℕ} (socket : ℕ) (o : Output V) (c : Client V)
      → IsHalted n c
      → IsHalted n (settle_connect socket o c)
  unfolding settle_connect
  settle_connect-IsHalted {n} socket o c v =
      if_both (IsHalted n) (c.is_settled socket) c _ v (same c _ v refl refl refl refl refl)

  on_open-IsHalted :
      {n : ℕ} (socket : ℕ) (c : Client V) → IsHalted n c → IsHalted n (on_open socket c)
  unfolding on_open notify_connection emit_state
  on_open-IsHalted {n} socket c v = settle_connect-IsHalted socket _ _ (
      if_both (IsHalted n) c.had_first_open _ _ (same c _ v refl refl refl refl refl)
        (same c _ v refl refl refl refl refl))

  on_close-IsHalted :
      {n : ℕ} (socket random : ℕ) (c : Client V)
      → IsHalted n c
      → IsHalted n (on_close socket random c)
  unfolding on_close notify_connection emit_state
  on_close-IsHalted {n} socket random c v =
      let shut : Client V = record c {
        is_open = update c.is_open socket false;
        connected = false;
      } in
      let told : Client V =
        notify_connection false (record (reject_all c.pending shut) { pending = [] }) in
      let w : IsHalted n told =
        same (reject_all c.pending shut) told
          (reject_all-IsHalted c.pending shut (same c shut v refl refl refl refl refl)) refl refl
          refl refl refl in
      if_both (IsHalted n) c.stopped told (schedule_reconnect random told) w
        (schedule_reconnect-IsHalted random told w)

  on_response-IsHalted :
      {n : ℕ} (id : MessageId) (msg : RpcResponse V) (c : Client V)
      → IsHalted n c
      → IsHalted n (on_response id msg c)
  unfolding on_response complete
  on_response-IsHalted absent msg c v = v
  on_response-IsHalted other msg c v = v
  on_response-IsHalted (number id) msg c v =
      elim (Option-cases (find? (λ p. eqb p.id id) c.pending)) [
        | inl missing ↦ rw missing v
        | inr (p, found) ↦
            rw found
              (IsHalted-frame c _ v refl refl refl (cleared p.timer c.timers v.no_retry) refl)
      ]

  dispatch-IsHalted :
      {n : ℕ} (method : Option String) (id : MessageId) (msg : RpcResponse V) (c : Client V)
      → IsHalted n c
      → IsHalted n (dispatch method id msg c)
  unfolding dispatch
  dispatch-IsHalted none id msg c v = on_response-IsHalted id msg c v
  dispatch-IsHalted {n} (some method) absent msg c v =
      if_both (IsHalted n) (method == "") c _ v (same c _ v refl refl refl refl refl)
  dispatch-IsHalted (some method) other msg c v = on_response-IsHalted other msg c v
  dispatch-IsHalted (some method) (number id) msg c v = on_response-IsHalted (number id) msg c v

  handle_message-IsHalted :
      {n : ℕ} (msg : Parsed V) (c : Client V) → IsHalted n c → IsHalted n (handle_message msg c)
  unfolding handle_message
  handle_message-IsHalted invalid c v = v
  handle_message-IsHalted null c v = same c _ v refl refl refl refl refl
  handle_message-IsHalted (response msg) c v = dispatch-IsHalted msg.method msg.id msg c v

  call-IsHalted :
      {n : ℕ} (method : String) (params : Option V) (timeout_ms : ℕ) (c : Client V)
      → IsHalted n c
      → IsHalted n (call method params timeout_ms c)
  unfolding call
  call-IsHalted method params timeout_ms c v =
      let down : is_ready c ≡ false = rw v.ws in rw down (same c _ v refl refl refl refl refl)

  notify-IsHalted :
      {n : ℕ} (method : String) (params : Option V) (c : Client V)
      → IsHalted n c
      → IsHalted n (notify method params c)
  unfolding notify
  notify-IsHalted {n} method params c v =
      if_both (IsHalted n) (is_ready c) _ c (same c _ v refl refl refl refl refl) v

  run_purpose-IsHalted :
      {n : ℕ} (handle : ℕ) (purpose : Purpose) (fails : Bool) (random : ℕ) (c : Client V)
      → IsHalted n c
      → TrackedBy none handle purpose
      → IsHalted n (run_purpose purpose fails random (record c { timers = disarm handle c.timers }))
  unfolding run_purpose
  run_purpose-IsHalted handle (reply id ms method) fails random c v h =
      IsHalted-frame c _ v refl refl refl (cleared (some handle) c.timers v.no_retry) refl
  run_purpose-IsHalted handle (retry delay) fails random c v h = cc

  on_timer-IsHalted :
      {n : ℕ} (handle : ℕ) (fails : Bool) (random : ℕ) (c : Client V)
      → IsHalted n c
      → IsHalted n (on_timer handle fails random c)
  unfolding on_timer run_timer
  on_timer-IsHalted handle fails random c v =
      elim (Option-cases (find? (λ t. eqb t.handle handle) c.timers)) [
        | inl missing ↦ rw missing v
        | inr (t, found) ↦ rw found (
            run_purpose-IsHalted t.handle t.purpose fails random c v
              (All-mem _ c.timers v.no_retry (find?-mem _ c.timers t found).0))
      ]

  next_socket-close_socket :
      (o : Option ℕ) (c : Client V) → (close_socket o c).next_socket ≡ c.next_socket
  unfolding close_socket
  next_socket-close_socket none c = refl
  next_socket-close_socket (some socket) c = refl

  disconnect-IsHalted : (c : Client V) → IsTracked c → IsHalted c.next_socket (disconnect c)
  unfolding disconnect emit_state
  disconnect-IsHalted c v = record {
    stopped = refl;
    ws = refl;
    reconnect_timer = refl;
    no_retry = no_retry-clear_timeout c v;
    sockets = next_socket-close_socket c.ws c;
  }

  disconnect_again : {n : ℕ} (c : Client V) → IsHalted n c → IsHalted n (disconnect c)
  unfolding disconnect emit_state
  disconnect_again c v = record {
    stopped = refl;
    ws = refl;
    reconnect_timer = refl;
    no_retry = cleared c.reconnect_timer c.timers v.no_retry;
    sockets = next_socket-close_socket c.ws c ∙ v.sockets;
  }

  subscribe-IsHalted :
      {n : ℕ} (topic : Topic) (h : ℕ) (c : Client V)
      → IsHalted n c
      → IsHalted n (subscribe topic h c)
  unfolding subscribe
  subscribe-IsHalted notifications h c v = same c _ v refl refl refl refl refl
  subscribe-IsHalted connections h c v = same c _ v refl refl refl refl refl
  subscribe-IsHalted reconnects h c v = same c _ v refl refl refl refl refl
  subscribe-IsHalted states h c v = same c _ v refl refl refl refl refl

  unsubscribe-IsHalted :
      {n : ℕ} (topic : Topic) (h : ℕ) (c : Client V)
      → IsHalted n c
      → IsHalted n (unsubscribe topic h c)
  unfolding unsubscribe
  unsubscribe-IsHalted notifications h c v = same c _ v refl refl refl refl refl
  unsubscribe-IsHalted connections h c v = same c _ v refl refl refl refl refl
  unsubscribe-IsHalted reconnects h c v = same c _ v refl refl refl refl refl
  unsubscribe-IsHalted states h c v = same c _ v refl refl refl refl refl

  -- any event but a call of `connect`
  abbrev pub IsPassive : Event V → Type 0
  IsPassive (connects fails random) = ⊥
  IsPassive _ = Unit

  step-IsHalted :
      {n : ℕ} (e : Event V) (c : Client V) → IsPassive e → IsHalted n c → IsHalted n (step e c)
  unfolding step on_error
  step-IsHalted (connects fails random) c p v = absurd p
  step-IsHalted (opened socket) c p v = on_open-IsHalted socket c v
  step-IsHalted (failed socket) c p v = settle_connect-IsHalted socket _ c v
  step-IsHalted (closed socket random) c p v = on_close-IsHalted socket random c v
  step-IsHalted (receives msg) c p v = handle_message-IsHalted msg c v
  step-IsHalted (calls method params timeout_ms) c p v = call-IsHalted method params timeout_ms c v
  step-IsHalted (notifies method params) c p v = notify-IsHalted method params c v
  step-IsHalted (expires handle fails random) c p v = on_timer-IsHalted handle fails random c v
  step-IsHalted disconnects c p v = disconnect_again c v
  step-IsHalted (subscribes topic h) c p v = subscribe-IsHalted topic h c v
  step-IsHalted (unsubscribes topic h) c p v = unsubscribe-IsHalted topic h c v

  run_from-IsHalted :
      {n : ℕ} (es : List (Event V)) (c : Client V)
      → All IsPassive es
      → IsHalted n c
      → IsHalted n (run es c)
  unfolding run
  run_from-IsHalted [] c p v = v
  run_from-IsHalted (e ∷ es) c p v = run_from-IsHalted es (step e c) p.1 (step-IsHalted e c p.0 v)

  -- After any events from the start and a call of `disconnect`, whatever happens except a call of
  -- `connect` (late closings and openings of sockets, timers that go off, answers, calls) makes no
  -- further socket: the client stays stopped without a socket, and no reconnection is armed.
  pub disconnect_halts :
      (es later : List (Event V))
      → All IsPassive later
      → IsHalted (run es init).next_socket (run later (disconnect (run es init)))
  disconnect_halts es later p =
      run_from-IsHalted later (disconnect (run es init)) p
        (disconnect-IsHalted (run es init) (run-IsTracked es))
