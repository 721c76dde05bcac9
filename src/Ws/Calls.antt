-- ===== src/Ws/Calls.antt =====
-- `WsClient`: messages, calls, timers, disconnecting and subscriptions.
use workflowui.Base.{
  ◌&&◌, ℕ, ◌+◌, String, Bool, true, false, Option, none, some, [], ◌∷◌, ◌++◌, map, find?, eqb, ltb,
  ◌==◌, if◌then◌else◌,
}
use workflowui.Ws.Types.{
  MessageId, absent, other, number, RpcResponse, Parsed, invalid, null, response, Outcome, resolved,
  rejected, timed_out, PendingCall, Purpose, reply, retry, Timer, request, notification,
  not_connected, tell_notification, tell_connection, tell_state, handler_threw, Client,
}
use workflowui.Ws.Sockets.{
  update, disarm, clear_timeout, delete_call, without, emit, snapshot_state, emit_state, connect,
}

module _ {ℓ} {V : Type ℓ} where
  abbrev pub outcome_of : RpcResponse V → Outcome V
  outcome_of msg = elim msg.error [ none ↦ resolved msg.result | some e ↦ rejected e ]

  unfoldable pub complete : Option PendingCall → RpcResponse V → Client V → Client V
  complete none msg c = c
  complete (some p) msg c = record c {
    timers = clear_timeout p.timer c.timers;
    pending = delete_call p.id c.pending;
    settlements = (p.id, outcome_of msg) ∷ c.settlements;
  }

  unfoldable pub on_response : MessageId → RpcResponse V → Client V → Client V
  unfolding complete
  on_response absent msg c = c
  on_response other msg c = c
  on_response (number id) msg c = complete (find? (λ p. eqb p.id id) c.pending) msg c

  -- `msg.method && msg.id === undefined`
  unfoldable pub dispatch : Option String → MessageId → RpcResponse V → Client V → Client V
  unfolding on_response
  dispatch (some method) absent msg c =
      if method == ""
      then c
      else emit (map (λ h. tell_notification h method msg.params) c.notification_handlers) c
  dispatch _ id msg c = on_response id msg c

  unfoldable pub handle_message : Parsed V → Client V → Client V
  unfolding dispatch
  handle_message invalid c = c
  handle_message null c = emit (handler_threw ∷ []) c
  handle_message (response msg) c = dispatch msg.method msg.id msg c

  abbrev pub is_ready : Client V → Bool
  is_ready c = elim c.ws [ none ↦ false | some socket ↦ c.is_open socket ]

  -- the part of `call` behind the readiness check
  unfoldable pub issue : String → Option V → ℕ → Client V → Client V
  issue method params timeout_ms c =
      let id = c.request_id + 1 in
      let sent = emit (request id method params ∷ []) (record c { request_id = id }) in
      if ltb 0 timeout_ms
      then record sent {
        timers =
            c.timers
            ++ record { handle = c.next_handle; purpose = reply id timeout_ms method } ∷ [];
        next_handle = c.next_handle + 1;
        pending = c.pending ++ record { id = id; timer = some c.next_handle } ∷ [];
      }
      else record sent { pending = c.pending ++ record { id = id; timer = none } ∷ [] }

  unfoldable pub call : String → Option V → ℕ → Client V → Client V
  unfolding issue
  call method params timeout_ms c =
      if is_ready c then issue method params timeout_ms c else emit (not_connected method ∷ []) c

  unfoldable pub notify : String → Option V → Client V → Client V
  notify method params c = if is_ready c then emit (notification method params ∷ []) c else c

  -- the callback of a timer that has gone off; a reconnect makes a socket, or fails to
  unfoldable pub run_purpose : Purpose → Bool → ℕ → Client V → Client V
  unfolding connect
  run_purpose (reply id ms method) fails random c = record c {
    pending = delete_call id c.pending;
    settlements = (id, timed_out ms method) ∷ c.settlements;
  }
  run_purpose (retry delay) fails random c =
      connect fails random (record c { reconnect_timer = none })

  unfoldable pub run_timer : Option Timer → Bool → ℕ → Client V → Client V
  unfolding run_purpose
  run_timer none fails random c = c
  run_timer (some t) fails random c =
      run_purpose t.purpose fails random (record c { timers = disarm t.handle c.timers })

  unfoldable pub on_timer : ℕ → Bool → ℕ → Client V → Client V
  unfolding run_timer
  on_timer handle fails random c =
      run_timer (find? (λ t. eqb t.handle handle) c.timers) fails random c

  unfoldable pub close_socket : Option ℕ → Client V → Client V
  unfolding update
  close_socket none c = c
  close_socket (some socket) c = record c { is_open = update c.is_open socket false }

  unfoldable pub disconnect : Client V → Client V
  unfolding emit_state close_socket
  disconnect c =
      let c' = close_socket c.ws c in
      emit_state (record c' {
        stopped = true;
        timers = clear_timeout c.reconnect_timer c.timers;
        reconnect_timer = none;
        ws = none;
        connected = false;
        reconnecting = false;
        had_first_open = false;
      })

  -- the getter `connected`
  unfoldable pub is_connected : Client V → Bool
  is_connected c = c.connected && is_ready c

  unfoldable pub on_notification : ℕ → Client V → Client V
  on_notification h c = record c { notification_handlers = c.notification_handlers ++ h ∷ [] }

  unfoldable pub on_connection : ℕ → Client V → Client V
  on_connection h c =
      emit (tell_connection h c.connected ∷ [])
        (record c { connection_handlers = c.connection_handlers ++ h ∷ [] })

  unfoldable pub on_reconnect : ℕ → Client V → Client V
  on_reconnect h c = record c { reconnect_handlers = c.reconnect_handlers ++ h ∷ [] }

  unfoldable pub on_connection_state : ℕ → Client V → Client V
  unfolding snapshot_state
  on_connection_state h c =
      emit (tell_state h (snapshot_state c) ∷ [])
        (record c { connection_state_handlers = c.connection_state_handlers ++ h ∷ [] })

  -- the functions that the four subscriptions return
  unfoldable pub off_notification : ℕ → Client V → Client V
  off_notification h c = record c { notification_handlers = without h c.notification_handlers }

  unfoldable pub off_connection : ℕ → Client V → Client V
  off_connection h c = record c { connection_handlers = without h c.connection_handlers }

  unfoldable pub off_reconnect : ℕ → Client V → Client V
  off_reconnect h c = record c { reconnect_handlers = without h c.reconnect_handlers }

  unfoldable pub off_connection_state : ℕ → Client V → Client V
  off_connection_state h c = record c {
    connection_state_handlers = without h c.connection_state_handlers;
  }
