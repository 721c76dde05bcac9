-- ===== src/Ws/Sockets.antt =====
-- `WsClient`: the connection, its callbacks, and reconnecting.
use workflowui.Base.{
  ℕ, ◌+◌, ◌*◌, ◌/◌, ◌^◌, min, Bool, true, false, not, ◌||◌, Option, none, some, List, [], ◌∷◌, ◌++◌,
  map, filter, eqb, is_some, if◌then◌else◌,
}
use workflowui.Base.{negsuc}
use workflowui.Ws.Types.{
  RpcError, rejected, PendingCall, retry, Timer, ConnectionState, Output, tell_connection,
  tell_state, tell_reconnect, connect_resolved, connect_rejected, connect_threw, Client,
}

abbrev pub base_retry_ms : ℕ
base_retry_ms = 500

abbrev pub max_retry_ms : ℕ
max_retry_ms = 15000

abbrev pub default_call_timeout_ms : ℕ
default_call_timeout_ms = 30000

-- `Math.random()` is `random / 2 ^ 53`
unfoldable pub compute_backoff : ℕ → ℕ → ℕ
compute_backoff random attempt =
    let capped = min max_retry_ms (base_retry_ms * 2 ^ attempt) in random * capped / 2 ^ 53

unfoldable pub update : (ℕ → Bool) → ℕ → Bool → ℕ → Bool
update f n b m = if eqb n m then b else f m

abbrev pub disarm : ℕ → List Timer → List Timer
disarm handle = filter (λ t. not (eqb t.handle handle))

-- `if (timer) clearTimeout(timer)`
abbrev pub clear_timeout : Option ℕ → List Timer → List Timer
clear_timeout none ts = ts
clear_timeout (some handle) ts = disarm handle ts

abbrev pub delete_call : ℕ → List PendingCall → List PendingCall
delete_call id = filter (λ p. not (eqb p.id id))

abbrev pub closed_error : RpcError
closed_error = record { code = negsuc 31999; message = "WebSocket closed" }

abbrev pub without : ℕ → List ℕ → List ℕ
without h = filter (λ x. not (eqb x h))

module _ {ℓ} {V : Type ℓ} where
  abbrev pub init : Client V
  init = record {
    ws = none;
    request_id = 0;
    pending = [];
    notification_handlers = [];
    connection_handlers = [];
    connection_state_handlers = [];
    reconnect_handlers = [];
    reconnect_timer = none;
    connected = false;
    reconnecting = false;
    attempt = 0;
    next_retry_ms = 0;
    stopped = false;
    had_first_open = false;
    next_socket = 0;
    is_open = λ n. false;
    is_settled = λ n. false;
    timers = [];
    next_handle = 0;
    settlements = [];
    outputs = [];
  }

  abbrev pub emit : List (Output V) → Client V → Client V
  emit os c = record c { outputs = c.outputs ++ os }

  unfoldable pub snapshot_state : Client V → ConnectionState
  snapshot_state c = record {
    connected = c.connected;
    reconnecting = c.reconnecting;
    attempt = c.attempt;
    next_retry_ms = c.next_retry_ms;
  }

  unfoldable pub emit_state : Client V → Client V
  unfolding snapshot_state
  emit_state c = emit (map (λ h. tell_state h (snapshot_state c)) c.connection_state_handlers) c

  unfoldable pub notify_connection : Bool → Client V → Client V
  unfolding emit_state
  notify_connection b c = emit_state (emit (map (λ h. tell_connection h b) c.connection_handlers) c)

  unfoldable pub schedule_reconnect : ℕ → Client V → Client V
  unfolding emit_state compute_backoff
  schedule_reconnect random c =
      let attempt = c.attempt + 1 in
      let delay = compute_backoff random attempt in
      let c' =
        emit_state (record c { reconnecting = true; attempt = attempt; next_retry_ms = delay }) in
      if is_some c.reconnect_timer || c.stopped then c else record c' {
        reconnect_timer = some c.next_handle;
        timers = c.timers ++ record { handle = c.next_handle; purpose = retry delay } ∷ [];
        next_handle = c.next_handle + 1;
      }

  -- `new WebSocket` throws if `fails`
  unfoldable pub connect : Bool → ℕ → Client V → Client V
  unfolding schedule_reconnect
  connect fails random c =
      let c' = record c { stopped = false } in
      if fails
      then schedule_reconnect random (emit (connect_threw ∷ []) c')
      else record c' { ws = some c.next_socket; next_socket = c.next_socket + 1 }

  unfoldable pub settle_connect : ℕ → Output V → Client V → Client V
  unfolding update
  settle_connect socket o c =
      if c.is_settled socket
      then c
      else emit (o ∷ []) (record c { is_settled = update c.is_settled socket true })

  unfoldable pub on_open : ℕ → Client V → Client V
  unfolding update emit_state notify_connection settle_connect
  on_open socket c =
      let opened = record c {
        is_open = update c.is_open socket true;
        had_first_open = true;
        connected = true;
        reconnecting = false;
        attempt = 0;
        next_retry_ms = 0;
      } in
      let told = notify_connection true (emit_state opened) in
      settle_connect socket (connect_resolved socket)
        (if c.had_first_open then emit (map tell_reconnect c.reconnect_handlers) told else told)

  unfoldable pub on_error : ℕ → Client V → Client V
  unfolding settle_connect
  on_error socket c = settle_connect socket (connect_rejected socket) c

  -- the loop of `onclose` over the pending calls
  unfoldable pub reject_all : List PendingCall → Client V → Client V
  reject_all [] c = c
  reject_all (p ∷ ps) c = reject_all ps (record c {
    timers = clear_timeout p.timer c.timers;
    settlements = (p.id, rejected closed_error) ∷ c.settlements;
  })

  unfoldable pub on_close : ℕ → ℕ → Client V → Client V
  unfolding update reject_all notify_connection schedule_reconnect
  on_close socket random c =
      let shut = record c { is_open = update c.is_open socket false; connected = false } in
      let empty = record (reject_all c.pending shut) { pending = [] } in
      let told = notify_connection false empty in
      if c.stopped then told else schedule_reconnect random told
