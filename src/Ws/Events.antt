-- ===== src/Ws/Events.antt =====
-- What the program, the server and the platform do to a `WsClient`, in any order.
use workflowui.Base.{ℕ, String, Bool, Option, List, [], ◌∷◌}
use workflowui.Ws.Types.{Parsed, Client}
use workflowui.Ws.Sockets.{connect, on_open, on_error, on_close}
use workflowui.Ws.Calls.{
  handle_message, call, notify, on_timer, disconnect, on_notification, on_connection, on_reconnect,
  on_connection_state, off_notification, off_connection, off_reconnect, off_connection_state,
}

pub data Topic : Type 0 where
  notifications connections reconnects states : Topic

-- A socket is named by its number. `opened`, `failed` and `closed` may come from any socket, also
-- from one that the client has replaced.
pub data Event {ℓ} (V : Type ℓ) : Type ℓ where
  connects : Bool → ℕ → Event V
  opened failed : ℕ → Event V
  closed : ℕ → ℕ → Event V
  receives : Parsed V → Event V
  calls : String → Option V → ℕ → Event V
  notifies : String → Option V → Event V
  expires : ℕ → Bool → ℕ → Event V
  disconnects : Event V
  subscribes unsubscribes : Topic → ℕ → Event V

module _ {ℓ} {V : Type ℓ} where
  unfoldable pub subscribe : Topic → ℕ → Client V → Client V
  unfolding on_notification on_connection on_reconnect on_connection_state
  subscribe notifications h c = on_notification h c
  subscribe connections h c = on_connection h c
  subscribe reconnects h c = on_reconnect h c
  subscribe states h c = on_connection_state h c

  unfoldable pub unsubscribe : Topic → ℕ → Client V → Client V
  unfolding off_notification off_connection off_reconnect off_connection_state
  unsubscribe notifications h c = off_notification h c
  unsubscribe connections h c = off_connection h c
  unsubscribe reconnects h c = off_reconnect h c
  unsubscribe states h c = off_connection_state h c

  unfoldable pub step : Event V → Client V → Client V
  unfolding subscribe unsubscribe
  step (connects fails random) c = connect fails random c
  step (opened socket) c = on_open socket c
  step (failed socket) c = on_error socket c
  step (closed socket random) c = on_close socket random c
  step (receives msg) c = handle_message msg c
  step (calls method params timeout_ms) c = call method params timeout_ms c
  step (notifies method params) c = notify method params c
  step (expires handle fails random) c = on_timer handle fails random c
  step disconnects c = disconnect c
  step (subscribes topic h) c = subscribe topic h c
  step (unsubscribes topic h) c = unsubscribe topic h c

  unfoldable pub run : List (Event V) → Client V → Client V
  run [] c = c
  run (e ∷ es) c = run es (step e c)
