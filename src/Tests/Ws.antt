-- ===== src/Tests/Ws.antt =====
-- The WebSocket client on short runs.
use workflowui.Base.{
  All, Memᴰ, is_some, if◌then◌else◌, ◌+◌, ℕ, ◌≡◌, refl, true, false, none, some, List, [], ◌∷◌,
  length,
}
use workflowui.Ws.{
  subscribes, connections, tell_connection, connect_resolved, is_connected, default_call_timeout_ms,
  MessageId, Parsed, Outcome, Client, Event, init, run, step, connects, opened, closed, receives,
  calls, expires, disconnects, closed_error, on_close, on_timer, handle_message, call, on_open,
  connect, disconnect,
}
use workflowui.Ws.Settles.{IsSound, run-IsSound}
use workflowui.Ws.Replaced.{on_close_replaced}
use workflowui.Ws.Halted.{IsHalted, disconnect_halts}

-- three calls: the first is answered, the second times out, and the third is cut off
abbrev script : List (Event ℕ)
script =
    connects false 0
    ∷ opened 0
    ∷ calls "a" none default_call_timeout_ms
    ∷ calls "b" none default_call_timeout_ms
    ∷ calls "c" none 0
    ∷ receives (
        Parsed.response (record {
          id = MessageId.number 1;
          method = none;
          result = some 7;
          params = none;
          error = none;
        }))
    ∷ expires 1 false 0
    ∷ closed 0 0
    ∷ []

script_settles :
    (run script init).settlements
    ≡ (3, Outcome.rejected closed_error)
      ∷ (2, Outcome.timed_out 30000 "b")
      ∷ (1, Outcome.resolved (some 7))
      ∷ []
unfolding run step on_close on_timer handle_message call on_open
script_settles = refl

run-IsSound_example : IsSound (run script init)
run-IsSound_example = run-IsSound script

-- a subscriber is told its first state at once, then of the opening
abbrev pub subscribed : Client ℕ
subscribed = run (subscribes connections 4 ∷ connects false 0 ∷ opened 0 ∷ []) init

subscribed_outputs :
    subscribed.outputs ≡ tell_connection 4 false ∷ tell_connection 4 true ∷ connect_resolved 0 ∷ []
unfolding run step connect on_open
subscribed_outputs = refl

pub subscribed_connected : is_connected subscribed ≡ true
unfolding run step connect on_open is_connected
subscribed_connected = refl

-- stopped and started again: the old socket closes when the new one is open and has a call
abbrev restarted : Client ℕ
restarted =
    run
      (connects false 0
        ∷ opened 0
        ∷ disconnects
        ∷ connects false 0
        ∷ opened 1
        ∷ calls "a" none 0
        ∷ [])
      init

restarted_pending : length restarted.pending ≡ 1
unfolding run step call connect on_open disconnect
restarted_pending = refl

restarted_ws : restarted.ws ≡ some 1
unfolding run step call connect on_open disconnect
restarted_ws = refl

on_close_replaced_example :
    let d = on_close 0 0 restarted in
    (d.pending ≡ [])
    × All (λ p. Memᴰ (p.id, Outcome.rejected closed_error) d.settlements) restarted.pending
    × (length d.settlements ≡ length restarted.settlements + length restarted.pending)
    × (d.connected ≡ false)
    × (d.ws ≡ restarted.ws)
    × (d.reconnect_timer ≡ (
        if restarted.stopped
        then restarted.reconnect_timer
        else if is_some restarted.reconnect_timer
        then restarted.reconnect_timer
        else some restarted.next_handle))
on_close_replaced_example = on_close_replaced 0 0 restarted

abbrev afterwards : List (Event ℕ)
afterwards = closed 0 5 ∷ opened 0 ∷ calls "late" none 10 ∷ expires 0 true 3 ∷ []

disconnect_halts_example :
    IsHalted (run script init).next_socket (run afterwards (disconnect (run script init)))
disconnect_halts_example = disconnect_halts script afterwards (tt, (tt, (tt, (tt, tt))))
