-- ===== src/Ws/Replaced.antt =====
-- `onclose` does not ask whether its socket is still the client's.
use workflowui.Base.{
  ℕ, ◌≡◌, refl, false, some, List, [], ◌∷◌, is_some, ap, ◌∙◌, sym, subst, ◌+◌, All, Memᴰ, Option,
  length, arith, if◌then◌else◌, Bool-cases, inl, inr, Bool, true,
}
use workflowui.Ws.{
  Client, PendingCall, reject_all, on_close, schedule_reconnect, notify_connection, emit_state,
  Outcome, closed_error, clear_timeout, rejected, update,
}

module _ {ℓ} {V : Type ℓ} where
  -- what the loop of `onclose` leaves alone
  record SameLink (c d : Client V) : Type 0 where
    ws : d.ws ≡ c.ws
    reconnect_timer : d.reconnect_timer ≡ c.reconnect_timer
    stopped : d.stopped ≡ c.stopped
    connected : d.connected ≡ c.connected
    next_handle : d.next_handle ≡ c.next_handle

  reject_all-SameLink : (ps : List PendingCall) (c : Client V) → SameLink c (reject_all ps c)
  unfolding reject_all
  reject_all-SameLink [] c = record {
    ws = refl;
    reconnect_timer = refl;
    stopped = refl;
    connected = refl;
    next_handle = refl;
  }
  reject_all-SameLink (p ∷ ps) c =
      let rest = reject_all-SameLink ps (record c {
        timers = clear_timeout p.timer c.timers;
        settlements = (p.id, rejected closed_error) ∷ c.settlements;
      }) in
      record {
        ws = rest.ws;
        reconnect_timer = rest.reconnect_timer;
        stopped = rest.stopped;
        connected = rest.connected;
        next_handle = rest.next_handle;
      }

  -- each call that it takes is rejected, and nothing else is settled
  record IsRejected (ps : List PendingCall) (c d : Client V) : Type ℓ where
    each : All (λ p. Memᴰ (p.id, rejected closed_error) d.settlements) ps
    before : (a : ℕ × Outcome V) → Memᴰ a c.settlements → Memᴰ a d.settlements
    count : length d.settlements ≡ length c.settlements + length ps

  reject_all-IsRejected : (ps : List PendingCall) (c : Client V) → IsRejected ps c (reject_all ps c)
  unfolding reject_all
  reject_all-IsRejected [] c = record { each = tt; before = λ a m. m; count = omega arith }
  reject_all-IsRejected (p ∷ ps) c =
      let rest = reject_all-IsRejected ps (record c {
        timers = clear_timeout p.timer c.timers;
        settlements = (p.id, rejected closed_error) ∷ c.settlements;
      }) in
      record {
        each = (rest.before (p.id, rejected closed_error) (Memᴰ.head refl), rest.each);
        before = λ a m. rest.before a (Memᴰ.tail m);
        count = omega (arith, rest.count);
      }

  -- the timer of a reconnection after a close
  abbrev pub timer_after : Client V → Option ℕ
  timer_after c =
      if c.stopped
      then c.reconnect_timer
      else if is_some c.reconnect_timer
      then c.reconnect_timer
      else some c.next_handle

  schedule_reconnect_link :
      (random : ℕ) (stopped : Bool) (c : Client V)
      → c.stopped ≡ stopped
      → let d = if stopped then c else schedule_reconnect random c in
        (d.pending ≡ c.pending)
        × (d.connected ≡ c.connected)
        × (d.reconnect_timer ≡ timer_after c)
        × (d.ws ≡ c.ws)
        × (d.settlements ≡ c.settlements)
  unfolding schedule_reconnect emit_state
  schedule_reconnect_link random true c halted = rw halted (refl, refl, refl, refl, refl)
  schedule_reconnect_link random false c going = elim (Bool-cases (is_some c.reconnect_timer)) [
    | inl waits ↦ rw (going, waits) (refl, refl, refl, refl, refl)
    | inr idle ↦ rw (going, idle) (refl, refl, refl, refl, refl)
  ]

  -- The closing of any socket, in any state of the client and also where the client has replaced the
  -- socket by another that is live, rejects all calls that wait, settles no other, takes them out of
  -- `pending`, marks the client as not connected and leaves its socket in place. It arms a
  -- reconnection unless the client has been stopped or waits for one.
  pub on_close_replaced :
      (socket random : ℕ) (c : Client V)
      → let d = on_close socket random c in
        (d.pending ≡ [])
        × All (λ p. Memᴰ (p.id, rejected closed_error) d.settlements) c.pending
        × (length d.settlements ≡ length c.settlements + length c.pending)
        × (d.connected ≡ false)
        × (d.ws ≡ c.ws)
        × (d.reconnect_timer ≡ (
            if c.stopped
            then c.reconnect_timer
            else if is_some c.reconnect_timer
            then c.reconnect_timer
            else some c.next_handle))
  unfolding on_close notify_connection emit_state
  on_close_replaced socket random c =
      let shut = record c { is_open = update c.is_open socket false; connected = false } in
      let told : Client V =
        notify_connection false (record (reject_all c.pending shut) { pending = [] }) in
      let link = reject_all-SameLink c.pending shut in
      let gone = reject_all-IsRejected c.pending shut in
      let (pending, connected, timer, ws, settled) =
        schedule_reconnect_link random c.stopped told link.stopped in
      (
        pending,
        subst (λ xs. All (λ p. Memᴰ (p.id, rejected closed_error) xs) c.pending) (sym settled)
            gone.each,
        ap length settled ∙ gone.count,
        connected ∙ link.connected,
        ws ∙ link.ws,
        timer ∙ rw (link.stopped, link.reconnect_timer, link.next_handle) refl,
      )
