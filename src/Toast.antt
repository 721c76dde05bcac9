-- ===== src/Toast.antt =====
-- The toast store of frontend/src/store/toastStore.ts, with the timers that it arms. The module
-- variables `toastId` and `pendingTimers` are fields; `armed` and `next_handle` are what the
-- platform keeps for `setTimeout` and `clearTimeout`.
pub mod Invariant
pub mod Lifecycle
use workflowui.Base.{
  ℕ, ◌+◌, String, not, Option, none, some, List, [], ◌∷◌, ◌++◌, filter, find?, eqb,
}

pub data ToastLevel : Type 0 where
  info warn error success : ToastLevel

pub record Toast : Type 0 where
  pub id : ℕ
  pub message : String
  pub level : ToastLevel

-- `TOAST_TTL`
unfoldable pub toast_ttl : ToastLevel → ℕ
toast_ttl success = 3000
toast_ttl info = 4000
toast_ttl warn = 6000
toast_ttl error = 10000

-- an armed `setTimeout` call, whose callback removes the toast that it closes over
pub record Timer : Type 0 where
  pub handle : ℕ
  pub toast : ℕ
  pub delay : ℕ

pub record Pending : Type 0 where
  pub id : ℕ
  pub handle : ℕ

pub record ToastState : Type 0 where
  pub toasts : List Toast
  pub toast_id : ℕ
  pub pending_timers : List Pending
  pub armed : List Timer
  pub next_handle : ℕ

abbrev pub init : ToastState
init = record { toasts = []; toast_id = 0; pending_timers = []; armed = []; next_handle = 0 }

abbrev pub without_toast : ℕ → List Toast → List Toast
without_toast id = filter (λ t. not (eqb t.id id))

abbrev pub delete_pending : ℕ → List Pending → List Pending
delete_pending id = filter (λ p. not (eqb p.id id))

abbrev pub disarm : ℕ → List Timer → List Timer
disarm handle = filter (λ t. not (eqb t.handle handle))

unfoldable pub add_toast : String → ToastLevel → ToastState → ToastState
unfolding toast_ttl
add_toast message level s =
    let id = s.toast_id + 1 in
    let handle = s.next_handle in
    record {
      toasts = s.toasts ++ record { id = id; message = message; level = level } ∷ [];
      toast_id = id;
      pending_timers = s.pending_timers ++ record { id = id; handle = handle } ∷ [];
      armed = s.armed ++ record { handle = handle; toast = id; delay = toast_ttl level } ∷ [];
      next_handle = handle + 1;
    }

-- `pendingTimers.get(id)`, `undefined` being no action
clear_handle : Option Pending → ToastState → ToastState
clear_handle none s = s
clear_handle (some p) s = record s {
  armed = disarm p.handle s.armed;
  pending_timers = delete_pending p.id s.pending_timers;
}

unfoldable pub clear_pending : ℕ → ToastState → ToastState
unfolding clear_handle
clear_pending id s = clear_handle (find? (λ p. eqb p.id id) s.pending_timers) s

unfoldable pub remove_toast : ℕ → ToastState → ToastState
unfolding clear_pending
remove_toast id s = let s' = clear_pending id s in record s' { toasts = without_toast id s'.toasts }

-- the callback of `addToast`, run by the platform for a timer that is armed
run_timer : Option Timer → ToastState → ToastState
run_timer none s = s
run_timer (some t) s = record s {
  armed = disarm t.handle s.armed;
  pending_timers = delete_pending t.toast s.pending_timers;
  toasts = without_toast t.toast s.toasts;
}

unfoldable pub fire : ℕ → ToastState → ToastState
unfolding run_timer
fire handle s = run_timer (find? (λ t. eqb t.handle handle) s.armed) s

-- what the user and the platform do
pub data Event : Type 0 where
  add : String → ToastLevel → Event
  remove : ℕ → Event
  timeout : ℕ → Event

unfoldable pub step : Event → ToastState → ToastState
step (add message level) s = add_toast message level s
step (remove id) s = remove_toast id s
step (timeout handle) s = fire handle s

unfoldable pub run : List Event → ToastState → ToastState
run [] s = s
run (e ∷ es) s = run es (step e s)
