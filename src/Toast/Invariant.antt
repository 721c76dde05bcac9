-- ===== src/Toast/Invariant.antt =====
-- Toasts, their pending entries and the armed timers stay in step, one of each to a toast.
use mathlib.Core.List.{map-append}
use workflowui.Base.{
  ℕ, ◌≤◌, ◌<◌, ◌≡◌, refl, sym, ap, ◌∙◌, subst, inl, inr, String, false, not, none, some, List, [],
  ◌∷◌, map, Memᴰ, arith, eqb, eqb_iff, filter, find?, All, Distinct, Bool-cases, Option-cases,
  find?-mem, find?-none, mem_of_map, All-tabulate, key_injective, filter_congr, filter_id,
  All-filter, All-map, All-of_map, filter-map, Distinct-filter, Distinct-append, All-append,
  All-map_imp,
}
use workflowui.Toast.{
  Toast, ToastLevel, Timer, Pending, ToastState, Event, init, add, remove, timeout, delete_pending,
  disarm, add_toast, clear_pending, remove_toast, run_timer, fire, step, run,
}

abbrev pub entry : Timer → Pending
entry t = record { id = t.toast; handle = t.handle }

pub record IsValid (s : ToastState) : Type 0 where
  -- `pendingTimers` holds the handle of each armed timer under its toast
  pub pending : s.pending_timers ≡ map entry s.armed
  -- each toast on screen has one timer, and each timer a toast
  pub shown : map Toast.id s.toasts ≡ map Timer.toast s.armed
  pub toasts_distinct : Distinct (map Timer.toast s.armed)
  pub handles_distinct : Distinct (map Timer.handle s.armed)
  pub ids_used : All (λ (i : ℕ). i ≤ s.toast_id) (map Timer.toast s.armed)
  pub handles_used : All (λ (h : ℕ). h < s.next_handle) (map Timer.handle s.armed)

pub IsValid-init : IsValid init
IsValid-init = record {
  pending = refl;
  shown = refl;
  toasts_distinct = tt;
  handles_distinct = tt;
  ids_used = tt;
  handles_used = tt;
}

module _ (s : ToastState) (v : IsValid s) where
  open v use {pending, shown, toasts_distinct, handles_distinct, ids_used, handles_used}

  -- an armed timer is known by its handle and by its toast
  same_timer :
      {x y : Timer} → Memᴰ x s.armed → Memᴰ y s.armed → eqb x.handle y.handle ≡ eqb x.toast y.toast
  same_timer {x} {y} m n = elim (Bool-cases (eqb x.handle y.handle)) [
    | inl e ↦
        let p = key_injective Timer.handle s.armed handles_distinct m n ((eqb_iff _ _).0 e) in
        e ∙ sym ((eqb_iff _ _).1 (ap Timer.toast p))
    | inr other ↦ elim (Bool-cases (eqb x.toast y.toast)) [
      | inl e ↦
          let p = key_injective Timer.toast s.armed toasts_distinct m n ((eqb_iff _ _).0 e) in
          (eqb_iff _ _).1 (ap Timer.handle p) ∙ sym e
      | inr unlike ↦ other ∙ sym unlike
    ]
  ]

  module _ (t : Timer) (m : Memᴰ t s.armed) where
    disarm_by_toast : disarm t.handle s.armed ≡ filter (λ x. not (eqb x.toast t.toast)) s.armed
    disarm_by_toast =
        filter_congr _ _ s.armed (All-tabulate _ s.armed (λ x n. ap not (same_timer n m)))

    toasts_left :
        map Timer.toast (disarm t.handle s.armed)
        ≡ filter (λ i. not (eqb i t.toast)) (map Timer.toast s.armed)
    toasts_left =
        ap (map Timer.toast) disarm_by_toast
        ∙ sym (filter-map Timer.toast (λ i. not (eqb i t.toast)) s.armed)

    handles_left :
        map Timer.handle (disarm t.handle s.armed)
        ≡ filter (λ h. not (eqb h t.handle)) (map Timer.handle s.armed)
    handles_left = sym (filter-map Timer.handle (λ h. not (eqb h t.handle)) s.armed)

    dismissed-IsValid : IsValid (run_timer (some t) s)
    unfolding run_timer
    dismissed-IsValid = record {
      pending =
          ap (delete_pending t.toast) pending
          ∙ filter-map entry (λ p. not (eqb p.id t.toast)) s.armed
          ∙ ap (map entry) (sym disarm_by_toast);
      shown =
          sym (filter-map Toast.id (λ i. not (eqb i t.toast)) s.toasts)
          ∙ ap (filter (λ i. not (eqb i t.toast))) shown
          ∙ sym toasts_left;
      toasts_distinct = rw toasts_left (Distinct-filter _ _ toasts_distinct);
      handles_distinct = rw handles_left (Distinct-filter _ _ handles_distinct);
      ids_used = rw toasts_left (All-filter _ _ _ ids_used);
      handles_used = rw handles_left (All-filter _ _ _ handles_used);
    }

  add_toast-IsValid : (message : String) (level : ToastLevel) → IsValid (add_toast message level s)
  unfolding add_toast
  add_toast-IsValid message level = record {
    pending = rw (pending, map-append);
    shown = simp map-append (rw shown);
    toasts_distinct =
        rw map-append
          (Distinct-append _ _ toasts_distinct (All-map_imp _ _ _ (λ i h e. omega arith) ids_used));
    handles_distinct = rw map-append (
        Distinct-append _ _ handles_distinct
          (All-map_imp _ _ _ (λ i h e. omega arith) handles_used));
    ids_used =
        rw map-append
          (All-append _ _ (All-map_imp _ _ _ (λ i h. omega arith) ids_used) (omega arith));
    handles_used =
        rw map-append
          (All-append _ _ (All-map_imp _ _ _ (λ i h. omega arith) handles_used) (omega arith));
  }

  fire-IsValid : (handle : ℕ) → IsValid (fire handle s)
  unfolding fire run_timer
  fire-IsValid handle = elim (Option-cases (find? (λ t. eqb t.handle handle) s.armed)) [
    | inl missing ↦ rw missing v
    | inr (t, found) ↦ rw found (dismissed-IsValid t (find?-mem _ s.armed t found).0)
  ]

  -- removing a toast by hand is what its timer would have done
  remove_toast-eq_timeout :
      (t : Timer) (p : Pending) (id : ℕ)
      → find? (λ q. eqb q.id id) s.pending_timers ≡ some p
      → entry t ≡ p
      → remove_toast id s ≡ run_timer (some t) s
  unfolding remove_toast clear_pending run_timer
  remove_toast-eq_timeout t p id found e =
      let same : p.id ≡ id = (eqb_iff _ _).0 (find?-mem _ s.pending_timers p found).1 in
      rw found (rw (← same, ← e))

  unlisted :
      (id : ℕ)
      → find? (λ q. eqb q.id id) s.pending_timers ≡ none
      → All (λ (i : ℕ). eqb i id ≡ false) (map Timer.toast s.armed)
  unlisted id missing = All-of_map Timer.toast _ s.armed (
      All-map entry (λ p. eqb p.id id ≡ false) s.armed
        (subst (All (λ p. eqb p.id id ≡ false)) pending (find?-none _ _ missing)))

  remove_toast_missing :
      (id : ℕ) → find? (λ q. eqb q.id id) s.pending_timers ≡ none → remove_toast id s ≡ s
  unfolding remove_toast clear_pending
  remove_toast_missing id missing =
      let absent =
        All-map Toast.id (λ i. eqb i id ≡ false) s.toasts
          (subst (All (λ (i : ℕ). eqb i id ≡ false)) (sym shown) (unlisted id missing)) in
      rw missing (
        ap (λ (l : List Toast). record s { toasts = l })
          (filter_id _ s.toasts (All-map_imp _ _ s.toasts (λ t e. ap not e) absent)))

  pub remove_toast-IsValid : (id : ℕ) → IsValid (remove_toast id s)
  remove_toast-IsValid id = elim (Option-cases (find? (λ p. eqb p.id id) s.pending_timers)) [
    | inl missing ↦ rw (remove_toast_missing id missing) v
    | inr (p, found) ↦
        let (t, m, e) =
          mem_of_map entry s.armed
            (subst (Memᴰ p) pending (find?-mem _ s.pending_timers p found).0) in
        rw (remove_toast-eq_timeout t p id found e) (dismissed-IsValid t m)
  ]

step-IsValid : (e : Event) (s : ToastState) → IsValid s → IsValid (step e s)
unfolding step
step-IsValid (add message level) s v = add_toast-IsValid s v message level
step-IsValid (remove id) s v = remove_toast-IsValid s v id
step-IsValid (timeout handle) s v = fire-IsValid s v handle

pub run_from-IsValid : (es : List Event) (s : ToastState) → IsValid s → IsValid (run es s)
unfolding run
run_from-IsValid [] s v = v
run_from-IsValid (e ∷ es) s v = run_from-IsValid es (step e s) (step-IsValid e s v)

-- After any calls and timeouts from the start, toast ids and timer handles are distinct and already
-- used up, every toast on screen has exactly one armed timer, in the same order, and
-- `pendingTimers` maps exactly these toasts to the handles of their timers.
pub run-IsValid : (es : List Event) → IsValid (run es init)
run-IsValid es = run_from-IsValid es init IsValid-init
