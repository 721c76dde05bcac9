-- ===== src/Toast/Lifecycle.antt =====
-- What dismisses a toast, and what a dismissal leaves alone.
use workflowui.Base.{
  ℕ, ◌≡◌, ◌≢◌, ap, ◌∙◌, subst, inl, inr, not, some, Memᴰ, arith, eqb, eqb_iff, find?, All,
  Option-cases, All-mem, find?-mem, find?-none, mem_of_map, mem_map, filter-All, All-map_imp,
  All-map, All-of_map, key_injective,
}
use workflowui.Toast.{
  Toast, Timer, ToastState, without_toast, clear_pending, remove_toast, run_timer, fire,
}
use workflowui.Toast.Invariant.{IsValid, remove_toast-IsValid}

module _ (s : ToastState) (v : IsValid s) where
  fire_armed : (t : Timer) → Memᴰ t s.armed → fire t.handle s ≡ run_timer (some t) s
  unfolding fire
  fire_armed t m = elim (Option-cases (find? (λ x. eqb x.handle t.handle) s.armed)) [
    | inl missing ↦
        let e = All-mem _ s.armed (find?-none (λ x. eqb x.handle t.handle) s.armed missing) m in
        absurd (ground arith)
    | inr (x, found) ↦
        let (n, same) = find?-mem (λ x. eqb x.handle t.handle) s.armed x found in
        let e = key_injective Timer.handle s.armed v.handles_distinct n m ((eqb_iff _ _).0 same) in
        rw (found, e)
  ]

  -- Every toast on screen has an armed timer, whose timeout takes that toast, and no other, off the
  -- screen.
  pub toast_expires :
      (x : Toast)
      → Memᴰ x s.toasts
      → (t : Timer) × Memᴰ t s.armed
        × (t.toast ≡ x.id)
        × ((fire t.handle s).toasts ≡ without_toast x.id s.toasts)
  unfolding run_timer
  toast_expires x m =
      let (t, n, e) =
        mem_of_map Timer.toast s.armed (subst (Memᴰ x.id) v.shown (mem_map Toast.id s.toasts m)) in
      (t, n, e, ap ToastState.toasts (fire_armed t n) ∙ ap (λ (i : ℕ). without_toast i s.toasts) e)

  toasts-remove_toast : (id : ℕ) → (remove_toast id s).toasts ≡ without_toast id s.toasts
  unfolding remove_toast clear_pending
  toasts-remove_toast id = elim (Option-cases (find? (λ p. eqb p.id id) s.pending_timers)) [
    | inl missing ↦ rw missing
    | inr (p, found) ↦ rw found
  ]

  gone_toasts : (id : ℕ) → All (λ (t : Toast). t.id ≢ id) (remove_toast id s).toasts
  gone_toasts id = rw (toasts-remove_toast id) (
      All-map_imp _ _ _ (λ t e p. ground (arith, eqb_iff t.id id))
        (filter-All (λ t. not (eqb t.id id)) s.toasts))

  -- After `removeToast(id)` no toast on screen has that id, and no armed timer is left that would
  -- remove it later.
  pub removed_for_good :
      (id : ℕ)
      → All (λ (t : Toast). t.id ≢ id) (remove_toast id s).toasts
        × All (λ (t : Timer). t.toast ≢ id) (remove_toast id s).armed
  removed_for_good id =
      let left = remove_toast-IsValid s v id in
      let ids = All-of_map Toast.id (λ (i : ℕ). i ≢ id) _ (gone_toasts id) in
      (
        gone_toasts id,
        All-map Timer.toast (λ i. i ≢ id) _ (subst (All (λ (i : ℕ). i ≢ id)) left.shown ids),
      )
