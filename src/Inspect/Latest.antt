-- ===== src/Inspect/Latest.antt =====
-- Only the latest call shows its result.
use workflowui.Base.{
  ℕ, ◌+◌, ◌≤◌, ◌≡◌, ◌≢◌, refl, ◌∙◌, ap, false, true, List, [], ◌∷◌, ◌++◌, All, All-map_imp, arith,
  eqb, eqb_iff, eqb-false_iff,
}
use workflowui.Inspect.{
  InspectState, Ending, answered, failed, inspect, commit, resume, resume_all, reset,
}

module _ {G : Type 0} where
  -- none of the ends is that of the call with the number `seq`
  abbrev pub AreOthers : ℕ → List (ℕ × Ending G) → Type 0
  AreOthers seq = All (λ r. r.0 ≢ seq)

  resume_all-AreOthers :
      (rs : List (ℕ × Ending G)) (s : InspectState G) → AreOthers s.seq rs → resume_all rs s ≡ s
  unfolding resume_all
  resume_all-AreOthers [] s h = refl
  resume_all-AreOthers ((seq, o) ∷ rs) s h =
      let stale : eqb seq s.seq ≡ false = (eqb-false_iff _ _).1 h.0 in
      rw stale (resume_all-AreOthers rs s h.1)

  resume_all-append :
      (rs ts : List (ℕ × Ending G)) (s : InspectState G)
      → resume_all (rs ++ ts) s ≡ resume_all ts (resume_all rs s)
  unfolding resume_all
  resume_all-append [] ts s = refl
  resume_all-append ((seq, o) ∷ rs) ts s = resume_all-append rs ts (resume seq o s)

  seq-commit : (o : Ending G) (s : InspectState G) → (commit o s).seq ≡ s.seq
  unfolding commit
  seq-commit (answered g) s = refl
  seq-commit (failed e) s = refl

  resume_latest : (o : Ending G) (s : InspectState G) → resume s.seq o s ≡ commit o s
  unfolding resume
  resume_latest o s = let own : eqb s.seq s.seq ≡ true = (eqb_iff _ _).1 refl in rw own

  -- When a model is inspected, the end of that call alone decides what is shown, whichever earlier
  -- calls end before it or after it.
  pub resume_all-inspect :
      (before after : List (ℕ × Ending G)) (o : Ending G) (s : InspectState G)
      → AreOthers (s.seq + 1) before
      → AreOthers (s.seq + 1) after
      → resume_all (before ++ (s.seq + 1, o) ∷ after) (inspect s) ≡ commit o (inspect s)
  unfolding resume_all inspect
  resume_all-inspect before after o s b a =
      let shown = commit o (inspect s) in
      resume_all-append before ((s.seq + 1, o) ∷ after) (inspect s)
      ∙ ap (resume_all ((s.seq + 1, o) ∷ after)) (resume_all-AreOthers before (inspect s) b)
      ∙ ap (resume_all after) (resume_latest o (inspect s))
      ∙ resume_all-AreOthers after shown (rw (seq-commit o (inspect s)) a)

  -- After `reset` no call that was in flight shows anything.
  pub resume_all-reset :
      (rs : List (ℕ × Ending G)) (s : InspectState G)
      → All (λ r. r.0 ≤ s.seq) rs
      → resume_all rs (reset s) ≡ reset s
  unfolding reset
  resume_all-reset rs s h =
      resume_all-AreOthers rs (reset s) (All-map_imp _ _ rs (λ r e. omega arith) h)
