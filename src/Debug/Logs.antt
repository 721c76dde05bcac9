-- ===== src/Debug/Logs.antt =====
-- The log of the debug store holds the newest entries of its history, at most `max_log_entries`.
use mathlib.Core.Path.{◌≡⟨◌⟩◌, ◌∎}
use mathlib.Core.List.{append-nil, append_assoc}
use workflowui.Base.{
  ℕ, ◌+◌, ◌-◌, ◌≤◌, ◌≡◌, refl, sym, ap, ◌∙◌, map, List, [], ◌∷◌, ◌++◌, length, drop, arith,
  length-append, length-drop, drop-append, drop-drop, inl, inr, leb, Bool-cases,
}
use workflowui.Debug.{DebugState, DebugLogEntry, LogInput, add_log, clear_logs, max_log_entries}

module _ {ℓ} {V : Type ℓ} where
  -- the entries of a history that the store keeps
  abbrev pub newest : List (DebugLogEntry V) → List (DebugLogEntry V)
  newest h = drop (length h - max_log_entries) h

  abbrev pub stamp : ℕ × LogInput V → DebugLogEntry V
  stamp p = record { timestamp = p.0; entry = p.1 }

  -- a sequence of calls of `addLog`
  pub log_all : List (ℕ × LogInput V) → DebugState V → DebugState V
  log_all [] s = s
  log_all (p ∷ ps) s = log_all ps (add_log p.0 p.1 s)

  newest-append :
      (h : List (DebugLogEntry V)) (y : DebugLogEntry V) (n : ℕ)
      → length h + 1 - max_log_entries ≡ length h - max_log_entries + n
      → length h - max_log_entries + n ≤ length h
      → newest (h ++ y ∷ []) ≡ drop n (newest h) ++ y ∷ []
  newest-append h y n e fits =
      newest (h ++ y ∷ [])
      ≡⟨ ap (λ (k : ℕ). drop k (h ++ y ∷ [])) (omega (arith, length-append h (y ∷ []))) ⟩
        drop (length h - max_log_entries + n) (h ++ y ∷ [])
      ≡⟨ drop-append (length h - max_log_entries + n) h (y ∷ []) fits ⟩
        drop (length h - max_log_entries + n) h ++ y ∷ []
      ≡⟨ ap (λ (l : List (DebugLogEntry V)). l ++ y ∷ [])
          (sym (drop-drop (length h - max_log_entries) n h)) ⟩
        drop n (newest h) ++ y ∷ [] ∎

  length-newest :
      (h l : List (DebugLogEntry V))
      → l ≡ newest h
      → length l ≡ length h - (length h - max_log_entries)
  length-newest h l p = ap length p ∙ length-drop (length h - max_log_entries) h

  logs-add_log :
      (now : ℕ) (e : LogInput V) (s : DebugState V) (h : List (DebugLogEntry V))
      → s.logs ≡ newest h
      → (add_log now e s).logs ≡ newest (h ++ stamp (now, e) ∷ [])
  unfolding add_log
  logs-add_log now e s h p =
      let kept = length-newest h s.logs p in
      let y = stamp (now, e) in
      elim (Bool-cases (leb max_log_entries (length s.logs))) [
        | inl full ↦
            let n = length s.logs - max_log_entries + 1 in
            rw full (
              ap (λ (l : List (DebugLogEntry V)). drop n l ++ y ∷ []) p
              ∙ sym (newest-append h y n (ground arith) (ground arith)))
        | inr room ↦ rw room (
            ap (λ (l : List (DebugLogEntry V)). l ++ y ∷ []) p
            ∙ sym (newest-append h y 0 (ground arith) (ground arith)))
      ]

  log_all-newest :
      (ps : List (ℕ × LogInput V)) (s : DebugState V) (h : List (DebugLogEntry V))
      → s.logs ≡ newest h
      → (log_all ps s).logs ≡ newest (h ++ map stamp ps)
  unfolding log_all
  log_all-newest [] s h p = p ∙ ap newest (sym (append-nil h))
  log_all-newest (q ∷ ps) s h p =
      log_all-newest ps (add_log q.0 q.1 s) (h ++ stamp q ∷ []) (logs-add_log q.0 q.1 s h p)
      ∙ ap newest (append_assoc h (stamp q ∷ []) (map stamp ps))

  -- After any calls of `addLog` on a cleared log, the log is the last 2000 of the entries logged,
  -- in order (all of them, if there are fewer).
  pub logs-log_all :
      (ps : List (ℕ × LogInput V)) (s : DebugState V)
      → (log_all ps (clear_logs s)).logs ≡ newest (map stamp ps)
  logs-log_all ps s = log_all-newest ps (clear_logs s) [] (unfold clear_logs in refl)
