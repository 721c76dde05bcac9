-- ===== src/Properties/Chart.antt =====
-- The samples and the ranking of `OutputBarChart`. `A` is the type of the values.
use workflowui.Base.{
  ℕ, zero, suc, ◌+◌, ◌-◌, ◌/◌, Bool, List, [], ◌∷◌, length, drop, max, if◌then◌else◌,
}

abbrev pub max_bars : ℕ
max_bars = 100

-- `Math.max(1, Math.floor(values.length / maxBars))`
abbrev pub step_of : ℕ → ℕ
step_of n = max 1 (n / max_bars)

pub record Sample (A : Type 0) : Type 0 where
  pub idx : ℕ
  pub val : A

module _ {A : Type 0} where
  -- the loop from `i` on, whose condition looks at what is left of the values
  unfoldable pub sample_from : ℕ → ℕ → ℕ → List A → List (Sample A)
  sample_from zero step i values = []
  sample_from (suc fuel) step i [] = []
  sample_from (suc fuel) step i (v ∷ vs) =
      record { idx = i; val = v } ∷ sample_from fuel step (i + step) (drop (step - 1) vs)

  -- with more fuel than there are values
  unfoldable pub sampled : List A → List (Sample A)
  unfolding sample_from
  sampled values = sample_from (suc (length values)) (step_of (length values)) 0 values

  abbrev pub take : ℕ → List (Sample A) → List (Sample A)
  take zero xs = []
  take (suc n) [] = []
  take (suc n) (x ∷ xs) = x ∷ take n xs

  abbrev pub with_index : ℕ → List A → List (Sample A)
  with_index i [] = []
  with_index i (v ∷ vs) = record { idx = i; val = v } ∷ with_index (i + 1) vs

  -- `sort((a, b) => b.v - a.v)` is stable; `above` is `>`
  module _ (above : A → A → Bool) where
    abbrev pub insert : Sample A → List (Sample A) → List (Sample A)
    insert s [] = s ∷ []
    insert s (t ∷ ts) = let rest = insert s ts in if above t.val s.val then t ∷ rest else s ∷ t ∷ ts

    abbrev pub sort : List (Sample A) → List (Sample A)
    sort [] = []
    sort (s ∷ ss) = insert s (sort ss)

    unfoldable pub top5 : List A → List (Sample A)
    top5 values = take 5 (sort (with_index 0 values))
