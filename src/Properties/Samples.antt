-- ===== src/Properties/Samples.antt =====
-- How many bars the chart has.
use native.Mathlib.Nat.{suc-mul, zero-mul, mul-le-mul_right}
use workflowui.Base.{
  ℕ, zero, suc, ◌+◌, ◌-◌, ◌*◌, ◌≤◌, ◌<◌, ◌≡◌, refl, ap, List, [], ◌∷◌, length, drop, length-drop,
  drop-drop, Bool-cases, ltb, List-cases, inl, inr, ◌∙◌, sym, arith, Option, none, some, All,
}
use workflowui.Properties.{step_of, sample_from, sampled}

step_positive : (n : ℕ) → 0 < step_of n
step_positive n = omega arith

few : (bars n : ℕ) → bars * step_of n ≤ n + (step_of n - 1) → bars < 200
few bars n h = elim (Bool-cases (ltb bars 200)) [
  | inl small ↦ ground arith
  | inr large ↦
      let many : 200 ≤ bars = ground arith in
      let product : 200 * step_of n ≤ bars * step_of n = mul-le-mul_right (step_of n) many in
      absurd (omega (arith, product, h))
]

-- `values[i]`
abbrev pub at : {A : Type 0} → ℕ → List A → Option A
at i [] = none
at zero (v ∷ vs) = some v
at (suc i) (v ∷ vs) = at i vs

module _ {A : Type 0} where
  sample_from-nil :
      (fuel step i : ℕ) (vs : List A) → vs ≡ [] → length (sample_from fuel step i vs) ≡ 0
  unfolding sample_from
  sample_from-nil zero step i vs e = refl
  sample_from-nil (suc fuel) step i [] e = refl
  sample_from-nil (suc fuel) step i (v ∷ vs) e = cc

  sample_from_bound :
      (fuel step i : ℕ) (vs : List A)
      → 0 < step
      → length (sample_from fuel step i vs) * step ≤ length vs + (step - 1)
  unfolding sample_from
  sample_from_bound zero step i vs h = omega arith
  sample_from_bound (suc fuel) step i [] h = omega arith
  sample_from_bound (suc fuel) step i (v ∷ vs) h =
      let rest = drop (step - 1) vs in
      let bars = length (sample_from fuel step (i + step) rest) in
      let product = suc-mul bars step in
      elim (List-cases rest) [
        | inl nothing_left ↦
            let none_more : bars * step ≡ 0 =
              ap (λ (b : ℕ). b * step) (sample_from-nil fuel step (i + step) rest nothing_left)
              ∙ zero-mul step in
            omega (arith, product, none_more)
        | inr (x, xs, e) ↦ omega (
          arith,
          product,
          length-drop (step - 1) vs,
          ap length e,
          sample_from_bound fuel step (i + step) rest h,
        )
      ]

  -- the fuel is enough: the bars reach to the end of the values
  sample_from_covers :
      (fuel step i : ℕ) (vs : List A)
      → 0 < step
      → length vs < fuel
      → length vs ≤ length (sample_from fuel step i vs) * step
  unfolding sample_from
  sample_from_covers zero step i vs h more = absurd (omega arith)
  sample_from_covers (suc fuel) step i [] h more = omega arith
  sample_from_covers (suc fuel) step i (v ∷ vs) h more =
      let rest = drop (step - 1) vs in
      let left = length-drop (step - 1) vs in
      let product = suc-mul (length (sample_from fuel step (i + step) rest)) step in
      let fewer : length rest < fuel = omega (arith, left, more) in
      omega (arith, product, left, sample_from_covers fuel step (i + step) rest h fewer)

  at-drop : (i : ℕ) (xs : List A) → at i xs ≡ at 0 (drop i xs)
  at-drop zero xs = refl
  at-drop (suc i) [] = refl
  at-drop (suc i) (x ∷ xs) = at-drop i xs

  drop-cons : (step : ℕ) (v : A) (vs : List A) → 0 < step → drop (step - 1) vs ≡ drop step (v ∷ vs)
  drop-cons zero v vs h = absurd (omega arith)
  drop-cons (suc step) v vs h = ap (λ (k : ℕ). drop k vs) (omega arith)

  sample_from_values :
      (all_values : List A) (fuel step i : ℕ) (vs : List A)
      → vs ≡ drop i all_values
      → 0 < step
      → All (λ s. at s.idx all_values ≡ some s.val) (sample_from fuel step i vs)
  unfolding sample_from
  sample_from_values all_values zero step i vs e h = tt
  sample_from_values all_values (suc fuel) step i [] e h = tt
  sample_from_values all_values (suc fuel) step i (v ∷ vs) e h = (
    at-drop i all_values ∙ ap (at 0) (sym e),
    sample_from_values all_values fuel step (i + step) (drop (step - 1) vs)
        (drop-cons step v vs h ∙ ap (drop step) e ∙ drop-drop i step all_values) h,
  )

  -- The chart has fewer than 200 bars however many values there are, and at least one if there is a
  -- value; each bar has the value that stands at its index, and bars a step apart reach to the end of
  -- the values, so that the loop has not run out of fuel.
  pub sampled_lem :
      (v : A) (vs : List A)
      → (0 < length (sampled (v ∷ vs)))
        × (length (sampled (v ∷ vs)) < 200)
        × (length (v ∷ vs) ≤ length (sampled (v ∷ vs)) * step_of (length (v ∷ vs)))
        × All (λ s. at s.idx (v ∷ vs) ≡ some s.val) (sampled (v ∷ vs))
  unfolding sampled sample_from
  sampled_lem v vs =
      let n = length (v ∷ vs) in
      (
        omega arith,
        few (length (sampled (v ∷ vs))) n
            (sample_from_bound (suc n) (step_of n) 0 (v ∷ vs) (step_positive n)),
        sample_from_covers (suc n) (step_of n) 0 (v ∷ vs) (step_positive n) (omega arith),
        sample_from_values (v ∷ vs) (suc n) (step_of n) 0 (v ∷ vs) refl (step_positive n),
      )
