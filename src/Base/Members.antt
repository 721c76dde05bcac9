-- ===== src/Base/Members.antt =====
-- Members of filtered lists, and what `some` and `Set.has` find.
use mathlib.Core.Path.{◌≡◌, refl, ap, sym, subst}
use mathlib.Core.Logic.{inl, inr}
use mathlib.Core.Bool.{Bool, true}
use mathlib.Core.List.{List, [], ◌∷◌, ◌++◌, Memᴰ}
use native.Mathlib.Omega.{arith}
use package.workflowui.Base.Tests.{Bool-cases}
use package.workflowui.Base.Lists.{filter, any}

module _ {ℓ} {A : Type ℓ} where
  pub mem-filter :
      (p : A → Bool) (x : A) (xs : List A) → Memᴰ x xs → p x ≡ true → Memᴰ x (filter p xs)
  mem-filter p x [] m e = elim m [ ]
  mem-filter p x (y ∷ ys) (Memᴰ.head same) e =
      let kept : p y ≡ true = rw (← same) e in rw kept (Memᴰ.head same)
  mem-filter p x (y ∷ ys) (Memᴰ.tail m) e = elim (Bool-cases (p y)) [
    | inl kept ↦ rw kept (Memᴰ.tail (mem-filter p x ys m e))
    | inr gone ↦ rw gone (mem-filter p x ys m e)
  ]

  pub mem_of_filter :
      (p : A → Bool) (x : A) (xs : List A) → Memᴰ x (filter p xs) → Memᴰ x xs × (p x ≡ true)
  mem_of_filter p x [] m = elim m [ ]
  mem_of_filter p x (y ∷ xs) m = elim (Bool-cases (p y)) [
    | inl yes_p ↦
        let n : Memᴰ x (y ∷ filter p xs) = rw yes_p at m in
        elim n [
          | Memᴰ.head e ↦ (Memᴰ.head e, subst (λ z. p z ≡ true) (sym e) yes_p)
          | Memᴰ.tail n ↦ let (k, q) = mem_of_filter p x xs n in (Memᴰ.tail k, q)
        ]
    | inr no_p ↦ let (k, q) = mem_of_filter p x xs (rw no_p at m) in (Memᴰ.tail k, q)
  ]

  pub mem_of_any :
      (p : A → Bool) (xs : List A) → any p xs ≡ true → (x : A) × Memᴰ x xs × (p x ≡ true)
  mem_of_any p [] h = cc
  mem_of_any p (y ∷ xs) h = elim (Bool-cases (p y)) [
    | inl yes_p ↦ (y, Memᴰ.head refl, yes_p)
    | inr no_p ↦ let (x, m, q) = mem_of_any p xs (rw no_p at h) in (x, Memᴰ.tail m, q)
  ]

  pub any_of_mem : (p : A → Bool) (x : A) (xs : List A) → Memᴰ x xs → p x ≡ true → any p xs ≡ true
  any_of_mem p x [] m e = elim m [ ]
  any_of_mem p x (y ∷ xs) (Memᴰ.head same) e = let here : p y ≡ true = rw (← same) e in rw here refl
  any_of_mem p x (y ∷ xs) (Memᴰ.tail m) e = let later = any_of_mem p x xs m e in ground arith

  pub append_one : (xs : List A) (y : A) (zs : List A) → (xs ++ y ∷ []) ++ zs ≡ xs ++ y ∷ zs
  append_one [] y zs = refl
  append_one (x ∷ xs) y zs = ap (λ l. x ∷ l) (append_one xs y zs)
