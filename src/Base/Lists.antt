-- ===== src/Base/Lists.antt =====
-- Lists measured by native numbers, and filters by Boolean tests.
use Prim.Native.Nat.{ℕ, zero, suc, ◌+◌, ◌-◌, ◌≤◌}
use mathlib.Core.Path.{◌≡◌, refl, ap, sym, subst, ◌∙◌}
use mathlib.Core.Logic.{◌≢◌, ◌⊎◌, inl, inr}
use mathlib.Core.Bool.{Bool, true, false, ◌&&◌, ◌||◌}
use mathlib.Core.List.{List, [], ◌∷◌, ◌++◌, map, Memᴰ}
use mathlib.Core.Option.{Option, none, some}
use native.Mathlib.Omega.{arith}
use native.Mathlib.Nat.{zero-add, suc-add}
use package.workflowui.Base.Tests.{Bool-cases, if◌then◌else◌}

module _ {ℓ} {A : Type ℓ} where
  abbrev pub length : List A → ℕ
  length [] = 0
  length (x ∷ xs) = suc (length xs)

  -- `xs.slice(n)` and its complement.
  abbrev pub drop : ℕ → List A → List A
  drop zero xs = xs
  drop (suc n) [] = []
  drop (suc n) (x ∷ xs) = drop n xs

  -- `xs.filter(p)`, `xs.find(p)`, `xs.some(p)` and `xs.every(p)`, which run in tests.
  abbrev pub filter : (A → Bool) → List A → List A
  filter p [] = []
  filter p (x ∷ xs) = let rest = filter p xs in if p x then x ∷ rest else rest

  abbrev pub find? : (A → Bool) → List A → Option A
  find? p [] = none
  find? p (x ∷ xs) = if p x then some x else find? p xs

  abbrev pub any : (A → Bool) → List A → Bool
  any p [] = false
  any p (x ∷ xs) = p x || any p xs

  abbrev pub all : (A → Bool) → List A → Bool
  all p [] = true
  all p (x ∷ xs) = p x && all p xs

  abbrev pub All {κ} : (A → Type κ) → List A → Type κ
  All P [] = Unit
  All P (x ∷ xs) = P x × All P xs

module _ {ℓ} {A : Type ℓ} where
  pub length-append : (xs ys : List A) → length (xs ++ ys) ≡ length xs + length ys
  length-append [] ys = omega arith
  length-append (x ∷ xs) ys = omega (arith, length-append xs ys)

  pub length-drop : (n : ℕ) (xs : List A) → length (drop n xs) ≡ length xs - n
  length-drop zero xs = omega arith
  length-drop (suc n) [] = omega arith
  length-drop (suc n) (x ∷ xs) = omega (arith, length-drop n xs)

  pub drop-append : (n : ℕ) (xs ys : List A) → n ≤ length xs → drop n (xs ++ ys) ≡ drop n xs ++ ys
  drop-append zero xs ys h = refl
  drop-append (suc n) [] ys h = elim h [ ]
  drop-append (suc n) (x ∷ xs) ys h = drop-append n xs ys (omega arith)

  drop-nil : (n : ℕ) → drop {A = A} n [] ≡ []
  drop-nil zero = refl
  drop-nil (suc n) = refl

  pub drop-drop : (n m : ℕ) (xs : List A) → drop m (drop n xs) ≡ drop (n + m) xs
  drop-drop zero m xs = rw zero-add
  drop-drop (suc n) m [] = rw (drop-nil m, drop-nil (suc n + m))
  drop-drop (suc n) m (x ∷ xs) = rw suc-add (drop-drop n m xs)

module _ {ℓ κ} {A : Type ℓ} {B : Type κ} where
  pub length-map : (f : A → B) (xs : List A) → length (map f xs) ≡ length xs
  length-map f [] = refl
  length-map f (x ∷ xs) = ap suc (length-map f xs)

-- no element twice, by the value of a key
abbrev pub Distinct {ℓ} : {A : Type ℓ} → List A → Type ℓ
Distinct [] = Unit
Distinct (x ∷ xs) = All (λ y. x ≢ y) xs × Distinct xs

module _ {ℓ} {A : Type ℓ} where
  pub All-append {κ} :
      (P : A → Type κ) (xs : List A) {y : A} → All P xs → P y → All P (xs ++ y ∷ [])
  All-append P [] h p = (p, tt)
  All-append P (x ∷ xs) h p = (h.0, All-append P xs h.1 p)

  pub All-map_imp {κ μ} :
      (P : A → Type κ) (Q : A → Type μ) (xs : List A) → ((x : A) → P x → Q x) → All P xs → All Q xs
  All-map_imp P Q [] f h = tt
  All-map_imp P Q (x ∷ xs) f h = (f x h.0, All-map_imp P Q xs f h.1)

  pub All-mem {κ} : (P : A → Type κ) {x : A} (xs : List A) → All P xs → Memᴰ x xs → P x
  All-mem P [] h m = elim m [ ]
  All-mem P (y ∷ xs) h (Memᴰ.head e) = subst P (sym e) h.0
  All-mem P (y ∷ xs) h (Memᴰ.tail m) = All-mem P xs h.1 m

  pub find?-mem :
      (p : A → Bool) (xs : List A) (x : A) → find? p xs ≡ some x → Memᴰ x xs × (p x ≡ true)
  find?-mem p [] x h = cc
  find?-mem p (y ∷ xs) x h = elim (Bool-cases (p y)) [
    | inl yes_p ↦
        let e : y ≡ x = ground arith in (Memᴰ.head (sym e), subst (λ z. p z ≡ true) e yes_p)
    | inr no_p ↦ let (m, q) = find?-mem p xs x (rw no_p at h) in (Memᴰ.tail m, q)
  ]

  pub find?-none : (p : A → Bool) (xs : List A) → find? p xs ≡ none → All (λ x. p x ≡ false) xs
  find?-none p [] h = tt
  find?-none p (y ∷ xs) h = elim (Bool-cases (p y)) [
    | inl yes_p ↦ absurd (ground arith)
    | inr no_p ↦ (no_p, find?-none p xs (rw no_p at h))
  ]

  pub filter_id : (p : A → Bool) (xs : List A) → All (λ x. p x ≡ true) xs → filter p xs ≡ xs
  filter_id p [] h = refl
  filter_id p (x ∷ xs) h = rw (h.0, filter_id p xs h.1)

  pub filter_congr :
      (p q : A → Bool) (xs : List A) → All (λ x. p x ≡ q x) xs → filter p xs ≡ filter q xs
  filter_congr p q [] h = refl
  filter_congr p q (x ∷ xs) h = ground (arith, h.0, filter_congr p q xs h.1)

  pub All-filter {κ} :
      (P : A → Type κ) (p : A → Bool) (xs : List A) → All P xs → All P (filter p xs)
  All-filter P p [] h = tt
  All-filter P p (x ∷ xs) h = elim (Bool-cases (p x)) [
    | inl e ↦ rw e (h.0, All-filter P p xs h.1)
    | inr e ↦ rw e (All-filter P p xs h.1)
  ]

module _ {ℓ κ} {A : Type ℓ} {B : Type κ} (f : A → B) where
  pub All-map {μ} : (P : B → Type μ) (xs : List A) → All P (map f xs) → All (λ x. P (f x)) xs
  All-map P [] h = tt
  All-map P (x ∷ xs) h = (h.0, All-map P xs h.1)

  pub All-of_map {μ} : (P : B → Type μ) (xs : List A) → All (λ x. P (f x)) xs → All P (map f xs)
  All-of_map P [] h = tt
  All-of_map P (x ∷ xs) h = (h.0, All-of_map P xs h.1)

  -- filtering by a test of the key commutes with taking the keys
  pub filter-map :
      (p : B → Bool) (xs : List A) → filter p (map f xs) ≡ map f (filter (λ x. p (f x)) xs)
  filter-map p [] = refl
  filter-map p (x ∷ xs) = ground (arith, filter-map p xs)

pub Distinct-filter {ℓ} :
    {A : Type ℓ} (p : A → Bool) (xs : List A) → Distinct xs → Distinct (filter p xs)
Distinct-filter p [] h = tt
Distinct-filter p (x ∷ xs) h = elim (Bool-cases (p x)) [
  | inl e ↦ rw e (All-filter (λ y. x ≢ y) p xs h.0, Distinct-filter p xs h.1)
  | inr e ↦ rw e (Distinct-filter p xs h.1)
]

pub Distinct-append {ℓ} :
    {A : Type ℓ} (xs : List A) (y : A) → Distinct xs → All (λ x. x ≢ y) xs → Distinct (xs ++ y ∷ [])
Distinct-append [] y h n = (tt, tt)
Distinct-append (x ∷ xs) y h n = (All-append (λ z. x ≢ z) xs h.0 n.0, Distinct-append xs y h.1 n.1)

pub All-tabulate {ℓ κ} :
    {A : Type ℓ} (P : A → Type κ) (xs : List A) → ((x : A) → Memᴰ x xs → P x) → All P xs
All-tabulate P [] f = tt
All-tabulate P (x ∷ xs) f = (f x (Memᴰ.head refl), All-tabulate P xs (λ y m. f y (Memᴰ.tail m)))

-- elements with distinct keys are determined by their keys
pub key_injective {ℓ κ} :
    {A : Type ℓ} {B : Type κ} (f : A → B) (xs : List A) {x y : A}
    → Distinct (map f xs)
    → Memᴰ x xs
    → Memᴰ y xs
    → f x ≡ f y
    → x ≡ y
key_injective f [] d m n e = elim m [ ]
key_injective f (z ∷ xs) d (Memᴰ.head p) (Memᴰ.head q) e = p ∙ sym q
key_injective f (z ∷ xs) d (Memᴰ.head p) (Memᴰ.tail n) e =
    absurd (All-mem (λ w. f z ≢ f w) xs (All-map f (λ w. f z ≢ w) xs d.0) n (ap f (sym p) ∙ e))
key_injective f (z ∷ xs) d (Memᴰ.tail m) (Memᴰ.head q) e =
    absurd (All-mem (λ w. f z ≢ f w) xs (All-map f (λ w. f z ≢ w) xs d.0) m (ap f (sym q) ∙ sym e))
key_injective f (z ∷ xs) d (Memᴰ.tail m) (Memᴰ.tail n) e = key_injective f xs d.1 m n e

pub mem_of_map {ℓ κ} :
    {A : Type ℓ} {B : Type κ} (f : A → B) (xs : List A) {y : B}
    → Memᴰ y (map f xs)
    → (x : A) × Memᴰ x xs × (f x ≡ y)
mem_of_map f [] m = elim m [ ]
mem_of_map f (x ∷ xs) (Memᴰ.head e) = (x, Memᴰ.head refl, sym e)
mem_of_map f (x ∷ xs) (Memᴰ.tail m) = let (z, n, e) = mem_of_map f xs m in (z, Memᴰ.tail n, e)

pub mem_map {ℓ κ} :
    {A : Type ℓ} {B : Type κ} (f : A → B) (xs : List A) {x : A} → Memᴰ x xs → Memᴰ (f x) (map f xs)
mem_map f [] m = elim m [ ]
mem_map f (y ∷ xs) (Memᴰ.head e) = Memᴰ.head (ap f e)
mem_map f (y ∷ xs) (Memᴰ.tail m) = Memᴰ.tail (mem_map f xs m)

-- what a filter lets through passes its test
pub filter-All {ℓ} : {A : Type ℓ} (p : A → Bool) (xs : List A) → All (λ x. p x ≡ true) (filter p xs)
filter-All p [] = tt
filter-All p (x ∷ xs) = elim (Bool-cases (p x)) [
  | inl e ↦ rw e (e, filter-All p xs)
  | inr e ↦ rw e (filter-All p xs)
]

pub List-cases {ℓ} :
    {A : Type ℓ} (xs : List A) → (xs ≡ []) ⊎ ((x : A) × (rest : List A) × (xs ≡ x ∷ rest))
List-cases [] = inl refl
List-cases (x ∷ xs) = inr (x, xs, refl)

module _ {ℓ} {A : Type ℓ} where
  pub mem-append_left : {a : A} (xs ys : List A) → Memᴰ a xs → Memᴰ a (xs ++ ys)
  mem-append_left [] ys m = elim m [ ]
  mem-append_left (x ∷ xs) ys (Memᴰ.head e) = Memᴰ.head e
  mem-append_left (x ∷ xs) ys (Memᴰ.tail m) = Memᴰ.tail (mem-append_left xs ys m)

  pub mem-append_right : {a : A} (xs ys : List A) → Memᴰ a ys → Memᴰ a (xs ++ ys)
  mem-append_right [] ys m = m
  mem-append_right (x ∷ xs) ys m = Memᴰ.tail (mem-append_right xs ys m)

pub All-both {ℓ κ μ} :
    {A : Type ℓ} (P : A → Type κ) (Q : A → Type μ) (xs : List A)
    → All P xs
    → All Q xs
    → All (λ x. P x × Q x) xs
All-both P Q [] p q = tt
All-both P Q (x ∷ xs) p q = ((p.0, q.0), All-both P Q xs p.1 q.1)
