-- ===== src/Menu/Focus.antt =====
-- Where the keys of the menu move the focus.
use native.Mathlib.Nat.{mod-eq_of_lt, mod-add-mod, add-mod_right}
use workflowui.Base.{◌∙◌, ℕ, zero, suc, ◌+◌, ◌-◌, ◌%◌, ◌<◌, ◌≡◌, ap, Option, none, some, arith}
use workflowui.Menu.{MenuKey, arrow_down, arrow_up, home, end_key, other_key, handle_menu_key_down}

-- `items[i]!` is an item
abbrev pub IsItem : ℕ → Option ℕ → Type 0
IsItem n none = Unit
IsItem n (some i) = i < n

-- Every key focuses an item that exists, wherever the focus was before.
pub handle_menu_key_down_bounds :
    (key : MenuKey) (n : ℕ) (current : Option ℕ) → IsItem n (handle_menu_key_down key n current)
unfolding handle_menu_key_down
handle_menu_key_down_bounds key zero current = tt
handle_menu_key_down_bounds arrow_down (suc n) current = omega arith
handle_menu_key_down_bounds arrow_up (suc n) current = omega arith
handle_menu_key_down_bounds home (suc n) current = omega arith
handle_menu_key_down_bounds end_key (suc n) current = omega arith
handle_menu_key_down_bounds other_key (suc n) current = tt

full_turn : (n i : ℕ) → i < suc n → (i + suc n) % suc n ≡ i
full_turn n i h = add-mod_right i (suc n) ∙ mod-eq_of_lt h

down_up : (n i : ℕ) → i < suc n → ((i + 1) % suc n + suc n - 1) % suc n ≡ i
down_up n i h =
    ap (λ (k : ℕ). k % suc n) (omega arith)
    ∙ mod-add-mod (i + 1) (suc n) n
    ∙ ap (λ (k : ℕ). k % suc n) (omega arith)
    ∙ full_turn n i h

up_down : (n i : ℕ) → i < suc n → ((i + suc n - 1) % suc n + 1) % suc n ≡ i
up_down n i h =
    mod-add-mod (i + suc n - 1) (suc n) 1
    ∙ ap (λ (k : ℕ). k % suc n) (omega arith)
    ∙ full_turn n i h

-- In a menu with the focus on an item, the arrow keys undo one another, over the ends as well.
pub arrow_keys_inverse :
    (n i : ℕ)
    → i < n
    → (handle_menu_key_down arrow_up n (handle_menu_key_down arrow_down n (some i)) ≡ some i)
      × (handle_menu_key_down arrow_down n (handle_menu_key_down arrow_up n (some i)) ≡ some i)
unfolding handle_menu_key_down
arrow_keys_inverse zero i h = absurd (omega arith)
arrow_keys_inverse (suc n) i h = (ap some (down_up n i h), ap some (up_down n i h))
