-- ===== src/Store/Names.antt =====
-- Names of nodes: `node_${n}` of `generateNodeId`, and the pattern /node_(\d+)/ with which an import
-- reads the number back.
use Prim.Native.String.{String}
use Prim.Native.Char.{Char, code}
use workflowui.Base.{
  concat, strip_prefix, ℕ, zero, suc, ◌+◌, ◌-◌, ◌*◌, ◌/◌, ◌%◌, ◌<◌, ◌≡◌, refl, ◌∙◌, ap, Bool, true,
  ◌&&◌, Option, none, some, inl, inr, arith, ltb, leb, if◌then◌else◌, Bool-cases,
}

digit_char : ℕ → Char
digit_char zero = "0"
digit_char (suc zero) = "1"
digit_char (suc (suc zero)) = "2"
digit_char (suc (suc (suc zero))) = "3"
digit_char (suc (suc (suc (suc zero)))) = "4"
digit_char (suc (suc (suc (suc (suc zero))))) = "5"
digit_char (suc (suc (suc (suc (suc (suc zero)))))) = "6"
digit_char (suc (suc (suc (suc (suc (suc (suc zero))))))) = "7"
digit_char (suc (suc (suc (suc (suc (suc (suc (suc zero)))))))) = "8"
digit_char (suc (suc (suc (suc (suc (suc (suc (suc (suc n))))))))) = "9"

-- the decimal digits of a number before a text, with more fuel than the number
digits : ℕ → ℕ → String → String
unfolding digit_char
digits zero n out = out
digits (suc fuel) n out =
    let rest = digits fuel (n / 10) (String.◌∷◌ (digit_char (n % 10)) out) in
    if ltb n 10 then String.◌∷◌ (digit_char n) out else rest

unfoldable pub node_name : ℕ → String
unfolding digits
node_name n = concat "node_" (digits (n + 1) n "")

is_digit : Char → Bool
is_digit c = leb 48 (code c) && leb (code c) 57

-- `parseInt` on the digits that come next
scan : ℕ → String → ℕ
unfolding is_digit
scan n String.[] = n
scan n (String.◌∷◌ c s) = if is_digit c then scan (n * 10 + (code c - 48)) s else n

number_at : String → Option ℕ
unfolding is_digit scan
number_at String.[] = none
number_at (String.◌∷◌ c s) = if is_digit c then some (scan (code c - 48) s) else none

match_here : String → Option ℕ
unfolding number_at
match_here s = elim (strip_prefix "node_" s) [ none ↦ none | some rest ↦ number_at rest ]

-- `id.match(/node_(\d+)/)` with `parseInt` of its group: the first place where the pattern fits
unfoldable pub match_node : String → Option ℕ
unfolding match_here
match_node String.[] = none
match_node (String.◌∷◌ c s) =
    let later = match_node s in
    elim (match_here (String.◌∷◌ c s)) [ none ↦ later | some n ↦ some n ]

match_example : match_node "copy_of_node_412b" ≡ some 412
unfolding match_node
match_example = refl

name_example : node_name 1203 ≡ "node_1203"
unfolding node_name
name_example = refl

code-digit_char : (d : ℕ) → d < 10 → code (digit_char d) ≡ 48 + d
unfolding digit_char
code-digit_char zero h = refl
code-digit_char (suc zero) h = refl
code-digit_char (suc (suc zero)) h = refl
code-digit_char (suc (suc (suc zero))) h = refl
code-digit_char (suc (suc (suc (suc zero)))) h = refl
code-digit_char (suc (suc (suc (suc (suc zero))))) h = refl
code-digit_char (suc (suc (suc (suc (suc (suc zero)))))) h = refl
code-digit_char (suc (suc (suc (suc (suc (suc (suc zero))))))) h = refl
code-digit_char (suc (suc (suc (suc (suc (suc (suc (suc zero)))))))) h = refl
code-digit_char (suc (suc (suc (suc (suc (suc (suc (suc (suc n))))))))) h =
    let e : n ≡ 0 = omega arith in rw e

is_digit-digit_char : (d : ℕ) → d < 10 → is_digit (digit_char d) ≡ true
unfolding is_digit
is_digit-digit_char d h = ground (arith, code-digit_char d h)

number_at-digits :
    (fuel n : ℕ) (out : String) → n < fuel → number_at (digits fuel n out) ≡ some (scan n out)
unfolding digits number_at scan
number_at-digits zero n out h = absurd (omega arith)
number_at-digits (suc fuel) n out h = elim (Bool-cases (ltb n 10)) [
  | inl small ↦
      let d : n < 10 = ground arith in
      rw small (
        rw (is_digit-digit_char n d, code-digit_char n d)
          (ap some (ap (λ (k : ℕ). scan k out) (omega arith))))
  | inr large ↦
      let d : n % 10 < 10 = omega arith in
      let v : n / 10 < fuel = ground arith in
      rw large (
        number_at-digits fuel (n / 10) _ v
        ∙ rw (is_digit-digit_char (n % 10) d, code-digit_char (n % 10) d)
            (ap some (ap (λ (k : ℕ). scan k out) (omega arith))))
]

pub match_node-node_name : (n : ℕ) → match_node (node_name n) ≡ some n
unfolding match_node node_name scan
match_node-node_name n = rw (number_at-digits (n + 1) n "" (omega arith), match_node)
