-- ===== src/Store/Doubles.antt =====
-- The numbers of `nodeIdCounter` in frontend/src/store/workflowStore.ts are doubles: a sum or a
-- number that is read is exact up to 2 ^ 53 and above that rounded to 53 binary digits.
use workflowui.Base.{
  ℕ, zero, suc, ◌+◌, ◌*◌, ◌/◌, ◌%◌, ◌≤◌, ◌≡◌, refl, true, arith, ltb, leb, if◌then◌else◌,
}

-- the distance of the doubles at a number, with more fuel than the number has binary digits
spacing : ℕ → ℕ → ℕ
spacing zero n = 1
spacing (suc fuel) n =
    let rest = 2 * spacing fuel (n / 2) in if ltb n 9007199254740992 then 1 else rest

-- to the nearest multiple, and from the middle to the even one
nearest : ℕ → ℕ → ℕ
nearest n step =
    let low = n / step in
    let over = 2 * (n % step) in
    if ltb over step
    then low * step
    else if ltb step over
    then (low + 1) * step
    else (low + low % 2) * step

rounded : ℕ → ℕ
unfolding spacing nearest
rounded n = nearest n (spacing 1024 n)

-- the double of a natural number below 2 ^ 1024
unfoldable pub to_double : ℕ → ℕ
unfolding rounded
to_double n = if leb n 9007199254740992 then n else rounded n

pub to_double_exact : (n : ℕ) → n ≤ 9007199254740992 → to_double n ≡ n
unfolding to_double
to_double_exact n h = let small : leb n 9007199254740992 ≡ true = ground arith in rw small refl

sticks : to_double (9007199254740992 + 1) ≡ 9007199254740992
unfolding to_double
sticks = refl

ties_up : to_double 9007199254740995 ≡ 9007199254740996
unfolding to_double
ties_up = refl
