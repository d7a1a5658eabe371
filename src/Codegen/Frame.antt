-- ===== src/Codegen/Frame.antt =====
-- The room that a function's prolog makes for its variables.
use cc.Base.{Bool-cases, inl, inr, ◌==◌, ℕ, ◌+◌, ◌*◌, ◌%◌, ◌≤◌, ◌<◌, ◌≡◌, arith, ◌^◌, if◌then◌else◌}
use cc.Base.Int.{pos, rem}
use cc.Base.Outcome.{ok}
use cc.Base.CInt.{add_int}
use cc.Codegen.{variable_space, is_zero}

add_pos : (a b : ℕ) → a + b < 2 ^ 31 → add_int (pos a) (pos b) ≡ ok (pos (a + b))
add_pos a b h = ground arith

-- The second sum of variable_space, by the first.
round_up :
    (n : ℕ)
    → n + 8 < 2 ^ 31
    → n % 8 ≡ 0
    → (space : ℕ) × ((if is_zero (rem (pos n) 16) then ok (pos n) else add_int (pos n) (pos 8))
        ≡ ok (pos space))
      × (space % 16 ≡ 0)
      × (n ≤ space)
      × (space ≤ n + 8)
round_up n h d = elim (Bool-cases (n % 16 == 0)) [
  | inl e ↦ (n, ground arith, ground arith, omega arith, omega arith)
  | inr e ↦ (n + 8, ground (arith, add_pos n 8), ground arith, omega arith, omega arith)
]

-- For words as variables the prolog's room is a multiple of 16, holds the parameters and the
-- variables, and is larger by 8 at most, where it stays within an `int`.
pub variable_space-aligned :
    (argnum words : ℕ)
    → argnum * 8 + words * 8 + 8 < 2 ^ 31
    → (space : ℕ) × (variable_space argnum (pos (words * 8)) ≡ ok (pos space))
      × (space % 16 ≡ 0)
      × (argnum * 8 + words * 8 ≤ space)
      × (space ≤ argnum * 8 + words * 8 + 8)
unfolding variable_space
variable_space-aligned argnum words h =
    let (space, made, even, low, high) = round_up (argnum * 8 + words * 8) h (omega arith) in
    (space, rw (add_pos (argnum * 8) (words * 8) (omega arith)) made, even, low, high)
