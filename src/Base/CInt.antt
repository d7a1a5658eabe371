-- ===== src/Base/CInt.antt =====
-- The arithmetic of C's `int`.
use Prim.Native.Nat.{ℕ, suc, ◌+◌, ◌-◌, ◌*◌, ◌/◌, ◌%◌, ◌^◌}
use mathlib.Core.Bool.{Bool, ◌&&◌}
use cc.Base.Tests.{◌==◌, ltb, leb, if◌then◌else◌}
use cc.Base.Int.{ℤ, pos, negsuc, neg, sub_ℕ, pos_part, neg_part, ◌+ℤ◌}
use cc.Base.Outcome.{Result, ok, err, fault}

-- A signed sum that leaves the range of `int` has no meaning in C.
abbrev pub in_int : ℤ → Bool
in_int v = ltb (pos_part v) (2 ^ 31) && leb (neg_part v) (2 ^ 31)

abbrev pub add_int : ℤ → ℤ → Result ℤ
add_int a b = if in_int (a +ℤ b) then ok (a +ℤ b) else err fault

abbrev product : ℤ → ℤ → ℤ
product a b =
    sub_ℕ (pos_part a * pos_part b + neg_part a * neg_part b)
      (pos_part a * neg_part b + neg_part a * pos_part b)

abbrev pub mul_int : ℤ → ℤ → Result ℤ
mul_int a b = if in_int (product a b) then ok (product a b) else err fault

-- The quotient, rounded towards zero.
abbrev quotient : ℤ → ℤ → ℤ
quotient (pos a) (pos b) = pos (a / b)
quotient (pos a) (negsuc b) = neg (a / suc b)
quotient (negsuc a) (pos b) = neg (suc a / b)
quotient (negsuc a) (negsuc b) = pos (suc a / suc b)

abbrev pub div_int : ℤ → ℤ → Result ℤ
div_int a b =
    if pos_part b + neg_part b == 0
    then err fault
    else if in_int (quotient a b)
    then ok (quotient a b)
    else err fault

-- A conversion to a 32-bit `int`, and one to a `size_t` of 64 bits.
abbrev pub to_int : ℕ → ℤ
to_int n = let w = n % 2 ^ 32 in if ltb w (2 ^ 31) then pos w else negsuc (2 ^ 32 - w - 1)

abbrev pub to_size : ℤ → ℕ
to_size (pos n) = n
to_size (negsuc n) = 2 ^ 64 - (n + 1)

-- `a *= n` on an `int` with a `size_t`: the product is one of `size_t`, and is cut down to an `int`.
abbrev pub mul_size : ℤ → ℕ → ℤ
mul_size a n = to_int (to_size a * n % 2 ^ 64)
