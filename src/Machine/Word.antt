-- ===== src/Machine/Word.antt =====
-- 64-bit words as numbers below 2 ^ 64, in two's complement, and the memory of bytes.
use Prim.Native.Nat.{bit_and, bit_or, bit_xor}
use cc.Base.{
  ℕ, zero, suc, ◌+◌, ◌-◌, ◌*◌, ◌/◌, ◌%◌, ◌^◌, Bool, true, false, Option, none, some, ◌==◌, ltb, leb,
  if◌then◌else◌, ◌≡◌, ◌<◌, ◌≤◌, arith, not,
}
use mathlib.Core.Bool.{xor}
use cc.Base.Int.{ℤ, pos, negsuc}
use cc.Asm.{Cond, equal, not_equal, less, less_equal}

abbrev pub word_mod : ℕ
word_mod = 2 ^ 64

-- An operand of an instruction.
abbrev pub of_int : ℤ → ℕ
of_int (pos n) = n % word_mod
of_int (negsuc n) = word_mod - n % word_mod - 1

unfoldable pub add_word : ℕ → ℕ → ℕ
add_word v u = (v + u) % word_mod

unfoldable pub sub_word : ℕ → ℕ → ℕ
sub_word v u = (v + word_mod - u % word_mod) % word_mod

unfoldable pub mul_word : ℕ → ℕ → ℕ
mul_word v u = v * u % word_mod

unfoldable pub and_word : ℕ → ℕ → ℕ
and_word v u = bit_and v u % word_mod

unfoldable pub or_word : ℕ → ℕ → ℕ
or_word v u = bit_or v u % word_mod

unfoldable pub xor_word : ℕ → ℕ → ℕ
xor_word v u = bit_xor v u % word_mod

-- A number of `n` halves is negative from `n` on; its magnitude.
abbrev pub is_negative : ℕ → ℕ → Bool
is_negative half v = leb half v

abbrev pub magnitude : ℕ → ℕ → ℕ
magnitude half v = if is_negative half v then half + half - v else v

-- The word of a magnitude and a sign.
abbrev pub signed : Bool → ℕ → ℕ
signed true n = (word_mod - n) % word_mod
signed false n = n

-- cqo: all bits of rdx are the sign of rax.
unfoldable pub sign_word : ℕ → ℕ
sign_word v = if is_negative (2 ^ 63) v then word_mod - 1 else 0

-- The quotient towards 0 and the remainder with the dividend's sign, of a dividend given by its sign
-- and magnitude; no quotient by 0 or beyond the range of a word.
abbrev pub divide : Bool → ℕ → ℕ → Option (ℕ × ℕ)
divide negative n u =
    let q = n / magnitude (2 ^ 63) u in
    let minus = xor negative (is_negative (2 ^ 63) u) in
    if u == 0
    then none
    else if (if minus then leb q (2 ^ 63) else ltb q (2 ^ 63))
    then some (signed minus q, signed negative (n % magnitude (2 ^ 63) u))
    else none

-- idiv: the dividend is rdx:rax, in 128 bits.
unfoldable pub idiv_words : ℕ → ℕ → ℕ → Option (ℕ × ℕ)
idiv_words high low u =
    let n = high * word_mod + low in divide (is_negative (2 ^ 127) n) (magnitude (2 ^ 127) n) u

-- Signed division of one word by another.
unfoldable pub divide_words : ℕ → ℕ → Option (ℕ × ℕ)
divide_words v u = divide (is_negative (2 ^ 63) v) (magnitude (2 ^ 63) v) u

dividend_sign :
    (v : ℕ)
    → v < word_mod
    → is_negative (2 ^ 127) (sign_word v * word_mod + v) ≡ is_negative (2 ^ 63) v
unfolding sign_word
dividend_sign v lt = ground arith

dividend_magnitude :
    (v : ℕ) → v < word_mod → magnitude (2 ^ 127) (sign_word v * word_mod + v) ≡ magnitude (2 ^ 63) v
unfolding sign_word
dividend_magnitude v lt = ground arith

-- After cqo, idiv divides rax alone.
pub idiv_words-sign_word :
    (v u : ℕ) → v < word_mod → idiv_words (sign_word v) v u ≡ divide_words v u
unfolding idiv_words sign_word divide_words
idiv_words-sign_word v u lt = λ i. divide (dividend_sign v lt i) (dividend_magnitude v lt i) u

-- Signed order: the sign bit is turned, and the words compared.
abbrev pub biased : ℕ → ℕ
biased v = (v + 2 ^ 63) % word_mod

abbrev pub holds : Cond → ℕ → ℕ → Bool
holds equal v u = v == u
holds not_equal v u = not (v == u)
holds less v u = ltb (biased v) (biased u)
holds less_equal v u = leb (biased v) (biased u)

abbrev pub Memory : Type 0
Memory = ℕ → ℕ

-- The `n` bytes from an address on, and the eight of a word.
unfoldable pub load_bytes : ℕ → Memory → ℕ → ℕ
load_bytes zero m p = 0
load_bytes (suc n) m p = m (p % word_mod) + 256 * load_bytes n m (p + 1)

unfoldable pub load_word : Memory → ℕ → ℕ
unfolding load_bytes
load_word m p = load_bytes 8 m p

unfoldable pub store_word : Memory → ℕ → ℕ → Memory
store_word m p v b =
    let k = (b + word_mod - p) % word_mod in if ltb k 8 then v / 256 ^ k % 256 else m b

-- The results are words.
pub add_word-lt : (v u : ℕ) → add_word v u < word_mod
unfolding add_word
add_word-lt v u = omega arith

pub sub_word-lt : (v u : ℕ) → sub_word v u < word_mod
unfolding sub_word
sub_word-lt v u = omega arith

pub mul_word-lt : (v u : ℕ) → mul_word v u < word_mod
unfolding mul_word
mul_word-lt v u = omega arith

pub and_word-lt : (v u : ℕ) → and_word v u < word_mod
unfolding and_word
and_word-lt v u = omega arith

pub or_word-lt : (v u : ℕ) → or_word v u < word_mod
unfolding or_word
or_word-lt v u = omega arith

pub xor_word-lt : (v u : ℕ) → xor_word v u < word_mod
unfolding xor_word
xor_word-lt v u = omega arith

signed-lt : (b : Bool) (n : ℕ) → n < word_mod → signed b n < word_mod
signed-lt true n h = omega arith
signed-lt false n h = omega arith

magnitude-le : (v : ℕ) → v < word_mod → magnitude (2 ^ 63) v ≤ 2 ^ 63
magnitude-le v h = ground arith

divided :
    (z fits : Bool) {v u q r : ℕ}
    → v < word_mod
    → u < word_mod
    → if◌then◌else◌ {A = Option (ℕ × ℕ)} z none
        (if◌then◌else◌ {A = Option (ℕ × ℕ)} fits (some (v, u)) none)
      ≡ some (q, r)
    → (q < word_mod) × (r < word_mod)
divided z fits hv hu h = ground arith

divide-lt :
    (s : Bool) (n u q r : ℕ)
    → divide s n u ≡ some (q, r)
    → n ≤ 2 ^ 63
    → (q < word_mod) × (r < word_mod)
divide-lt s n u q r h le =
    let k = magnitude (2 ^ 63) u in
    let minus = xor s (is_negative (2 ^ 63) u) in
    divided (u == 0) (if minus then leb (n / k) (2 ^ 63) else ltb (n / k) (2 ^ 63))
      (signed-lt minus (n / k) (omega arith)) (signed-lt s (n % k) (omega arith)) h

pub divide_words-lt :
    (v u q r : ℕ) → v < word_mod → divide_words v u ≡ some (q, r) → (q < word_mod) × (r < word_mod)
unfolding divide_words
divide_words-lt v u q r lt h = divide-lt _ _ u q r h (magnitude-le v lt)

-- `movzb` keeps the byte that `set… al` wrote.
pub low_byte :
    (v : ℕ) (c : Bool) → (v - v % 256 + (if c then 1 else 0)) % 256 ≡ (if c then 1 else 0)
low_byte v true = omega arith
low_byte v false = omega arith
