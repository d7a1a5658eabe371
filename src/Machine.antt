-- ===== src/Machine.antt =====
-- The processor that the code of expressions runs on: a specification of the instructions that
-- codegen.c prints for them, as the manual of x86-64 states them. Registers hold 64-bit words, the
-- memory is a function from addresses to bytes, little-endian, and what is pushed is a list, apart
-- from the memory that the program's addresses reach. Calls and jumps are not run.
pub mod Word
pub mod Call
use cc.Base.{
  ℕ, suc, zero, ◌+◌, ◌-◌, ◌*◌, ◌/◌, ◌%◌, ◌^◌, Bool, true, false, List, [], ◌∷◌, ◌++◌, Option, none,
  some, ◌==◌, ltb, leb, if◌then◌else◌, ◌≡◌, refl,
}
use cc.Base.Int.{ℤ}
use cc.Machine.Word.{
  word_mod, of_int, add_word, sub_word, mul_word, and_word, or_word, xor_word, sign_word,
  idiv_words, holds, Memory, load_word, store_word,
}
use cc.Asm.{
  Reg, rax, rdi, rdx, rbp, Cond, Line, push, pop, push_imm, mov, mov_imm, load, load_byte, store,
  lea, lea_literal, add_reg, sub_reg, imul_reg, and_reg, or_reg, cmp_reg, add_imm, sub_imm, xor_imm,
  cmp_imm, cqo, idiv, set_al, movzb,
}

-- Where the assembler and the linker put the names and the literals.
pub record Layout : Type 0 where
  pub symbol : List ℕ → ℕ
  pub literal : ℕ → ℕ

-- `left` and `right` are the operands of the last comparison, from which the flags come.
pub record Machine : Type 0 where
  pub a : ℕ
  pub d : ℕ
  pub x : ℕ
  pub frame : ℕ
  pub left : ℕ
  pub right : ℕ
  pub stack : List ℕ
  pub memory : Memory

-- rax, rdi, rdx and rbp.
abbrev pub get : Reg → Machine → Option ℕ
get rax m = some m.a
get rdi m = some m.d
get rdx m = some m.x
get rbp m = some m.frame
get _ m = none

abbrev pub put : Reg → ℕ → Machine → Option Machine
put rax v m = some (record m { a = v })
put rdi v m = some (record m { d = v })
put rdx v m = some (record m { x = v })
put _ v m = none

infixl 1 ◌>>=◌
abbrev pub ◌>>=◌ {ℓ κ} : {A : Type ℓ} {B : Type κ} → Option A → (A → Option B) → Option B
none >>= f = none
some a >>= f = f a

abbrev pub pop_stack : List ℕ → Option (ℕ × List ℕ)
pop_stack [] = none
pop_stack (v ∷ s) = some (v, s)

abbrev pub update : (ℕ → ℕ → ℕ) → Reg → Reg → Machine → Option Machine
update f r s m = do v ← get r m; w ← get s m; put r (f v w) m

abbrev pub update_imm : (ℕ → ℕ → ℕ) → Reg → ℤ → Machine → Option Machine
update_imm f r k m = do v ← get r m; put r (f v (of_int k)) m

-- One instruction; `none` is a fault, or an instruction that is not run here.
unfoldable pub step : Layout → Line → Machine → Option Machine
step w (push r) m = do v ← get r m; some (record m { stack = v ∷ m.stack })
step w (pop r) m = do (v, s) ← pop_stack m.stack; put r v (record m { stack = s })
step w (push_imm k) m = some (record m { stack = of_int k ∷ m.stack })
step w (mov r s) m = do v ← get s m; put r v m
step w (mov_imm r k) m = put r (of_int k) m
step w load m = some (record m { a = load_word m.memory m.a })
step w load_byte m = some (record m { a = m.memory m.a })
step w (store r) m = do v ← get r m; some (record m { memory = store_word m.memory m.a v })
step w (lea t) m = some (record m { a = w.symbol t % word_mod })
step w (lea_literal k) m = some (record m { a = w.literal k % word_mod })
step w (add_reg r s) m = update add_word r s m
step w (sub_reg r s) m = update sub_word r s m
step w (imul_reg r s) m = update mul_word r s m
step w (and_reg r s) m = update and_word r s m
step w (or_reg r s) m = update or_word r s m
step w (cmp_reg r s) m = do v ← get r m; u ← get s m; some (record m { left = v; right = u })
step w (cmp_imm r k) m = do v ← get r m; some (record m { left = v; right = of_int k })
step w (add_imm r k) m = update_imm add_word r k m
step w (sub_imm r k) m = update_imm sub_word r k m
step w (xor_imm r k) m = update_imm xor_word r k m
step w cqo m = some (record m { x = sign_word m.a })
step w (idiv r) m = do v ← get r m; (q, s) ← idiv_words m.x m.a v; some (record m { a = q; x = s })
step w (set_al c) m =
    some (record m { a = m.a - m.a % 256 + (if holds c m.left m.right then 1 else 0) })
step w movzb m = some (record m { a = m.a % 256 })
step w _ m = none

-- A run of straight-line code.
unfoldable pub exec : Layout → List Line → Machine → Option Machine
exec w [] m = some m
exec w (l ∷ ls) m = step w l m >>= exec w ls

pub exec-append :
    (w : Layout) (xs ys : List Line) (m : Machine)
    → exec w (xs ++ ys) m ≡ (exec w xs m >>= exec w ys)
unfolding exec
exec-append w [] ys m = refl
exec-append w (l ∷ xs) ys m = go (step w l m) (exec-append w xs ys)
  where
    go :
        (r : Option Machine)
        → ((m' : Machine) → exec w (xs ++ ys) m' ≡ (exec w xs m' >>= exec w ys))
        → (r >>= exec w (xs ++ ys)) ≡ ((r >>= exec w xs) >>= exec w ys)
    go none ih = refl
    go (some m') ih = ih m'
