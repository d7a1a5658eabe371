-- ===== src/Machine/Call.antt =====
-- A call of a function on the processor: rsp and rbp in the frame's set-up and at its end, up to `ret`.
-- What is pushed ends at the address `top`, so rsp is `top` less the bytes that are on the stack.
use cc.Base.{
  ℕ, zero, suc, ◌-◌, ◌*◌, ◌/◌, ◌≤◌, ◌≡◌, refl, List, [], ◌∷◌, ◌++◌, All, length-append, drop-length,
  Option, none, some, arith, length, drop, ◌∙◌,
}
use cc.Base.Int.{pos}
use cc.Asm.{
  Line, rbp, rsp, pop, mov, sub_imm, ret, text, data_section, intel_syntax, globl_main, function,
}
use cc.Machine.{Layout, Machine, step, exec, ◌>>=◌, pop_stack}

-- rsp.
abbrev pub stack_pointer : ℕ → List ℕ → ℕ
stack_pointer top stack = top - 8 * length stack

-- Words that nothing is written to yet.
abbrev pub room : ℕ → List ℕ → List ℕ
room zero stack = stack
room (suc n) stack = 0 ∷ room n stack

-- What is on the stack when rsp is the address.
abbrev pub unwind : ℕ → ℕ → List ℕ → List ℕ
unwind top pointer stack = drop (length stack - (top - pointer) / 8) stack

-- A line that is not the last of a call (what rsp is lowered by is in words): the lines about rsp and rbp, those that only the assembler
-- reads, and the instructions of the processor.
abbrev pub control : Layout → ℕ → Line → Machine → Option Machine
control w top (mov rbp rsp) m = some (record m { frame = stack_pointer top m.stack })
control w top (mov rsp rbp) m = some (record m { stack = unwind top m.frame m.stack })
control w top (sub_imm rsp (pos n)) m = some (record m { stack = room (n / 8) m.stack })
control w top (pop rbp) m = do (v, s) ← pop_stack m.stack; some (record m { frame = v; stack = s })
control w top intel_syntax m = some m
control w top globl_main m = some m
control w top text m = some m
control w top data_section m = some m
control w top (function t) m = some m
control w top l m = step w l m

-- A run up to the first `ret`, which takes the address of the caller from the stack.
unfoldable pub call_function : Layout → ℕ → List Line → Machine → Option Machine
call_function w top [] m = none
call_function w top (ret ∷ ls) m = do (v, s) ← pop_stack m.stack; some (record m { stack = s })
call_function w top (l ∷ ls) m = control w top l m >>= call_function w top ls

-- A line that only the processor's instructions are about.
abbrev pub Ordinary : Line → Type 0
Ordinary l =
    (w : Layout) (top : ℕ) (ls : List Line) (m : Machine)
    → call_function w top (l ∷ ls) m ≡ (step w l m >>= call_function w top ls)

pub call_function-append :
    (w : Layout) (top : ℕ) (xs ys : List Line) (m : Machine)
    → All Ordinary xs
    → call_function w top (xs ++ ys) m ≡ (exec w xs m >>= call_function w top ys)
unfolding exec
call_function-append w top [] ys m h = refl
call_function-append w top (l ∷ xs) ys m (o, h) =
    o w top (xs ++ ys) m ∙ after (step w l m) (λ m'. call_function-append w top xs ys m' h)
  where
    after :
        (r : Option Machine)
        → ((m' : Machine)
            → call_function w top (xs ++ ys) m' ≡ (exec w xs m' >>= call_function w top ys))
        → (r >>= call_function w top (xs ++ ys)) ≡ ((r >>= exec w xs) >>= call_function w top ys)
    after none ih = refl
    after (some m') ih = ih m'

-- The frame is left as it was entered.
pub unwind-frame :
    (top : ℕ) (vs stack : List ℕ)
    → 8 * length stack ≤ top
    → unwind top (stack_pointer top stack) (vs ++ stack) ≡ stack
unwind-frame top vs stack le =
    let over : length (vs ++ stack) - (top - stack_pointer top stack) / 8 ≡ length vs =
      omega (arith, length-append vs stack) in
    rw over (drop-length vs stack)
