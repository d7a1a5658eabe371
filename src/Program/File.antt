-- ===== src/Program/File.antt =====
-- main.c on a file with the text of a function `main` that returns an arithmetic expression.
use cc.Base.{
  ℕ, suc, ◌+◌, ◌*◌, ◌≤◌, ◌<◌, ◌≡◌, ◌≢◌, refl, Bool, true, false, List, [], ◌∷◌, ◌++◌, All, some,
  codes, length, arith, ltb, ◌==◌, if◌then◌else◌, Bool-cases, inl, inr, length-append, lt→ltb,
}
use cc.Base.Outcome.{ok}
use cc.Asm.{Line}
use cc.Codegen.Runs.{Registers, state, IsBytes}
use cc.Machine.{Layout}
use cc.Machine.Word.{Memory}
use cc.Machine.Call.{call_function}
use cc.Parser.Print.{Op, Expr, text, below, decimal, spell}
use cc.Tokenizer.Numbers.{IsDigit, decimal-All}
use cc.Program.{filename_from, ends_line, buffer, Files, read_file, compile, main}
use cc.Program.Arithmetic.{value}
use cc.Program.Places.{up_to_nul-All}
use cc.Program.Spelled.{Small}
use cc.Program.Source.{source, tail}
use cc.Program.Value.{Returns, compile-value}

-- A text without a NUL and with a newline at its end.
abbrev IsText : List ℕ → Type 0
IsText p = All (λ c. c ≢ 0) p × (ends_line p ≡ true)

cons-IsText : (c : ℕ) (p : List ℕ) → c ≢ 0 → IsText p → IsText (c ∷ p)
cons-IsText c [] n (h, e) = absurd (cc)
cons-IsText c (d ∷ p) n (h, e) = ((n, h), e)

append-IsText : (xs p : List ℕ) → All (λ c. c ≢ 0) xs → IsText p → IsText (xs ++ p)
append-IsText [] p h t = t
append-IsText (x ∷ xs) p (n, h) t = cons-IsText x (xs ++ p) n (append-IsText xs p h t)

digits-nonzero : (xs : List ℕ) → All IsDigit xs → All (λ c. c ≢ 0) xs
digits-nonzero [] h = tt
digits-nonzero (x ∷ xs) ((le, _), h) = (λ z. omega arith, digits-nonzero xs h)

text-nonzero : (o : Op) → All (λ c. c ≢ 0) (text o)
text-nonzero o = ground arith

IsText-if : (b : Bool) (p q : List ℕ) → IsText p → IsText q → IsText (if b then p else q)
IsText-if true p q h k = h
IsText-if false p q h k = k

spell-IsText : (e : Expr) (k : ℕ) (rest : List ℕ) → IsText rest → IsText (spell k e rest)
spell-IsText (Expr.literal n) k rest h =
    append-IsText (decimal n) (32 ∷ rest) (digits-nonzero (decimal n) (decimal-All n))
      (cons-IsText 32 rest (λ z. omega arith) h)
spell-IsText (Expr.apply o a b) k rest h =
    let all : (r : List ℕ)
        → IsText r
        → IsText (spell (suc (below o)) a (text o ++ 32 ∷ spell (below o) b r)) =
      λ r t. spell-IsText a (suc (below o)) (text o ++ 32 ∷ spell (below o) b r) (
        append-IsText (text o) (32 ∷ spell (below o) b r) (text-nonzero o) (
          cons-IsText 32 (spell (below o) b r) (λ z. omega arith)
            (spell-IsText b (below o) r t))) in
    let close = codes ")" ++ 32 ∷ rest in
    IsText-if (ltb k (suc (below o))) _ _
      (append-IsText (codes "( ") _ (ground arith)
        (all close (append-IsText (codes ") ") rest (ground arith) h)))
      (all rest h)

source-IsText : (e : Expr) → IsText (source e)
source-IsText e =
    append-IsText (codes "int main ( ) { return ") (spell 5 e tail) (ground arith)
      (spell-IsText e 5 tail (ground arith, refl))

IsText-buffer : (p : List ℕ) → IsText p → buffer p ≡ p
IsText-buffer p (h, e) = rw e (up_to_nul-All p h)

filename-fits :
    (path name : List ℕ)
    → length name + length path < 100
    → (file : List ℕ) × (filename_from path name ≡ ok file)
filename-fits [] name lt = (name, rw (lt→ltb (length name) 100 (omega arith), filename_from) refl)
filename-fits (c ∷ []) name lt =
    (name ++ c ∷ [], rw (lt→ltb (length name) 99 (omega arith), filename_from) refl)
filename-fits (c ∷ d ∷ path) name lt =
    let room = lt→ltb (length name) 100 (omega arith) in
    elim (Bool-cases (d == b'/')) [
      | inl slash ↦
          let (file, e) = filename-fits path [] (omega arith) in
          (file, rw (room, filename_from) (rw (slash, filename_from) e))
      | inr other ↦
          let (file, e) =
            filename-fits (d ∷ path) (name ++ c ∷ [])
              (omega (arith, length-append name (c ∷ []))) in
          (file, rw (room, filename_from) (rw (other, filename_from) e))
    ]

main-compiles :
    (files : Files) (name path p : List ℕ) (ls : List Line)
    → files path ≡ some p
    → length path < 100
    → IsText p
    → compile p ≡ ok ls
    → main files (name ∷ path ∷ []) ≡ ok (0, ls)
unfolding main read_file
main-compiles files name path p ls found short t e =
    let (file, named) = filename-fits path [] (omega arith) in
    rw (found, read_file) (rw named (rw (IsText-buffer p t) (rw e refl)))

-- Given a path of less than 100 bytes, at which the file is the text of a function `main` that returns
-- an arithmetic expression, with its literals an `int`, a space behind each token and a newline at the
-- end, main returns 0 with the lines that it printed. Wherever these are called, with the caller's
-- address on the stack, a memory of bytes, and room for the stack below the address `top`, the call
-- comes back with the expression's value on 64-bit words in rax, and the frame, the stack without that
-- address and the memory as they were, or traps, if a division of the expression traps.
pub main-value :
    (files : Files) (name path : List ℕ) (w : Layout) (e : Expr) (top : ℕ) (g : Registers)
    (frame address : ℕ) (stack : List ℕ) (mem : Memory)
    → files path ≡ some (source e)
    → length path < 100
    → Small e
    → IsBytes mem
    → 8 * length stack + 16 ≤ top
    → (ls : List Line) × (main files (name ∷ path ∷ []) ≡ ok (0, ls))
      × Returns frame stack mem
          (value e)
          (call_function w top ls (state g frame (address ∷ stack) mem))
main-value files name path w e top g frame address stack mem found short small b le =
    let (ls, compiled, right) = compile-value w e top g frame address stack mem small b le in
    (ls, main-compiles files name path (source e) ls found short (source-IsText e) compiled, right)
