-- ===== src/Program/Value.antt =====
-- main.c, from a text to what the printed code computes, on a function `main` that returns an
-- arithmetic expression.
use native.Mathlib.Omega.{arith}
use mathlib.Core.Path.{subst}
use cc.Base.{
  ℕ, ◌+◌, ◌*◌, ◌≤◌, ◌≡◌, refl, false, List, [], ◌∷◌, ◌++◌, Option, none, some, codes, length,
  length-append, append_assoc, append-nil,
}
use cc.Base.Int.{pos}
use cc.Base.Outcome.{ok}
use cc.Token.{eof}
use cc.Preprocessor.Loop.{blank}
use cc.Node.{Node, null}
use cc.Asm.{Line, rax, rbp, rsp, push, pop, mov, sub_imm, intel_syntax, globl_main, text, function}
use cc.Util.{mysubstr}
use cc.Container.{token_name}
use cc.Codegen.{copy_name, variable_space, store_params}
use cc.Codegen.Gen.{gen, is_null, return_lines}
use cc.Codegen.Runs.{Registers, state, IsBytes, Agrees}
use cc.Codegen.Meaning.{eval}
use cc.Codegen.Total.{gen-runs}
use cc.Machine.{Layout, Machine, step, exec, ◌>>=◌}
use cc.Machine.Word.{Memory}
use cc.Machine.Call.{call_function, call_function-append, unwind-frame, stack_pointer}
use cc.Parser.{initial}
use cc.Parser.Print.{Op, Expr, tree, make, print, spell, punct}
use cc.Parser.Roundtrip.{run-print, Starts-append, print-Starts}
use cc.Parser.Function.{main_token, main_node, behind, program-return}
use cc.Parser.Program.{program}
use cc.Program.{gen_all, output, literal_slots, compile}
use cc.Program.Arithmetic.{value, tree-is_expr, tree-names_fit, tree-Has}
use cc.Program.Instructions.{tree-Produces}
use cc.Program.Spelled.{Small}
use cc.Program.Source.{source, tail, ending, tokens, source-tokens, source-preprocessed}

make-is_null : (o : Op) (l r : Node) → is_null (make o l r) ≡ false
make-is_null o l r = ground arith

tree-is_null : (e : Expr) → is_null (tree e) ≡ false
tree-is_null (Expr.literal n) = refl
tree-is_null (Expr.apply o a b) = make-is_null o (tree a) (tree b)

source-parsed :
    (e : Expr)
    → program (initial (tokens e ++ blank eof ∷ []))
      ≡ ok (
        main_node (codes "return " ++ spell 5 e tail) (tree e) ∷ null ∷ [],
        behind (blank eof ∷ []),
      )
source-parsed e =
    let value = spell 5 e tail in
    let back = ending ++ blank eof ∷ [] in
    let ts = print 5 e tail ++ back in
    rw (append_assoc (print 5 e tail) ending (blank eof ∷ [])) (
      program-return (codes "return " ++ value) value (codes "} " ++ 10 ∷ []) (10 ∷ []) ts (tree e)
        (Starts-append (print 5 e tail) back (print-Starts 5 e tail))
        (run-print e (16 * length ts + 45) (initial []) tail
          (punct (codes ";") (codes "} " ++ 10 ∷ [])) (punct (codes "}") (10 ∷ []) ∷ blank eof ∷ [])
          refl (omega (arith, length-append (print 5 e tail) back))))

-- The lines before those of the expression, and those behind them.
abbrev pub prologue : List Line
prologue =
    intel_syntax
    ∷ globl_main
    ∷ text
    ∷ function (codes "main")
    ∷ push rbp
    ∷ mov rbp rsp
    ∷ sub_imm rsp (pos 16)
    ∷ []

abbrev pub epilogue : List Line
epilogue = pop rax ∷ return_lines ++ pop rax ∷ push rax ∷ return_lines

copy_main : (x : List ℕ) → copy_name (token_name (main_token x)) ≡ ok (codes "main")
unfolding copy_name mysubstr
copy_main x = ground arith

gen-main :
    (x : List ℕ) (n : Node) (ls : List Line) (j : ℕ)
    → is_null n ≡ false
    → gen n 3 ≡ ok (ls, j)
    → gen (main_node x n) 0
      ≡ ok (
        text
            ∷ function (codes "main")
            ∷ push rbp
            ∷ mov rbp rsp
            ∷ sub_imm rsp (pos 16)
            ∷ (ls ++ epilogue),
        j,
      )
unfolding gen variable_space store_params
gen-main x n ls j k e = rw (copy_main (codes "{ " ++ x)) (rw (k, gen) (rw e (simp append_assoc)))

output-main :
    (x : List ℕ) (n : Node) (ls : List Line) (j : ℕ)
    → is_null n ≡ false
    → gen n 3 ≡ ok (ls, j)
    → output (literal_slots []) (main_node x n ∷ null ∷ []) ≡ ok (prologue ++ ls ++ epilogue, j)
unfolding output gen_all
output-main x n ls j k e = rw (gen-main x n ls j k e) (rw append-nil refl)

-- A call comes back with the value in rax, the frame, the stack and the memory as they were, or traps.
abbrev pub Returns : ℕ → List ℕ → Memory → Option ℕ → Option Machine → Type 0
Returns frame stack mem none r = r ≡ none
Returns frame stack mem (some v) r =
    (g : Registers) × (r ≡ some (state g frame stack mem)) × (g.a ≡ v)

module _ (w : Layout) (top : ℕ) where
  entry :
      (g : Registers) (frame : ℕ) (stack : List ℕ) (mem : Memory) (ls : List Line)
      → call_function w top (prologue ++ ls) (state g frame stack mem)
        ≡ call_function w top ls
            (state g (stack_pointer top (frame ∷ stack)) (0 ∷ 0 ∷ frame ∷ stack) mem)
  unfolding call_function step
  entry g frame stack mem ls = refl

  exit :
      (g : Registers) (frame address v : ℕ) (stack : List ℕ) (mem : Memory)
      → 8 * length stack + 16 ≤ top
      → call_function w top epilogue (
          state g
            (stack_pointer top (frame ∷ address ∷ stack))
            (v ∷ 0 ∷ 0 ∷ frame ∷ address ∷ stack)
            mem)
        ≡ some (state (record g { a = v }) frame stack mem)
  unfolding call_function step
  exit g frame address v stack mem le =
      let same = unwind-frame top (0 ∷ 0 ∷ []) (frame ∷ address ∷ stack) (omega arith) in
      rw same refl

  Agrees-Returns :
      (frame address : ℕ) (stack : List ℕ) (mem : Memory) (val : Option ℕ) (r : Option Machine)
      → 8 * length stack + 16 ≤ top
      → Agrees
          (stack_pointer top (frame ∷ address ∷ stack))
          (0 ∷ 0 ∷ frame ∷ address ∷ stack)
          (val >>= λ v. some (v, mem))
          r
      → Returns frame stack mem val (r >>= call_function w top epilogue)
  Agrees-Returns frame address stack mem none r le h = rw h refl
  Agrees-Returns frame address stack mem (some v) r le (g, e, _, _) =
      (record g { a = v }, rw e (exit g frame address v stack mem le), refl)

compile-output :
    (e : Expr) (ls : List Line) (j : ℕ)
    → Small e
    → output (literal_slots []) (main_node (codes "return " ++ spell 5 e tail) (tree e) ∷ null ∷ [])
      ≡ ok (ls, j)
    → compile (source e) ≡ ok ls
unfolding compile
compile-output e ls j h o =
    rw (source-tokens e h) (rw (source-preprocessed e) (rw (source-parsed e) (rw o refl)))

-- The text of a function `main` that returns an arithmetic expression, with its literals an `int` and
-- a space behind each token, is compiled, and wherever the printed lines are called, with the caller's
-- address on the stack, a memory of bytes and addresses enough below the top of the stack, the call
-- comes back with the expression's value on 64-bit words in rax, and the frame, the stack without that
-- address and the memory as they were, or traps, if a division of the expression traps.
pub compile-value :
    (w : Layout) (e : Expr) (top : ℕ) (g : Registers) (frame address : ℕ) (stack : List ℕ)
    (mem : Memory)
    → Small e
    → IsBytes mem
    → 8 * length stack + 16 ≤ top
    → (ls : List Line) × (compile (source e) ≡ ok ls)
      × Returns frame stack mem
          (value e)
          (call_function w top ls (state g frame (address ∷ stack) mem))
compile-value w e top g frame address stack mem small b le =
    let frame' = stack_pointer top (frame ∷ address ∷ stack) in
    let stack' = 0 ∷ 0 ∷ frame ∷ address ∷ stack in
    let (ls, j, made, all) = tree-Produces e 3 in
    let (ls', j', made', right) =
      gen-runs w (tree e) 3 frame' g stack' mem (tree-is_expr e) (tree-names_fit e) b in
    let same : ls' ≡ ls = cc in
    let value_right : Agrees frame' stack' (value e >>= λ v. some (v, mem))
        (exec w ls (state g frame' stack' mem)) =
      subst (λ r. Agrees frame' stack' r (exec w ls (state g frame' stack' mem)))
        (tree-Has w frame' mem e)
        (subst
          (λ (k : List Line).
            Agrees frame' stack' (eval w frame' (tree e) mem)
              (exec w k (state g frame' stack' mem)))
          same right) in
    (
      prologue ++ ls ++ epilogue,
      compile-output e _ j small (output-main _ (tree e) ls j (tree-is_null e) made),
      rw (entry w top g frame (address ∷ stack) mem (ls ++ epilogue)) (
          rw (call_function-append w top ls epilogue (state g frame' stack' mem) all) (
            Agrees-Returns w top frame address stack mem (value e)
              (exec w ls (state g frame' stack' mem)) le value_right)),
    )
