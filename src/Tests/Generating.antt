-- ===== src/Tests/Generating.antt =====
-- gen and main's output on small trees.
use cc.Base.{ℕ, ◌+◌, ◌*◌, ◌%◌, ◌≤◌, ◌<◌, ◌≡◌, ◌⊎◌, refl, List, [], ◌∷◌, ◌++◌, arith}
use cc.Base.Int.{pos}
use cc.Base.Outcome.{ok}
use cc.Node.{
  TypeKind, CType, null, Node, num, lvar, binary, BinaryKind, assign, while, block, funcdef, nil,
  cons, Name,
}
use cc.Asm.{
  Line, lbegin, lend, intel_syntax, globl_main, text, function, push, pop, push_imm, mov, label,
  sub_imm, load, cmp_imm, je, jmp, ret, rax, rbp, rsp, rdi, store,
}
use cc.Codegen.{copy_name, variable_space, store_params, gen_variable}
use cc.Codegen.Gen.{gen}
use cc.Codegen.Labels.{defined, jumped, index}
use cc.Codegen.Frame.{variable_space-aligned}
use cc.Codegen.Fresh.{gen-labels}
use cc.Codegen.Meaning.{eval}
use cc.Codegen.Runs.{Registers, state, Agrees}
use cc.Codegen.Total.{gen-runs}
use cc.Machine.{Layout, exec}
use cc.Machine.Word.{Memory}
use cc.Program.{gen_all, output}
use cc.Program.Labels.{output-labels}

abbrev int_type : CType
int_type = CType.type TypeKind.int [] 0 CType.null 0

abbrev pub layout : Layout
layout = record { symbol = λ _. 4096; literal = λ k. 8192 + 64 * k }

abbrev pub registers : Registers
registers = record { a = 1; d = 2; x = 3; left = 0; right = 0 }

abbrev pub zeros : Memory
zeros p = 0

-- `x = 3 - 10 / 2`, with `x` at the offset 8 of the frame.
abbrev assignment : Node
assignment =
    assign (lvar (pos 8) int_type null)
      (binary BinaryKind.sub (num (pos 3)) (binary BinaryKind.div (num (pos 10)) (num (pos 2))))

gen-runs_example :
    (ls : List Line) × (j : ℕ) × (gen assignment 0 ≡ ok (ls, j))
    × Agrees 1000
        (7 ∷ [])
        (eval layout 1000 assignment zeros)
        (exec layout ls (state registers 1000 (7 ∷ []) zeros))
gen-runs_example =
    gen-runs layout assignment 0 1000 registers (7 ∷ []) zeros refl refl (λ p. omega arith)

-- `int main() { while (x) x = 0; }`.
abbrev main_name : Name
main_name = record { text = 109 ∷ 97 ∷ 105 ∷ 110 ∷ []; len = 4 }

abbrev loop : Node
loop = while (lvar (pos 8) int_type null) (assign (lvar (pos 8) int_type null) (num (pos 0)))

abbrev main_function : Node
main_function = funcdef main_name nil (block (cons loop nil)) (pos 8)

abbrev x_address : List Line
x_address = mov rax rbp ∷ sub_imm rax (pos 8) ∷ push rax ∷ []

abbrev loop_lines : ℕ → List Line
loop_lines i =
    label (lbegin i)
    ∷ (x_address
        ++ pop rax
          ∷ load
          ∷ push rax
          ∷ pop rax
          ∷ cmp_imm rax (pos 0)
          ∷ je (lend i)
          ∷ (x_address
              ++ push_imm (pos 0)
                ∷ pop rdi
                ∷ pop rax
                ∷ store rdi
                ∷ push rdi
                ∷ pop rax
                ∷ jmp (lbegin i)
                ∷ label (lend i)
                ∷ push rax
                ∷ []))

gen-labels_example :
    (5 ≤ 9)
    × (defined (lend 5) (loop_lines 5) ≤ 1)
    × ((jumped (lend 5) (loop_lines 5) ≡ 0) ⊎ (defined (lend 5) (loop_lines 5) ≡ 1))
    × ((defined (lend 5) (loop_lines 5) ≡ 0) ⊎ ((5 ≤ index (lend 5)) × (index (lend 5) < 9)))
unfolding gen gen_variable
gen-labels_example = gen-labels loop 5 9 (loop_lines 5) (lend 5) refl

abbrev main_lines : List Line
main_lines =
    intel_syntax
    ∷ globl_main
    ∷ text
    ∷ function (109 ∷ 97 ∷ 105 ∷ 110 ∷ [])
    ∷ push rbp
    ∷ mov rbp rsp
    ∷ sub_imm rsp (pos 16)
    ∷ (loop_lines 2 ++ pop rax ∷ push rax ∷ mov rsp rbp ∷ pop rbp ∷ ret ∷ [])

output-labels_example :
    (defined (lbegin 2) main_lines ≤ 1)
    × ((jumped (lbegin 2) main_lines ≡ 0) ⊎ (defined (lbegin 2) main_lines ≡ 1))
unfolding output gen_all gen gen_variable copy_name variable_space store_params
output-labels_example =
    output-labels (null ∷ []) (main_function ∷ null ∷ []) 6 main_lines (lbegin 2) refl

variable_space-aligned_example :
    (space : ℕ) × (variable_space 1 (pos (2 * 8)) ≡ ok (pos space))
    × (space % 16 ≡ 0)
    × (1 * 8 + 2 * 8 ≤ space)
    × (space ≤ 1 * 8 + 2 * 8 + 8)
variable_space-aligned_example = variable_space-aligned 1 2 (omega arith)
