-- ===== src/Codegen.antt =====
-- codegen.c: gen_variable and gen. The lines come back as a list, in the order in which they are
-- printed; the counter `labelidx` is passed in and out.
pub mod Gen
pub mod Labels
pub mod Pieces
pub mod Shapes
pub mod Frame
pub mod Fresh
pub mod Meaning
pub mod Runs
pub mod Addresses
pub mod Correct
pub mod Total
pub mod Ends
use cc.Base.{
  ℕ, zero, suc, ◌+◌, ◌-◌, ◌*◌, ◌^◌, Bool, true, false, ◌&&◌, ◌||◌, not, List, [], ◌∷◌, ◌++◌, Option,
  none, some, ◌==◌, ltb, leb, if◌then◌else◌, length, take,
}
use cc.Base.Int.{ℤ, pos, negsuc, pos_part, neg_part, rem, ◌+ℤ◌}
use cc.Base.Outcome.{Result, ok, err, fault, exits, not_a_variable, ◌>>=◌}
use cc.Base.CInt.{add_int}
use cc.Util.{mysubstr}
use cc.Node.{
  TypeKind, CType, Name, BinaryKind, Node, Nodes, null, num, binary, assign, lvar, gvarref,
  literalref, structref, structref_ptr, return, while, if_only, if_else, for, block, funcall,
  funcdef, addr, deref, cast, gvardef, literal, structdef, nil, cons, is_struct_ref, has_kind,
}
use cc.Asm.{
  Reg, rax, rdi, rsi, rdx, rcx, r8, r9, rbp, rsp, Label, lbegin, lelse, lend, Cond, equal,
  not_equal, less, less_equal, Line, push, pop, push_imm, mov, mov_imm, load, load_byte, store, lea,
  lea_literal, add_reg, sub_reg, imul_reg, and_reg, or_reg, cmp_reg, add_imm, sub_imm, xor_imm,
  cmp_imm, cqo, idiv, set_al, movzb, label, je, jmp, call, ret, intel_syntax, text, data_section,
  globl_main, function, comm, globl_literal, literal_label, byte,
}

-- The lines of a node and the counter after them.
abbrev pub Gen : Type 0
Gen = Result (List Line × ℕ)

-- `mysubstr(t, node->name, 0, node->namelen)` into the `char t[64]` of `gen` and gen_variable: a
-- name of 64 bytes or more is written past the end of `t`.
unfoldable pub copy_name : Name → Result (List ℕ)
unfolding mysubstr
copy_name n = elim (mysubstr n.text n.len) [
  | none ↦ err fault
  | some t ↦ if ltb n.len 64 then ok t else err fault
]

-- push variable address
unfoldable pub gen_variable : Node → Result (List Line)
unfolding copy_name
gen_variable null = err fault
gen_variable (lvar o t s) = ok (mov rax rbp ∷ sub_imm rax o ∷ push rax ∷ [])
gen_variable (gvarref n s) = do t ← copy_name n; ok (lea t ∷ push rax ∷ [])
gen_variable (literalref n k) = ok (lea_literal k ∷ push rax ∷ [])
gen_variable (structref_ptr o s) = ok (pop rax ∷ load ∷ add_imm rax o ∷ push rax ∷ [])
gen_variable (structref o s) = ok (pop rax ∷ add_imm rax o ∷ push rax ∷ [])
gen_variable _ = err (exits not_a_variable)

-- `arglist[i]`; the array has 6 entries.
abbrev pub arg_reg : ℕ → Result Reg
arg_reg zero = ok rdi
arg_reg (suc zero) = ok rsi
arg_reg (suc (suc zero)) = ok rdx
arg_reg (suc (suc (suc zero))) = ok rcx
arg_reg (suc (suc (suc (suc zero)))) = ok r8
arg_reg (suc (suc (suc (suc (suc zero))))) = ok r9
arg_reg (suc (suc (suc (suc (suc (suc _)))))) = err fault

-- `for(int i = idx - 1; i >= 0; i--)`: the pops of the arguments.
unfoldable pub pop_args : ℕ → Result (List Line)
pop_args zero = ok []
pop_args (suc i) = do r ← arg_reg i; rest ← pop_args i; ok (pop r ∷ rest)

-- The lines of the prolog that store the argument registers, from the `i`th on, and their number.
unfoldable pub store_params : ℕ → Nodes → Result (List Line)
unfolding gen_variable
store_params i nil = ok []
store_params i (cons p ps) = do
  address ← gen_variable p
  r ← arg_reg i
  rest ← store_params (suc i) ps
  ok (address ++ (pop rax ∷ store r ∷ mov_imm rax (pos 0) ∷ rest))

abbrev pub count_nodes : Nodes → ℕ
count_nodes nil = 0
count_nodes (cons p ps) = suc (count_nodes ps)

abbrev pub is_zero : ℤ → Bool
is_zero v = pos_part v == 0 && neg_part v == 0

-- `variable_space` of a definition with `argnum` parameters.
unfoldable pub variable_space : ℕ → ℤ → Result ℤ
variable_space argnum offset = do
  space ← add_int (pos (argnum * 8)) offset
  if is_zero (rem space 16) then ok space else add_int space (pos 8)

-- The bytes of a literal: a backslash with an `n` is a newline, every other byte is itself, and a
-- `char` is printed with its sign.
abbrev pub byte_of : ℕ → Line
byte_of c = byte (if ltb c 128 then pos c else negsuc (255 - c))

unfoldable pub literal_bytes : List ℕ → List Line
literal_bytes [] = []
literal_bytes (c ∷ []) = byte_of c ∷ []
literal_bytes (c ∷ d ∷ t) =
    let newline = byte (pos 10) ∷ literal_bytes t in
    let itself = byte_of c ∷ literal_bytes (d ∷ t) in
    if c == 92 && d == b'n' then newline else itself

-- The lines between the pops of the operands and the push of the result.
abbrev pub operation : BinaryKind → List Line
operation BinaryKind.add = add_reg rax rdi ∷ []
operation BinaryKind.sub = sub_reg rax rdi ∷ []
operation BinaryKind.mul = imul_reg rax rdi ∷ []
operation BinaryKind.div = cqo ∷ idiv rdi ∷ []
operation BinaryKind.modulo = cqo ∷ idiv rdi ∷ push rdx ∷ pop rax ∷ []
operation BinaryKind.eq = cmp_reg rax rdi ∷ set_al equal ∷ movzb ∷ []
operation BinaryKind.ne = cmp_reg rax rdi ∷ set_al not_equal ∷ movzb ∷ []
operation BinaryKind.lt = cmp_reg rax rdi ∷ set_al less ∷ movzb ∷ []
operation BinaryKind.le = cmp_reg rax rdi ∷ set_al less_equal ∷ movzb ∷ []
operation BinaryKind.and = and_reg rax rdi ∷ []
operation BinaryKind.or = or_reg rax rdi ∷ []
