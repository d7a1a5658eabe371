-- ===== src/Codegen/Gen.antt =====
-- codegen.c: gen, a clause for each case of its switch.
use cc.Base.{ℕ, suc, Bool, true, false, List, [], ◌∷◌, ◌++◌, ◌||◌, if◌then◌else◌}
use cc.Base.Int.{pos}
use cc.Base.Outcome.{Result, ok, err, fault, exits, not_a_variable, ◌>>=◌}
use cc.Node.{
  TypeKind, CType, Node, Nodes, null, num, binary, assign, lvar, gvarref, literalref, structref,
  structref_ptr, return, while, if_only, if_else, for, block, funcall, funcdef, addr, deref, not,
  cast, gvardef, literal, structdef, nil, cons, is_struct_ref, has_kind,
}
use cc.Asm.{
  Line, rax, rdi, rdx, rbp, rsp, lbegin, lelse, lend, push, pop, push_imm, mov, mov_imm, load,
  load_byte, store, add_reg, sub_reg, sub_imm, xor_imm, cmp_imm, cqo, idiv, label, je, jmp, call,
  ret, text, data_section, function, comm, globl_literal, literal_label, byte,
}
use cc.Codegen.{
  Gen, copy_name, gen_variable, pop_args, store_params, count_nodes, variable_space, literal_bytes,
  operation,
}

abbrev pub is_null : Node → Bool
is_null null = true
is_null _ = false

-- `movzx` for the types of one byte.
abbrev pub load_of : CType → Line
load_of t = if has_kind t TypeKind.char || has_kind t TypeKind.bool then load_byte else load

-- `pop rax`, `cmp rax, 0` and a jump where the value is 0.
abbrev pub jump_if_zero : Line → List Line
jump_if_zero j = pop rax ∷ cmp_imm rax (pos 0) ∷ j ∷ []

-- The end of a call of `gen`: lines and the counter.
abbrev pub emit : List Line → ℕ → Gen
emit ls i = ok (ls, i)

abbrev pub return_lines : List Line
return_lines = mov rsp rbp ∷ pop rbp ∷ ret ∷ []

-- The stack is made a multiple of 16, and what was taken off it is kept on it twice.
abbrev pub align_lines : List Line
align_lines =
    mov rax rsp ∷ mov_imm rdi (pos 16) ∷ cqo ∷ idiv rdi ∷ sub_reg rsp rdx ∷ push rdx ∷ push rdx ∷ []

abbrev pub call_lines : List ℕ → List Line
call_lines t = mov_imm rax (pos 0) ∷ call t ∷ pop rdx ∷ pop rdx ∷ add_reg rsp rdx ∷ push rax ∷ []

unfoldable mutual
  pub gen : Node → ℕ → Gen
  gen null i = emit [] i
  gen (num v) i = emit (push_imm v ∷ []) (suc i)
  gen (lvar o t s) i = do
    let inner = gen s (suc i)
    address ← gen_variable (lvar o t s)
    (ref, j) ← if is_struct_ref s then inner else emit [] (suc i)
    emit (address ++ ref ++ pop rax ∷ load_of t ∷ push rax ∷ []) j
  gen (assign target value) i = do
    (address, j) ← gen_target target (suc i)
    (ls, k) ← gen value j
    emit (address ++ ls ++ pop rdi ∷ pop rax ∷ store rdi ∷ push rdi ∷ []) k
  gen (return e) i =
      let value = do (ls, j) ← gen e (suc i); emit (ls ++ pop rax ∷ return_lines) j
      in if is_null e then emit (mov_imm rax (pos 0) ∷ return_lines) (suc i) else value
  gen (while test body) i = do
    (t, j) ← gen test (suc i)
    (b, k) ← gen body j
    emit
        (label (lbegin i) ∷ t
          ++ jump_if_zero (je (lend i))
          ++ b
          ++ pop rax ∷ jmp (lbegin i) ∷ label (lend i) ∷ push rax ∷ [])
        k
  gen (if_else test then_part else_part) i = do
    (t, j) ← gen test (suc i)
    (a, k) ← gen then_part j
    (b, l) ← gen else_part k
    emit
        (t
          ++ jump_if_zero (je (lelse i))
          ++ a
          ++ jmp (lend i) ∷ label (lelse i) ∷ b
          ++ pop rax ∷ label (lend i) ∷ push rax ∷ [])
        l
  gen (if_only test body) i = do
    (t, j) ← gen test (suc i)
    (a, k) ← gen body j
    emit (t ++ jump_if_zero (je (lend i)) ++ a ++ pop rax ∷ label (lend i) ∷ push rax ∷ []) k
  gen (for init test upd body) i = do
    (a, j) ← gen init (suc i)
    let tested = gen test j
    (t, k) ← if is_null test then emit (push_imm (pos 1) ∷ []) j else tested
    (b, l) ← gen body k
    (u, m) ← gen upd l
    emit
        (a
          ++ label (lbegin i) ∷ t
          ++ jump_if_zero (je (lend i))
          ++ b
          ++ u
          ++ jmp (lbegin i) ∷ label (lend i) ∷ push rax ∷ [])
        m
  gen (block children) i = do (ls, j) ← gen_block children (suc i); emit (ls ++ push rax ∷ []) j
  gen (funcall name args) i = do
    t ← copy_name name
    (ls, n, j) ← gen_args args (suc i)
    pops ← pop_args n
    emit (align_lines ++ ls ++ pops ++ call_lines t) j
  gen (funcdef name params body offset) i = do
    t ← copy_name name
    space ← variable_space (count_nodes params) offset
    stores ← store_params 0 params
    (ls, j) ← gen body (suc i)
    emit
        (text ∷ function t ∷ push rbp ∷ mov rbp rsp ∷ sub_imm rsp space ∷ stores
          ++ ls
          ++ return_lines)
        j
  gen (addr e) i = do address ← gen_variable e; emit address (suc i)
  gen (deref e) i = do (ls, j) ← gen e (suc i); emit (ls ++ pop rax ∷ load ∷ push rax ∷ []) j
  gen (gvardef name t size) i = do
    n ← copy_name name
    emit (data_section ∷ comm n size ∷ []) (suc i)
  gen (gvarref name s) i = do
    let inner = gen s (suc i)
    address ← gen_variable (gvarref name s)
    (ref, j) ← if is_struct_ref s then inner else emit [] (suc i)
    emit (address ++ ref ++ pop rax ∷ load ∷ push rax ∷ []) j
  gen (literal name k) i = do
    t ← copy_name name
    emit (data_section ∷ globl_literal k ∷ literal_label k ∷ literal_bytes t ++ byte (pos 0) ∷ [])
        (suc i)
  gen (structdef name members size) i = emit [] (suc i)
  gen (structref o s) i = do
    address ← gen_variable (structref o s)
    (ref, j) ← gen s (suc i)
    emit (address ++ ref) j
  gen (structref_ptr o s) i = do
    address ← gen_variable (structref_ptr o s)
    (ref, j) ← gen s (suc i)
    emit (address ++ ref) j
  gen (not e) i = do
    (ls, j) ← gen e (suc i)
    emit (ls ++ pop rax ∷ xor_imm rax (pos 1) ∷ push rax ∷ []) j
  gen (cast t e) i = gen e (suc i)
  -- after the switch: `lhs` and `rhs` of a literal's reference are NULL
  gen (literalref name k) i = emit (pop rdi ∷ pop rax ∷ push rax ∷ []) (suc i)
  gen (binary kind lhs rhs) i = do
    (a, j) ← gen lhs (suc i)
    (b, k) ← gen rhs j
    emit (a ++ b ++ pop rdi ∷ pop rax ∷ operation kind ++ push rax ∷ []) k

  -- The address that an assignment writes to.
  pub gen_target : Node → ℕ → Gen
  gen_target null i = err fault
  gen_target (deref e) i = gen e i
  gen_target (lvar o t s) i = do
    let inner = gen s i
    address ← gen_variable (lvar o t s)
    (ref, j) ← if is_struct_ref s then inner else emit [] i
    emit (address ++ ref) j
  gen_target (gvarref name s) i = do
    let inner = gen s i
    address ← gen_variable (gvarref name s)
    (ref, j) ← if is_struct_ref s then inner else emit [] i
    emit (address ++ ref) j
  gen_target (literalref name k) i = do address ← gen_variable (literalref name k); emit address i
  gen_target (structref o s) i = do
    let inner = gen s i
    address ← gen_variable (structref o s)
    (ref, j) ← if is_struct_ref s then inner else emit [] i
    emit (address ++ ref) j
  gen_target (structref_ptr o s) i = do
    let inner = gen s i
    address ← gen_variable (structref_ptr o s)
    (ref, j) ← if is_struct_ref s then inner else emit [] i
    emit (address ++ ref) j
  gen_target _ i = err (exits not_a_variable)

  -- The children of a block, up to the first that is NULL.
  pub gen_block : Nodes → ℕ → Gen
  gen_block nil i = emit [] i
  gen_block (cons e rest) i =
      let more = do (a, j) ← gen e i; (b, k) ← gen_block rest j; emit (a ++ pop rax ∷ b) k
      in if is_null e then emit [] i else more

  -- The arguments of a call up to the first that is NULL, and their number. Behind the sixth stand
  -- `val` and `offset`, which are 0 in a call and are read as the null pointer.
  pub gen_args : Nodes → ℕ → Result (List Line × ℕ × ℕ)
  gen_args nil i = ok ([], 0, i)
  gen_args (cons e rest) i =
      let more = do (a, j) ← gen e i; (b, n, k) ← gen_args rest j; ok (a ++ b, suc n, k)
      in if is_null e then ok ([], 0, i) else more
