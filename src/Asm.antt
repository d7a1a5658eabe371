-- ===== src/Asm.antt =====
-- The lines of assembly that codegen.c prints: a constructor for each format of a line, with the
-- operands that vary.
use cc.Base.{ℕ, List}
use cc.Base.Int.{ℤ}

pub data Reg : Type 0 where
  rax rdi rsi rdx rcx r8 r9 rbp rsp : Reg

-- `.Lbegin%d`, `.Lelse%d` and `.Lend%d`.
pub data Label : Type 0 where
  lbegin lelse lend : ℕ → Label

-- The conditions of `sete`, `setne`, `setl` and `setle`.
pub data Cond : Type 0 where
  equal not_equal less less_equal : Cond

pub data Line : Type 0 where
  push pop : Reg → Line
  push_imm : ℤ → Line
  mov : Reg → Reg → Line
  mov_imm : Reg → ℤ → Line
  -- `mov rax, [rax]`, `movzx rax, BYTE PTR [rax]` and `mov [rax], …`
  load load_byte : Line
  store : Reg → Line
  -- `lea rax, …[rip]`, of a name and of `literal%d`
  lea : List ℕ → Line
  lea_literal : ℕ → Line
  add_reg sub_reg imul_reg and_reg or_reg cmp_reg : Reg → Reg → Line
  add_imm sub_imm xor_imm cmp_imm : Reg → ℤ → Line
  cqo : Line
  idiv : Reg → Line
  -- `set… al` and `movzb rax, al`
  set_al : Cond → Line
  movzb : Line
  label je jmp : Label → Line
  call : List ℕ → Line
  ret : Line
  -- directives, and the labels of functions and literals
  intel_syntax text data_section globl_main : Line
  function : List ℕ → Line
  comm : List ℕ → ℤ → Line
  globl_literal literal_label : ℕ → Line
  byte : ℤ → Line
