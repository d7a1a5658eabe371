-- ===== src/Codegen/Meaning.antt =====
-- What the expressions that `gen` compiles mean: a value and the memory after it, on 64-bit words,
-- with no stack and no registers but the frame's address. `none` is a trap of a division.
use cc.Base.{ℕ, ◌%◌, Bool, true, false, ◌&&◌, ◌||◌, List, Option, none, some, if◌then◌else◌, take}
use cc.Base.Int.{ℤ}
use cc.Node.{
  TypeKind, CType, Name, BinaryKind, Node, null, num, binary, assign, lvar, gvarref, literalref,
  structref, structref_ptr, addr, deref, not, cast, has_kind,
}
use cc.Asm.{equal, not_equal, less, less_equal}
use cc.Machine.{Layout, ◌>>=◌}
use cc.Machine.Word.{
  word_mod, of_int, add_word, sub_word, mul_word, and_word, or_word, xor_word, divide_words, holds,
  Memory, load_word, store_word,
}

abbrev bit : Bool → ℕ
bit b = if b then 1 else 0

unfoldable pub operate : BinaryKind → ℕ → ℕ → Option ℕ
operate BinaryKind.add v u = some (add_word v u)
operate BinaryKind.sub v u = some (sub_word v u)
operate BinaryKind.mul v u = some (mul_word v u)
operate BinaryKind.div v u = do (q, r) ← divide_words v u; some q
operate BinaryKind.modulo v u = do (q, r) ← divide_words v u; some r
operate BinaryKind.eq v u = some (bit (holds equal v u))
operate BinaryKind.ne v u = some (bit (holds not_equal v u))
operate BinaryKind.lt v u = some (bit (holds less v u))
operate BinaryKind.le v u = some (bit (holds less_equal v u))
operate BinaryKind.and v u = some (and_word v u)
operate BinaryKind.or v u = some (or_word v u)

-- The references into structures, from the address of the structure or of a pointer to it.
unfoldable pub member_address : Node → ℕ → Memory → ℕ
member_address (structref o s) p mem = member_address s (add_word p (of_int o)) mem
member_address (structref_ptr o s) p mem =
    member_address s (add_word (load_word mem p) (of_int o)) mem
member_address _ p mem = p

-- A chain of references, with nothing behind it.
abbrev pub is_chain : Node → Bool
is_chain null = true
is_chain (structref o s) = is_chain s
is_chain (structref_ptr o s) = is_chain s
is_chain _ = false

-- The expressions: literals, variables and their structures' members, operators, and the
-- assignments to variables, to members and through pointers.
abbrev pub is_expr : Node → Bool
is_expr (num v) = true
is_expr (lvar o t s) = is_chain s
is_expr (gvarref n s) = is_chain s
is_expr (binary k l r) = is_expr l && is_expr r
is_expr (assign (lvar o t s) e) = is_chain s && is_expr e
is_expr (assign (gvarref n s) e) = is_chain s && is_expr e
is_expr (assign (deref p) e) = is_expr p && is_expr e
is_expr (addr (lvar o t null)) = true
is_expr (addr (gvarref n null)) = true
is_expr (addr (literalref n k)) = true
is_expr (deref e) = is_expr e
is_expr (not e) = is_expr e
is_expr (cast t e) = is_expr e
is_expr _ = false

-- The text of a name.
abbrev pub name_text : Name → List ℕ
name_text n = take n.len n.text

abbrev pub local_address : ℕ → ℤ → ℕ
local_address frame o = sub_word frame (of_int o)

-- A `char` or a `bool` is read as a byte.
abbrev pub read_typed : CType → Memory → ℕ → ℕ
read_typed t mem p =
    if has_kind t TypeKind.char || has_kind t TypeKind.bool then mem p else load_word mem p

abbrev pub Value : Type 0
Value = Option (ℕ × Memory)

module _ (w : Layout) (frame : ℕ) where
  unfoldable pub eval : Node → Memory → Value
  eval (num v) mem = some (of_int v, mem)
  eval (lvar o t s) mem =
      some (read_typed t mem (member_address s (local_address frame o) mem), mem)
  eval (gvarref n s) mem =
      some (load_word mem (member_address s (w.symbol (name_text n) % word_mod) mem), mem)
  eval (binary k l r) mem = do
    (v, mem₁) ← eval l mem
    (u, mem₂) ← eval r mem₁
    x ← operate k v u
    some (x, mem₂)
  eval (assign (lvar o t s) e) mem = do
    let p = member_address s (local_address frame o) mem
    (v, mem₁) ← eval e mem
    some (v, store_word mem₁ p v)
  eval (assign (gvarref n s) e) mem = do
    let p = member_address s (w.symbol (name_text n) % word_mod) mem
    (v, mem₁) ← eval e mem
    some (v, store_word mem₁ p v)
  eval (assign (deref q) e) mem = do
    (p, mem₁) ← eval q mem
    (v, mem₂) ← eval e mem₁
    some (v, store_word mem₂ p v)
  eval (addr (lvar o t s)) mem = some (local_address frame o, mem)
  eval (addr (gvarref n s)) mem = some (w.symbol (name_text n) % word_mod, mem)
  eval (addr (literalref n k)) mem = some (w.literal k % word_mod, mem)
  eval (deref e) mem = do (p, mem₁) ← eval e mem; some (load_word mem₁ p, mem₁)
  eval (not e) mem = do (v, mem₁) ← eval e mem; some (xor_word v 1, mem₁)
  eval (cast t e) mem = eval e mem
  eval _ mem = none
