-- ===== src/Parser/Expr.antt =====
-- parser.c: the expressions, assign to unary. The functions call one another, primary and stmt too:
-- a call is a value of `Call`, and a body takes `rec` for the calls that it makes. A loop of a body is
-- a call of its own, with the node made so far.
use cc.Base.{ℕ, Bool, false, ◌||◌, List, [], ◌∷◌, Option, none, some, if◌then◌else◌, codes}
use cc.Base.Int.{ℤ, pos}
use cc.Base.Outcome.{Result, ok, err, fault}
use cc.Base.CInt.{to_int}
use cc.Token.{sizeof_kw}
use cc.Node.{
  TypeKind, CType, null, type, Name, BinaryKind, Node, num, binary, lvar, addr, deref, cast,
  structdef, has_kind,
}
use cc.Types.{get_size}
use cc.Parser.{Parse, pure, lift, gets, modify, ◌>>=◌, ◌>>◌, fails, consumes, consumes_kind}
use cc.Parser.Declare.{plain_type}

pub data Call : Type 0 where
  assign equality relational add mul unary primary stmt : Call
  equality_rest relational_rest add_rest mul_rest : Node → Call
  mul_ptr : CType → Call
  mul_ptr_rest : CType → Node → Call
  args : Name → List Node → Call
  block_rest : List Node → Call

abbrev pub Rec : Type 0
Rec = Call → Parse Node

-- The first of the operators that is consumed, and what it stands for.
unfoldable pub first_op : {A : Type 0} → List (List ℕ × A) → Parse (Option A)
first_op [] = pure none
first_op ((op, a) ∷ rest) = do found ← consumes op; if found then pure (some a) else first_op rest

-- `new_binary(kind, node, …)`, and the other way round for `>` and `>=`.
abbrev pub join : BinaryKind → Node → Node → Node
join k l r = binary k l r

abbrev pub flip : BinaryKind → Node → Node → Node
flip k l r = binary k r l

abbrev pub assign_ops : List (List ℕ × (Node → Node → Node))
assign_ops =
    (codes "=", Node.assign)
    ∷ (codes "&&", join BinaryKind.and)
    ∷ (codes "||", join BinaryKind.or)
    ∷ []

abbrev pub equality_ops : List (List ℕ × (Node → Node → Node))
equality_ops = (codes "==", join BinaryKind.eq) ∷ (codes "!=", join BinaryKind.ne) ∷ []

abbrev pub relational_ops : List (List ℕ × (Node → Node → Node))
relational_ops =
    (codes "<", join BinaryKind.lt)
    ∷ (codes "<=", join BinaryKind.le)
    ∷ (codes ">", flip BinaryKind.lt)
    ∷ (codes ">=", flip BinaryKind.le)
    ∷ []

abbrev pub mul_ptr_ops : List (List ℕ × (Node → Node → Node))
mul_ptr_ops = (codes "*", join BinaryKind.mul) ∷ (codes "/", join BinaryKind.div) ∷ []

abbrev pub mul_ops : List (List ℕ × (Node → Node → Node))
mul_ops =
    (codes "*", join BinaryKind.mul)
    ∷ (codes "/", join BinaryKind.div)
    ∷ (codes "%", join BinaryKind.modulo)
    ∷ []

-- `for (;;)`: an operator and its right operand, and on with their node; else the end.
unfoldable pub rounds :
    Rec
    → List (List ℕ × (Node → Node → Node))
    → Call
    → (Node → Call)
    → Parse Node
    → Node
    → Parse Node
rounds rec ops operand again end node = do
  op ← first_op ops
  elim op [ none ↦ end | some make ↦ do rhs ← rec operand; rec (again (make node rhs)) ]

unfoldable pub assign_step : Rec → Parse Node
assign_step rec = do
  node ← rec Call.equality
  op ← first_op assign_ops
  elim op [ none ↦ pure node | some make ↦ do rhs ← rec Call.assign; pure (make node rhs) ]

-- The field `type` of a node that is not null.
abbrev pub node_type : Node → CType
node_type (lvar o t s) = t
node_type (cast t e) = t
node_type _ = null

abbrev pub is_array_address : Node → Bool
is_array_address (addr e) = has_kind (node_type e) TypeKind.array
is_array_address _ = false

-- The type that add makes for the address of an array.
abbrev pub int_cells : CType
int_cells = type TypeKind.int [] 0 (plain_type TypeKind.int) 0

-- The right operand of `+`, and of `-`: scaled by the size of what a pointer points to.
abbrev pub plus_operand : Node → Call
plus_operand node =
    if has_kind (node_type node) TypeKind.ptr || has_kind (node_type node) TypeKind.array
    then Call.mul_ptr (node_type node)
    else if is_array_address node
    then Call.mul_ptr int_cells
    else Call.mul

abbrev pub minus_operand : Node → Call
minus_operand node =
    if has_kind (node_type node) TypeKind.ptr
    then Call.mul_ptr (node_type node)
    else if is_array_address node
    then Call.mul_ptr int_cells
    else Call.mul

abbrev pub additive_ops : Node → List (List ℕ × (BinaryKind × Call))
additive_ops node =
    (codes "+", (BinaryKind.add, plus_operand node))
    ∷ (codes "-", (BinaryKind.sub, minus_operand node))
    ∷ []

unfoldable pub add_rest_step : Rec → Node → Parse Node
add_rest_step rec null = fails fault
add_rest_step rec node = do
  op ← first_op (additive_ops node)
  elim op [
    | none ↦ pure node
    | some (kind, operand) ↦ do rhs ← rec operand; rec (Call.add_rest (binary kind node rhs))
  ]

-- `type->ptr_to`.
abbrev pub target : CType → CType
target null = null
target (type k text len t n) = t

-- The end of mul_ptr.
unfoldable pub scaled : CType → Node → Parse Node
scaled t node = do
  size ← lift (get_size (target t))
  pure (binary BinaryKind.mul node (num (pos size)))

-- The number that `sizeof` gives, by `arg_type` and the operand.
unfoldable pub sizeof_value : CType → Node → Result ℤ
sizeof_value (type TypeKind.ptr text len t n) node = ok (pos 8)
sizeof_value (type TypeKind.array text len t n) node = ok (to_int n)
sizeof_value (type TypeKind.char text len t n) node = ok (pos 1)
sizeof_value _ null = err fault
sizeof_value _ (structdef name ms offset) = ok offset
sizeof_value _ node = ok (pos 4)

unfoldable pub sizeof_step : Rec → Parse Node
sizeof_step rec = do
  modify λ s. record s { arg_type = null }
  node ← rec Call.primary
  t ← gets λ s. s.arg_type
  size ← lift (sizeof_value t node)
  modify λ s. record s { arg_type = null }
  pure (num size)

abbrev pub prefix_ops : List (List ℕ × (Node → Node))
prefix_ops =
    (codes "+", λ e. e)
    ∷ (codes "-", λ e. binary BinaryKind.sub (num (pos 0)) e)
    ∷ (codes "&", addr)
    ∷ (codes "*", deref)
    ∷ (codes "!", Node.not)
    ∷ []

unfoldable pub unary_step : Rec → Parse Node
unary_step rec = do
  op ← first_op prefix_ops
  elim op [
    | some make ↦ do e ← rec Call.unary; pure (make e)
    | none ↦ do
      is_sizeof ← consumes_kind sizeof_kw
      if is_sizeof then sizeof_step rec else rec Call.primary
  ]
