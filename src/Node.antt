-- ===== src/Node.antt =====
-- 9cc.h: the types of the compiled program and the nodes of its syntax tree.
use cc.Base.{ℕ, Bool, true, false, List, ◌==◌}
use cc.Base.Int.{ℤ}

pub data TypeKind : Type 0 where
  int ptr array char bool struct void : TypeKind

-- `struct Type`: the kind, the name of a structure and its length, `ptr_to`, and the array size.
-- `null` is the null pointer.
pub data CType : Type 0 where
  null : CType
  type : TypeKind → List ℕ → ℕ → CType → ℕ → CType

-- The fields `name` and `namelen`: the text from the pointer on, and how much of it is the name.
pub record Name : Type 0 where
  pub text : List ℕ
  pub len : ℕ

-- The kinds of the nodes with two operands, which `gen` treats alike.
pub data BinaryKind : Type 0 where
  add sub mul div modulo eq ne lt le and or : BinaryKind

-- A variable of a structure: the `ND_LVAR` nodes that hang on `lhs` of its definition.
pub record Member : Type 0 where
  pub name : Name
  pub offset : ℤ
  pub type : CType

-- `struct Node`: a constructor for each kind that nodes are made with, and the fields that the kind
-- uses; the others are 0 and NULL from `calloc`. The node of kind ND_ELSE in `elsehs` is left out
-- with its `lhs` in its place. `null` is the null pointer, and the node that is all zero, of which the
-- kind is ND_ADD, is `binary add null null`.
mutual
  pub data Node : Type 0 where
    null : Node
    num : ℤ → Node
    binary : BinaryKind → Node → Node → Node
    assign : Node → Node → Node
    -- offset, type, and in `lhs` the reference to a structure's variable
    lvar : ℤ → CType → Node → Node
    gvarref : Name → Node → Node
    literalref : Name → ℕ → Node
    structref structref_ptr : ℤ → Node → Node
    return : Node → Node
    while if_only : Node → Node → Node
    -- the third is `elsehs->lhs`
    if_else : Node → Node → Node → Node
    -- initstmt, testexpr, updstmt, and the body in `lhs`
    for : Node → Node → Node → Node → Node
    block : Nodes → Node
    funcall : Name → Nodes → Node
    -- the parameters, the body, and the offset of the last local variable
    funcdef : Name → Nodes → Node → ℤ → Node
    addr deref not : Node → Node
    cast : CType → Node → Node
    gvardef : Name → CType → ℤ → Node
    literal : Name → ℕ → Node
    structdef : Name → List Member → ℤ → Node

  -- The `lhs` of the children of a block, linked by `child`, with `nil` for the child without one
  -- that ends them; and the arguments of a call or a definition.
  pub data Nodes : Type 0 where
    nil : Nodes
    cons : Node → Nodes → Nodes

-- util.c: is_struct_ref, with the test for the null pointer that stands before each of its calls.
abbrev pub is_struct_ref : Node → Bool
is_struct_ref (structref o l) = true
is_struct_ref (structref_ptr o l) = true
is_struct_ref _ = false

abbrev pub type_kind_index : TypeKind → ℕ
type_kind_index int = 0
type_kind_index ptr = 1
type_kind_index array = 2
type_kind_index char = 3
type_kind_index bool = 4
type_kind_index struct = 5
type_kind_index void = 6

-- `type != NULL && type->ty == kind`.
abbrev pub has_kind : CType → TypeKind → Bool
has_kind null kind = false
has_kind (type k _ _ _ _) kind = type_kind_index k == type_kind_index kind
