-- ===== src/Parser/Define.antt =====
-- parser.c: the definitions outside of functions, defined_struct to declared_structs_gvar.
use cc.Base.{
  ℕ, zero, suc, ◌+◌, true, false, List, [], ◌∷◌, Option, none, some, if◌then◌else◌, codes, ltb,
  take,
}
use cc.Base.Int.{ℤ, pos}
use cc.Base.Outcome.{fault, out_of_fuel}
use cc.Base.CInt.{add_int, mul_int, mul_size}
use cc.Token.{Token}
use cc.Node.{TypeKind, CType, null, type, Name, Node, Member, gvardef, structdef, has_kind}
use cc.Container.{GVar, StructDef, token_name, find_defined_structs}
use cc.Parser.{
  Parse, pure, lift, gets, modify, ◌>>=◌, ◌>>◌, fails, consumes, consumes_indent, expects, pointed,
  tokens_left,
}
use cc.Parser.Declare.{
  plain_type, pointer_to, with_name, parse_type_base, pointers, dimensions,
  declared_lvar_undefined_type,
}

-- The members up to the brace, the latest first, and the sum of the offsets.
unfoldable pub members : ℕ → Option Token → List Member → ℤ → Parse (List Member × ℤ)
members zero tok vs offset = fails out_of_fuel
members (suc f) tok vs offset = do
  done ← consumes (codes "}")
  elim done [
    | true ↦ pure (vs, offset)
    | false ↦ do
      v ← declared_lvar_undefined_type tok
      next ← lift (add_int offset v.offset)
      expects (codes ";")
      members f tok (record { name = v.name; offset = offset; type = v.type } ∷ vs) next
  ]

-- The node that is linked into `defined_structs`, as the code generator sees it.
abbrev pub struct_node : StructDef → Node
struct_node d = structdef d.name d.members d.offset

unfoldable pub defined_struct : Option Token → Parse Node
defined_struct name = do
  expects (codes "{")
  n ← tokens_left
  (vs, offset) ← members (suc n) name [] (pos 0)
  expects (codes ";")
  tok ← pointed name
  let def : StructDef = record { name = token_name tok; members = vs; offset = offset }
  modify λ s. record s { structs = def ∷ s.structs }
  pure (struct_node def)

-- The enumerators up to the brace.
unfoldable pub enumerators : ℕ → ℕ → Parse (Unit {0})
enumerators zero index = fails out_of_fuel
enumerators (suc f) index = do
  done ← consumes (codes "}")
  elim done [
    | true ↦ pure tt
    | false ↦ do
      name ← consumes_indent
      tok ← pointed name
      modify λ s. record s { enums = record { name = token_name tok; index = index } ∷ s.enums }
      expects (codes ",")
      enumerators f (index + 1)
  ]

unfoldable pub defined_enum : Parse (Unit {0})
defined_enum = do
  expects (codes "{")
  n ← tokens_left
  enumerators (suc n) 0
  consumes_indent
  expects (codes ";")

unfoldable pub parse_typedef : Parse (Unit {0})
parse_typedef = do
  base ← parse_type_base none true
  t ← pointers base
  name ← consumes_indent
  alias ← pointed name
  modify λ s. record s { typedefs = record { name = token_name alias; type = t } ∷ s.typedefs }
  expects (codes ";")

-- The stars of a global's type, each with a name behind it that replaces the one before: the token
-- after the last, and the type.
unfoldable pub starred : ℕ → Option Token → CType → Parse (Option Token × CType)
starred zero tok t = fails out_of_fuel
starred (suc f) tok t = do
  more ← consumes (codes "*")
  elim more [
    | true ↦ do name ← consumes_indent; starred f name (pointer_to t)
    | false ↦ pure (tok, t)
  ]

unfoldable pub named_pointers : Option Token → CType → Parse (Token × CType)
named_pointers tok t = do
  n ← tokens_left
  (name, t') ← starred (suc n) tok t
  tok' ← pointed name
  pure (tok', t')

-- 8 for `int`, 1 for `char`, else 0.
abbrev pub base_size : TypeKind → ℤ
base_size TypeKind.int = pos 8
base_size TypeKind.char = pos 1
base_size _ = pos 0

-- The size of the outermost array, if there is one.
abbrev pub times_outer : CType → ℤ → ℤ
times_outer (type TypeKind.array text len t n) size = mul_size size n
times_outer _ size = size

unfoldable pub add_gvar : GVar → Parse (Unit {0})
add_gvar v = modify λ s. record s { globals = v ∷ s.globals }

unfoldable pub declared_gvar : Option Token → TypeKind → Parse Node
declared_gvar tok kind = do
  (tok', base) ← named_pointers tok (plain_type kind)
  (t, is_array, count) ← dimensions base
  add_gvar (record { name = token_name tok'; type = t })
  expects (codes ";")
  pure (
      gvardef (token_name tok') t
        (times_outer (if is_array then t else plain_type kind) (base_size kind)))

-- The product of the sizes of the arrays of a type.
abbrev pub elements : CType → ℤ → ℤ
elements null count = count
elements (type k text len null n) count = count
elements (type TypeKind.array text len (type k' x' l' t' n') n) count =
    elements (type k' x' l' t' n') (mul_size count n)
elements (type _ text len (type k' x' l' t' n') n) count = elements (type k' x' l' t' n') count

-- The size of a global whose structure has the name.
unfoldable pub struct_gvar_size : Name → CType → Parse ℤ
struct_gvar_size tag null = fails fault
struct_gvar_size tag (type TypeKind.array text len t n) =
    lift (mul_int (elements (type TypeKind.array text len t n) (pos 1)) (pos 8))
struct_gvar_size tag (type TypeKind.struct text len t n) = do
  found ← gets λ s. find_defined_structs s.structs s.aliases tag
  def ← pointed found
  pure def.offset
struct_gvar_size tag (type TypeKind.ptr text len t n) = pure (pos 8)
struct_gvar_size tag (type k text len t n) = pure (base_size k)

unfoldable pub next_name : Parse Name
next_name = do name ← consumes_indent; tok ← pointed name; pure (token_name tok)

-- `calloc(100, 1)` holds a copy of the structure's name.
unfoldable pub declared_structs_gvar : Token → TypeKind → Parse Node
declared_structs_gvar tok kind = do
  let tag : Name = record { text = take tok.len tok.str; len = tok.len }
  if ltb 100 tag.len then fails fault else pure tt
  (tok', top) ← named_pointers (some tok) (with_name tag (plain_type kind))
  name ← if has_kind top TypeKind.struct then next_name else pure (token_name tok')
  (t, is_array, count) ← dimensions top
  add_gvar (record { name = name; type = t })
  expects (codes ";")
  size ← struct_gvar_size tag t
  pure (gvardef name t size)
