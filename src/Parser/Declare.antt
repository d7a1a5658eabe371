-- ===== src/Parser/Declare.antt =====
-- parser.c: the types and the variables of declarations, parse_type_base to declare_structs.
use cc.Base.{
  ℕ, zero, suc, Bool, true, false, List, [], ◌∷◌, Option, none, some, if◌then◌else◌, codes,
}
use cc.Base.Int.{ℤ, pos, negsuc}
use cc.Base.Outcome
use cc.Base.Outcome.{
  Result, ok, err, fault, out_of_fuel, not_defined, not_self_pointer, not_a_type, exits,
}
use cc.Base.CInt.{add_int, mul_int, div_int, mul_size, to_size}
use cc.Token.{Token, TokenKind, int_kw, char_kw, bool_kw, void_kw, struct_kw, indent, same_kind}
use cc.Node.{TypeKind, CType, null, type, Name, has_kind}
use cc.Container.{LVar, StructDef, token_name, same_name, find_defined_structs, find_typedef}
use cc.Types.{get_next_offset, get_size, copy_type}
use cc.Parser.{
  Parse, pure, lift, gets, modify, ◌>>=◌, ◌>>◌, fails, consumes, consumes_kind, consumes_indent,
  expects, expects_number, pointed, peek, reports, tokens_left,
}

-- A type of a kind, with the other fields as `calloc` leaves them.
abbrev pub plain_type : TypeKind → CType
plain_type k = type k [] 0 null 0

abbrev pub named_type : TypeKind → Name → CType
named_type k n = type k n.text n.len null 0

abbrev pub pointer_to : CType → CType
pointer_to t = type TypeKind.ptr [] 0 t 0

abbrev pub array_of : ℕ → CType → CType
array_of n t = type TypeKind.array [] 0 t n

-- `type_name` and `type_name_len`.
abbrev pub type_name : CType → Result Name
type_name null = err fault
type_name (type k text len t n) = ok (record { text = text; len = len })

abbrev pub with_name : Name → CType → CType
with_name n null = null
with_name n (type k _ _ t size) = type k n.text n.len t size

-- find_defined_structs on the tables of the parser.
unfoldable pub find_structs : Name → Parse (Option StructDef)
find_structs n = gets λ s. find_defined_structs s.structs s.aliases n

-- The same text and length as a token that may be null.
abbrev pub is_parent : Name → Option Token → Bool
is_parent n none = false
is_parent n (some parent) = same_name n (token_name parent)

-- A structure that has to be defined, unless it is the parent.
unfoldable pub check_struct : Token → Option Token → Parse (Unit {0})
check_struct tok parent = do
  def ← find_structs (token_name tok)
  if is_parent (token_name tok) parent
      then pure tt
      else elim def [ none ↦ reports 50 not_defined (token_name tok) | some _ ↦ pure tt ]

-- The first of the keywords that is consumed, and what it stands for.
unfoldable pub first_kind : {A : Type 0} → List (TokenKind × A) → Parse (Option A)
first_kind [] = pure none
first_kind ((kind, a) ∷ rest) = do
  found ← consumes_kind kind
  if found then pure (some a) else first_kind rest

abbrev pub simple_types : List (TokenKind × TypeKind)
simple_types =
    (int_kw, TypeKind.int)
    ∷ (char_kw, TypeKind.char)
    ∷ (bool_kw, TypeKind.bool)
    ∷ (void_kw, TypeKind.void)
    ∷ []

-- After `struct`.
unfoldable pub struct_type : Option Token → Bool → Parse CType
struct_type parent allow_undef = do
  name ← consumes_indent
  tok ← pointed name
  if allow_undef then pure tt else check_struct tok parent
  pure (named_type TypeKind.struct (token_name tok))

-- A name that a typedef gave to a type, if the next token is one.
unfoldable pub typedef_type : Parse CType
typedef_type = do
  tok ← peek
  td ← gets λ s. if same_kind tok.kind indent then find_typedef s.typedefs tok else none
  elim td [ none ↦ pure null | some found ↦ consumes_indent >> pure (copy_type found.type) ]

-- The type, or `null` where none is known.
unfoldable pub parse_type_base : Option Token → Bool → Parse CType
parse_type_base parent allow_undef = do
  simple ← first_kind simple_types
  elim simple [
    | some k ↦ pure (plain_type k)
    | none ↦ do
      is_struct ← consumes_kind struct_kw
      if is_struct then struct_type parent allow_undef else typedef_type
  ]

-- `while (consume("*"))`: the type under as many pointers as there are stars.
unfoldable pub stars : ℕ → CType → Parse CType
stars zero t = fails out_of_fuel
stars (suc f) t = do
  more ← consumes (codes "*")
  elim more [ true ↦ stars f (pointer_to t) | false ↦ pure t ]

unfoldable pub pointers : CType → Parse CType
pointers t = do n ← tokens_left; stars (suc n) t

-- `while (consume("["))`: the array type, whether there was a bracket, and `all_element_cnt`.
unfoldable pub brackets : ℕ → CType → Bool → ℤ → Parse (CType × Bool × ℤ)
brackets zero t is_array count = fails out_of_fuel
brackets (suc f) t is_array count = do
  more ← consumes (codes "[")
  elim more [
    | true ↦ do
      n ← expects_number
      expects (codes "]")
      brackets f (array_of (to_size n) t) true (mul_size count (to_size n))
    | false ↦ pure (t, is_array, count)
  ]

unfoldable pub dimensions : CType → Parse (CType × Bool × ℤ)
dimensions t = do n ← tokens_left; brackets (suc n) t false (pos 1)

-- `(all_element_cnt-1) * kind_size` and `((all_element_cnt-1) / 8 + 1) * 8`, added to 0 in turn.
unfoldable pub array_offset : ℤ → ℤ → Result ℤ
array_offset count kind_size = Outcome.◌>>=◌ (add_int count (negsuc 0)) λ last.
    Outcome.◌>>=◌ (mul_int last kind_size) λ size. Outcome.◌>>=◌ (div_int last (pos 8)) λ eighth.
      Outcome.◌>>=◌ (add_int eighth (pos 1))
        λ rounds. Outcome.◌>>=◌ (mul_int rounds (pos 8)) λ room. add_int size room

-- get_next_offset on the state.
unfoldable pub next_offset : ℤ → Parse ℤ
next_offset size = do
  s ← gets λ s. s
  offset ← lift (get_next_offset s.locals s.offset size)
  modify λ s'. record s' { offset = offset }
  pure offset

unfoldable pub declared_lvar : TypeKind → ℤ → Parse LVar
declared_lvar kind kind_size = do
  top ← pointers (plain_type kind)
  name ← consumes_indent
  tok ← pointed name
  (t, is_array, count) ← dimensions top
  offset ← if is_array then lift (array_offset count kind_size) else next_offset kind_size
  pure (record { name = token_name tok; offset = offset; type = t })

-- The variable with the structure's name in its type.
abbrev pub named_lvar : Name → LVar → LVar
named_lvar n v = record v { type = with_name n v.type }

-- A member that has its own structure's type: a pointer.
unfoldable pub self_pointer : Name → Parse LVar
self_pointer name = do
  v ← declared_lvar TypeKind.struct (pos 8)
  if has_kind v.type TypeKind.ptr
      then pure (named_lvar name v)
      else reports 50 not_self_pointer v.name

-- A variable of a structure's type.
unfoldable pub struct_lvar : Option Token → Name → Parse LVar
struct_lvar parent name = do
  def ← find_structs name
  if is_parent name parent then self_pointer name else elim def [
    | none ↦ reports 50 not_defined name
    | some found ↦ do v ← declared_lvar TypeKind.struct found.offset; pure (named_lvar name v)
  ]

-- A variable whose type is none that is known: `int` for a name, else an error.
unfoldable pub untyped_lvar : Parse LVar
untyped_lvar = do
  name ← consumes_indent
  elim name [
    | some tok ↦ declared_lvar TypeKind.int (pos 8)
    | none ↦ do tok ← peek; fails (exits (not_a_type tok.str))
  ]

-- By the type that parse_type_base gave.
unfoldable pub typed_lvar : Option Token → CType → Parse LVar
typed_lvar parent null = untyped_lvar
typed_lvar parent (type k text len t n) =
    if has_kind (type k text len t n) TypeKind.struct
    then struct_lvar parent (record { text = text; len = len })
    else (do size ← lift (get_size (type k text len t n)); declared_lvar k (pos size))

unfoldable pub declared_lvar_undefined_type : Option Token → Parse LVar
declared_lvar_undefined_type parent = do base ← parse_type_base parent false; typed_lvar parent base

-- find_defined_structs at a token that may be null: it is read where there is a name to compare.
unfoldable pub find_structs_at : Option Token → Parse (Option StructDef)
find_structs_at (some tok) = find_structs (token_name tok)
find_structs_at none = do
  s ← gets λ s. s
  elim s.structs [
    | _ ∷ _ ↦ fails fault
    | [] ↦ elim s.aliases [ _ ∷ _ ↦ fails fault | [] ↦ pure none ]
  ]

-- A local variable of a structure's type.
unfoldable pub declare_structs : Parse LVar
declare_structs = do
  struct_name ← consumes_indent
  found ← find_structs_at struct_name
  def ← pointed found
  t ← pointers (named_type TypeKind.struct def.name)
  name ← consumes_indent
  tok ← pointed name
  offset ← next_offset def.offset
  pure (record { name = token_name tok; offset = offset; type = t })
