-- ===== src/Parser/Leaves/Declare.antt =====
-- The declarations of variables leave fewer tokens than they are given.
use cc.Base.{
  ℕ, zero, suc, ◌-◌, ◌<◌, Bool, true, false, List, [], ◌∷◌, Option, none, some, arith, codes,
  if◌then◌else◌,
}
use cc.Base.Int.{ℤ, pos, negsuc}
use cc.Base.Outcome.{ok, err, fault, not_defined, not_self_pointer}
use cc.Base.CInt.{add_int, mul_int, div_int, mul_size, to_size}
use cc.Token.{Token, TokenKind, struct_kw}
use cc.Node.{TypeKind, CType, null, type, Name, has_kind}
use cc.Container.{StructDef, token_name}
use cc.Types.{get_next_offset, get_size}
use cc.Parser.{Parser, pure, lift, gets, modify, fails, consumes_kind, consumes_indent, pointed}
use cc.Parser.Declare.{
  find_structs, check_struct, first_kind, simple_types, struct_type, typedef_type, parse_type_base,
  stars, pointers, brackets, dimensions, array_offset, next_offset, declared_lvar, self_pointer,
  struct_lvar, untyped_lvar, typed_lvar, declared_lvar_undefined_type, array_of, plain_type,
  named_type, find_structs_at, declare_structs, is_parent, pointer_to,
}
use cc.Parser.Leaves.{
  Fueled, Fueled-bind, Leaves, Leaves-pure, Leaves-fails, Leaves-lift, Leaves-gets, Leaves-pointed,
  Leaves-le, Leaves-modify, Leaves-then, Leaves-split, Leaves-if, Leaves-reports,
}
use cc.Parser.Leaves.Reading.{
  Leaves-consumes, Leaves-consumes_kind, Leaves-expects, Leaves-expects_number, Leaves-peek,
  Leaves-tokens_left, consumes_indent-Leaves, consumes_kind-Leaves,
}

pub find_structs-Leaves : {n : ℕ} (name : Name) → Leaves n n (find_structs name)
unfolding find_structs
find_structs-Leaves name = Leaves-gets _

pub check_struct-Leaves :
    {n : ℕ} (tok : Token) (parent : Option Token) → Leaves n n (check_struct tok parent)
unfolding check_struct
check_struct-Leaves tok parent =
    Leaves-then (find_structs (token_name tok)) _ (find_structs-Leaves (token_name tok)) (
      Leaves-split _
        (Leaves-if (is_parent (token_name tok) parent) _ _ (Leaves-pure tt (omega arith))
          (Leaves-reports 50 not_defined (token_name tok)))
        λ _.
          Leaves-if (is_parent (token_name tok) parent) _ _ (Leaves-pure tt (omega arith))
            (Leaves-pure tt (omega arith)))

pub first_kind-Leaves :
    {A : Type 0} {n : ℕ} (table : List (TokenKind × A)) → Leaves n n (first_kind table)
unfolding first_kind
first_kind-Leaves [] = Leaves-pure none (omega arith)
first_kind-Leaves ((kind, a) ∷ rest) =
    Leaves-consumes_kind kind _ (λ _. Leaves-pure (some a) (omega arith))
      λ _. first_kind-Leaves rest

struct_type-Leaves :
    {n : ℕ} (parent : Option Token) (allow : Bool) → Leaves n n (struct_type parent allow)
unfolding struct_type
struct_type-Leaves {n} parent allow = Leaves-then consumes_indent _ (consumes_indent-Leaves) λ name.
    Leaves-then (pointed name) _ (Leaves-pointed name) λ tok.
      Leaves-then _ _
        (Leaves-if allow _ _ (Leaves-pure tt (omega arith)) (check_struct-Leaves tok parent))
        λ _. Leaves-pure _ (omega arith)

typedef_type-Leaves : {n : ℕ} → Leaves n n typedef_type
unfolding typedef_type
typedef_type-Leaves = Leaves-peek _ λ h tok. Leaves-then (gets _) _ (Leaves-gets _) (
    Leaves-split _ (Leaves-pure null (omega arith)) λ found.
      Leaves-then consumes_indent _ (consumes_indent-Leaves) λ _. Leaves-pure _ (omega arith))

pub parse_type_base-Leaves :
    {n : ℕ} (parent : Option Token) (allow : Bool) → Leaves n n (parse_type_base parent allow)
unfolding parse_type_base
parse_type_base-Leaves parent allow =
    Leaves-then (first_kind simple_types) _ (first_kind-Leaves simple_types) (
      Leaves-split _
        (Leaves-then (consumes_kind struct_kw) _ (consumes_kind-Leaves struct_kw) λ is_struct.
          Leaves-if is_struct _ _ (struct_type-Leaves parent allow) typedef_type-Leaves)
        λ k. Leaves-pure _ (omega arith))

pub stars-Leaves : (f : ℕ) (t : CType) (n : ℕ) → n < f → Leaves n n (stars f t)
unfolding stars
stars-Leaves zero t n lt = absurd (omega arith)
stars-Leaves (suc f) t n lt =
    Leaves-consumes (codes "*") _
      (λ h. Leaves-le _ (stars-Leaves f (pointer_to t) (n - 1) (omega arith)) (omega arith))
      λ h. Leaves-pure t (omega arith)

pub pointers-Leaves : {n : ℕ} (t : CType) → Leaves n n (pointers t)
unfolding pointers
pointers-Leaves t =
    Leaves-tokens_left _ λ m le. Leaves-le _ (stars-Leaves (suc m) t m (omega arith)) le

brackets-Leaves :
    (f : ℕ) (t : CType) (is_array : Bool) (count : ℤ) (n : ℕ)
    → n < f
    → Leaves n n (brackets f t is_array count)
unfolding brackets
brackets-Leaves zero t is_array count n lt = absurd (omega arith)
brackets-Leaves (suc f) t is_array count n lt =
    Leaves-consumes (codes "[") _
      (λ h. Leaves-expects_number _ λ h' v. Leaves-expects (codes "]") _ λ h''.
        Leaves-le _
          (brackets-Leaves f (array_of (to_size v) t) true (mul_size count (to_size v))
            (n - 1 - 1 - 1) (omega arith))
          (omega arith))
      λ h. Leaves-pure _ (omega arith)

pub dimensions-Leaves : {n : ℕ} (t : CType) → Leaves n n (dimensions t)
unfolding dimensions
dimensions-Leaves t =
    Leaves-tokens_left _
      λ m le. Leaves-le _ (brackets-Leaves (suc m) t false (pos 1) m (omega arith)) le

pub test-Fueled : {A : Type 0} (b : Bool) (a : A) → Fueled (if b then ok a else err fault)
test-Fueled true a = tt
test-Fueled false a = cc

pub div_int-Fueled : (a b : ℤ) → Fueled (div_int a b)
div_int-Fueled a b = ground arith

array_offset-Fueled : (count size : ℤ) → Fueled (array_offset count size)
unfolding array_offset
array_offset-Fueled count size = Fueled-bind (add_int count (negsuc 0)) _ (test-Fueled _ _) λ last.
    Fueled-bind (mul_int last size) _ (test-Fueled _ _) λ bytes.
      Fueled-bind (div_int last (pos 8)) _ (div_int-Fueled last (pos 8)) λ eighth.
        Fueled-bind (add_int eighth (pos 1)) _ (test-Fueled _ _)
          λ rounds. Fueled-bind (mul_int rounds (pos 8)) _ (test-Fueled _ _) λ room. test-Fueled _ _

pub next_offset-Leaves : {n : ℕ} (size : ℤ) → Leaves n n (next_offset size)
unfolding next_offset get_next_offset
next_offset-Leaves size = Leaves-then (gets _) _ (Leaves-gets _) λ s.
    Leaves-then (lift (get_next_offset s.locals s.offset size)) _ (Leaves-lift _ (test-Fueled _ _))
      λ offset. Leaves-then (modify _) _ (Leaves-modify _) λ _. Leaves-pure offset (omega arith)

pub declared_lvar-Leaves :
    {n : ℕ} (kind : TypeKind) (size : ℤ) → Leaves n n (declared_lvar kind size)
unfolding declared_lvar
declared_lvar-Leaves kind size =
    Leaves-then (pointers (plain_type kind)) _ (pointers-Leaves (plain_type kind)) λ top.
      Leaves-then consumes_indent _ consumes_indent-Leaves λ name.
        Leaves-then (pointed name) _ (Leaves-pointed name) λ tok.
          Leaves-then (dimensions top) _ (dimensions-Leaves top) λ d.
            Leaves-then _ _
              (Leaves-if d.1 _ _ (Leaves-lift _ (array_offset-Fueled d.2 size))
                (next_offset-Leaves size))
              λ offset. Leaves-pure _ (omega arith)

self_pointer-Leaves : {n : ℕ} (name : Name) → Leaves n n (self_pointer name)
unfolding self_pointer
self_pointer-Leaves name =
    Leaves-then (declared_lvar TypeKind.struct (pos 8)) _
      (declared_lvar-Leaves TypeKind.struct (pos 8))
      λ v.
        Leaves-if (has_kind v.type TypeKind.ptr) _ _ (Leaves-pure _ (omega arith))
          (Leaves-reports 50 not_self_pointer v.name)

struct_lvar-Leaves :
    {n : ℕ} (parent : Option Token) (name : Name) → Leaves n n (struct_lvar parent name)
unfolding struct_lvar
struct_lvar-Leaves parent name = Leaves-then (find_structs name) _ (find_structs-Leaves name) (
    Leaves-split _
      (Leaves-if (is_parent name parent) _ _ (self_pointer-Leaves name)
        (Leaves-reports 50 not_defined name))
      λ found. Leaves-if (is_parent name parent) _ _ (self_pointer-Leaves name) (
        Leaves-then (declared_lvar TypeKind.struct found.offset) _
          (declared_lvar-Leaves TypeKind.struct found.offset) λ v. Leaves-pure _ (omega arith)))

untyped_lvar-Leaves : {n : ℕ} → Leaves n n untyped_lvar
unfolding untyped_lvar
untyped_lvar-Leaves = Leaves-then consumes_indent _ consumes_indent-Leaves (
    Leaves-split _ (Leaves-peek _ λ h tok. Leaves-fails _ (λ e. cc))
      λ tok. declared_lvar-Leaves TypeKind.int (pos 8))

pub get_size-Fueled : (t : CType) → Fueled (get_size t)
unfolding get_size
get_size-Fueled t = ground arith

typed_lvar-Leaves : {n : ℕ} (parent : Option Token) (t : CType) → Leaves n n (typed_lvar parent t)
unfolding typed_lvar
typed_lvar-Leaves parent null = untyped_lvar-Leaves
typed_lvar-Leaves parent (type k text len t m) =
    Leaves-if (has_kind (type k text len t m) TypeKind.struct) _ _
      (struct_lvar-Leaves parent (record { text = text; len = len }))
      (Leaves-then (lift (get_size (type k text len t m))) _
        (Leaves-lift _ (get_size-Fueled (type k text len t m)))
        λ size. declared_lvar-Leaves k (pos size))

pub declared_lvar_undefined_type-Leaves :
    {n : ℕ} (parent : Option Token) → Leaves n n (declared_lvar_undefined_type parent)
unfolding declared_lvar_undefined_type
declared_lvar_undefined_type-Leaves parent =
    Leaves-then (parse_type_base parent false) _ (parse_type_base-Leaves parent false)
      λ base. typed_lvar-Leaves parent base

no_structs-Leaves :
    {n : ℕ} (s : Parser)
    → Leaves n n (elim s.structs [
      | _ ∷ _ ↦ fails fault
      | [] ↦ elim s.aliases [ _ ∷ _ ↦ fails fault | [] ↦ pure {A = Option StructDef} none ]
    ])
no_structs-Leaves {n} s =
    elim s.structs
      as (λ xs. Leaves n n (elim xs [
        | _ ∷ _ ↦ fails fault
        | [] ↦ elim s.aliases [ _ ∷ _ ↦ fails fault | [] ↦ pure {A = Option StructDef} none ]
      ])) [
        | _ ∷ _ ↦ Leaves-fails fault (λ e. cc)
        | [] ↦
            elim s.aliases
              as (λ xs.
                Leaves n n
                  (elim xs [ _ ∷ _ ↦ fails fault | [] ↦ pure {A = Option StructDef} none ])) [
                    | _ ∷ _ ↦ Leaves-fails fault (λ e. cc)
                    | [] ↦ Leaves-pure none (omega arith)
                  ]
      ]

pub find_structs_at-Leaves : {n : ℕ} (tok : Option Token) → Leaves n n (find_structs_at tok)
unfolding find_structs_at
find_structs_at-Leaves (some tok) = find_structs-Leaves (token_name tok)
find_structs_at-Leaves none = Leaves-then (gets _) _ (Leaves-gets _) λ s. no_structs-Leaves s

pub declare_structs-Leaves : {n : ℕ} → Leaves n n declare_structs
unfolding declare_structs
declare_structs-Leaves = Leaves-then consumes_indent _ consumes_indent-Leaves λ struct_name.
    Leaves-then (find_structs_at struct_name) _ (find_structs_at-Leaves struct_name) λ found.
      Leaves-then (pointed found) _ (Leaves-pointed found) λ def.
        Leaves-then (pointers (named_type TypeKind.struct def.name)) _
          (pointers-Leaves (named_type TypeKind.struct def.name))
          λ t. Leaves-then consumes_indent _ consumes_indent-Leaves λ name.
            Leaves-then (pointed name) _ (Leaves-pointed name) λ tok.
              Leaves-then (next_offset def.offset) _ (next_offset-Leaves def.offset)
                λ offset. Leaves-pure _ (omega arith)
