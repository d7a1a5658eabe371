-- ===== src/Parser/Leaves/Define.antt =====
-- The definitions outside of functions leave fewer tokens than they are given.
use cc.Base.{ℕ, zero, suc, ◌+◌, ◌-◌, ◌<◌, true, List, [], ◌∷◌, Option, none, arith, codes, ltb}
use cc.Base.Int.{ℤ, pos}
use cc.Base.Outcome.{fault}
use cc.Base.CInt.{add_int}
use cc.Token.{Token}
use cc.Node.{TypeKind, CType, null, type, Name, Member, has_kind}
use cc.Container.{GVar}
use cc.Parser.{lift, gets, modify, consumes_indent, pointed}
use cc.Parser.Declare.{
  plain_type, pointer_to, parse_type_base, pointers, dimensions, declared_lvar_undefined_type,
}
use cc.Parser.Define.{
  members, defined_struct, enumerators, defined_enum, parse_typedef, starred, named_pointers,
  add_gvar, declared_gvar, struct_gvar_size, next_name, declared_structs_gvar,
}
use cc.Parser.Leaves.{
  Leaves, Leaves-pure, Leaves-fails, Leaves-lift, Leaves-gets, Leaves-pointed, Leaves-le,
  Leaves-modify, Leaves-then, Leaves-if,
}
use cc.Parser.Leaves.Reading.{
  Leaves-consumes, Leaves-expects, Leaves-tokens_left, consumes_indent-Leaves, expects-Leaves,
}
use cc.Parser.Leaves.Declare.{
  parse_type_base-Leaves, pointers-Leaves, dimensions-Leaves, declared_lvar_undefined_type-Leaves,
  test-Fueled,
}

members-Leaves :
    (f : ℕ) (tok : Option Token) (vs : List Member) (offset : ℤ) (n : ℕ)
    → n < f
    → Leaves n n (members f tok vs offset)
unfolding members
members-Leaves zero tok vs offset n lt = absurd (omega arith)
members-Leaves (suc f) tok vs offset n lt =
    Leaves-consumes (codes "}") _ (λ h. Leaves-pure _ (omega arith))
      λ h.
        Leaves-then (declared_lvar_undefined_type tok) _ (declared_lvar_undefined_type-Leaves tok)
          λ v.
            Leaves-then (lift (add_int offset v.offset)) _ (Leaves-lift _ (test-Fueled _ _)) λ next.
              Leaves-expects (codes ";") _ λ h'.
                Leaves-le _
                  (members-Leaves f tok
                    (record { name = v.name; offset = offset; type = v.type } ∷ vs) next (n - 1)
                    (omega arith))
                  (omega arith)

pub defined_struct-Leaves : {n : ℕ} (name : Option Token) → Leaves n (n - 1) (defined_struct name)
unfolding defined_struct
defined_struct-Leaves {n} name = Leaves-expects (codes "{") _ λ h. Leaves-tokens_left _ λ m le.
    Leaves-then (members (suc m) name [] (pos 0)) _
      (members-Leaves (suc m) name [] (pos 0) m (omega arith))
      λ ms. Leaves-expects (codes ";") _ λ h'.
        Leaves-then (pointed name) _ (Leaves-pointed name)
          λ tok. Leaves-then (modify _) _ (Leaves-modify _) λ _. Leaves-pure _ (omega arith)

enumerators-Leaves : (f index n : ℕ) → n < f → Leaves n n (enumerators f index)
unfolding enumerators
enumerators-Leaves zero index n lt = absurd (omega arith)
enumerators-Leaves (suc f) index n lt =
    Leaves-consumes (codes "}") _ (λ h. Leaves-pure tt (omega arith))
      λ h. Leaves-then consumes_indent _ consumes_indent-Leaves λ name.
        Leaves-then (pointed name) _ (Leaves-pointed name) λ tok.
          Leaves-then (modify _) _ (Leaves-modify _) λ _.
            Leaves-expects (codes ",") _ λ h'.
              Leaves-le _ (enumerators-Leaves f (index + 1) (n - 1) (omega arith)) (omega arith)

pub defined_enum-Leaves : {n : ℕ} → Leaves n (n - 1) defined_enum
unfolding defined_enum
defined_enum-Leaves {n} = Leaves-expects (codes "{") _ λ h. Leaves-tokens_left _ λ m le.
    Leaves-then (enumerators (suc m) 0) _ (enumerators-Leaves (suc m) 0 m (omega arith)) λ _.
      Leaves-then consumes_indent _ consumes_indent-Leaves
        λ _. Leaves-le _ (expects-Leaves (codes ";")) (omega arith)

pub parse_typedef-Leaves : {n : ℕ} → Leaves n (n - 1) parse_typedef
unfolding parse_typedef
parse_typedef-Leaves =
    Leaves-then (parse_type_base none true) _ (parse_type_base-Leaves none true) λ base.
      Leaves-then (pointers base) _ (pointers-Leaves base) λ t.
        Leaves-then consumes_indent _ consumes_indent-Leaves λ name.
          Leaves-then (pointed name) _ (Leaves-pointed name)
            λ alias. Leaves-then (modify _) _ (Leaves-modify _) λ _. expects-Leaves (codes ";")

starred-Leaves :
    (f : ℕ) (tok : Option Token) (t : CType) (n : ℕ) → n < f → Leaves n n (starred f tok t)
unfolding starred
starred-Leaves zero tok t n lt = absurd (omega arith)
starred-Leaves (suc f) tok t n lt =
    Leaves-consumes (codes "*") _
      (λ h. Leaves-then consumes_indent _ consumes_indent-Leaves λ name.
        Leaves-le _ (starred-Leaves f name (pointer_to t) (n - 1) (omega arith)) (omega arith))
      λ h. Leaves-pure _ (omega arith)

named_pointers-Leaves : {n : ℕ} (tok : Option Token) (t : CType) → Leaves n n (named_pointers tok t)
unfolding named_pointers
named_pointers-Leaves tok t = Leaves-tokens_left _ λ m le.
    Leaves-then (starred (suc m) tok t) _ (starred-Leaves (suc m) tok t m (omega arith))
      λ r. Leaves-then (pointed r.0) _ (Leaves-pointed r.0) λ tok'. Leaves-pure _ le

add_gvar-Leaves : {n : ℕ} (v : GVar) → Leaves n n (add_gvar v)
unfolding add_gvar
add_gvar-Leaves v = Leaves-modify _

pub declared_gvar-Leaves :
    {n : ℕ} (tok : Option Token) (kind : TypeKind) → Leaves n (n - 1) (declared_gvar tok kind)
unfolding declared_gvar
declared_gvar-Leaves tok kind =
    Leaves-then (named_pointers tok (plain_type kind)) _
      (named_pointers-Leaves tok (plain_type kind))
      λ r. Leaves-then (dimensions r.1) _ (dimensions-Leaves r.1) λ d.
        Leaves-then (add_gvar _) _ (add_gvar-Leaves _)
          λ _. Leaves-expects (codes ";") _ λ h. Leaves-pure _ (omega arith)

struct_gvar_size-Leaves : {n : ℕ} (tag : Name) (t : CType) → Leaves n n (struct_gvar_size tag t)
unfolding struct_gvar_size
struct_gvar_size-Leaves tag null = Leaves-fails fault (λ e. cc)
struct_gvar_size-Leaves tag (type TypeKind.array text len t m) = Leaves-lift _ (test-Fueled _ _)
struct_gvar_size-Leaves tag (type TypeKind.struct text len t m) =
    Leaves-then (gets _) _ (Leaves-gets _) λ found.
      Leaves-then (pointed found) _ (Leaves-pointed found) λ def. Leaves-pure _ (omega arith)
struct_gvar_size-Leaves tag (type _ text len t m) = Leaves-pure _ (omega arith)

next_name-Leaves : {n : ℕ} → Leaves n n next_name
unfolding next_name
next_name-Leaves =
    Leaves-then consumes_indent _ consumes_indent-Leaves
      λ name. Leaves-then (pointed name) _ (Leaves-pointed name) λ tok. Leaves-pure _ (omega arith)

pub declared_structs_gvar-Leaves :
    {n : ℕ} (tok : Token) (kind : TypeKind) → Leaves n (n - 1) (declared_structs_gvar tok kind)
unfolding declared_structs_gvar
declared_structs_gvar-Leaves tok kind =
    Leaves-then _ _
      (Leaves-if (ltb 100 tok.len) _ _ (Leaves-fails fault (λ e. cc))
        (Leaves-pure tt (omega arith)))
      λ _. Leaves-then (named_pointers _ _) _ (named_pointers-Leaves _ _) λ r.
        Leaves-then _ _
          (Leaves-if (has_kind r.1 TypeKind.struct) _ _ next_name-Leaves
            (Leaves-pure _ (omega arith)))
          λ name. Leaves-then (dimensions r.1) _ (dimensions-Leaves r.1) λ d.
            Leaves-then (add_gvar _) _ (add_gvar-Leaves _) λ _. Leaves-expects (codes ";") _ λ h.
              Leaves-then (struct_gvar_size _ d.0) _ (struct_gvar_size-Leaves _ d.0)
                λ size. Leaves-pure _ (omega arith)
