-- ===== src/Parser/Member.antt =====
-- parser.c: struct_ref, and the references to members behind a variable.
use cc.Base.{
  ℕ, zero, suc, Bool, true, false, ◌||◌, List, [], ◌∷◌, Option, none, some, if◌then◌else◌, codes,
}
use cc.Base.Int.{ℤ, pos}
use cc.Base.Outcome
use cc.Base.Outcome.{Result, ok, err, fault, exits, out_of_fuel, not_defined, not_implemented}
use cc.Token.{Token}
use cc.Node.{CType, null, Name, Node, structref, structref_ptr, Member}
use cc.Container.{StructDef, token_name, same_name, get_struct_node_offset}
use cc.Parser.{Parse, pure, lift, ◌>>=◌, fails, consumes, consumes_indent, tokens_left}
use cc.Parser.Declare.{type_name, find_structs}

-- The member that a reference names, in the structure that it is looked up in: its offset, and the
-- name of its own type; 0 and no name where there is none.
abbrev pub first_member : List Member → Name → Result (ℤ × Name)
first_member [] tok = ok (pos 0, record { text = []; len = 0 })
first_member (v ∷ vs) tok =
    if same_name v.name tok
    then Outcome.◌>>=◌ (type_name v.type) (λ n. ok (v.offset, n))
    else first_member vs tok

-- The lookups by a structure and a token that may both be null pointers; the token is not read where
-- there are no members.
abbrev pub with_member :
    {A : Type 0} → A → (StructDef → Token → Result A) → Option StructDef → Option Token → Result A
with_member a f none tok = err fault
with_member a f (some def) (some tok) = f def tok
with_member a f (some def) none = elim def.members [ [] ↦ ok a | _ ∷ _ ↦ err fault ]

unfoldable pub member_offset : Option StructDef → Option Token → Result ℤ
member_offset = with_member (pos 0) get_struct_node_offset

unfoldable pub member_of : Option StructDef → Option Token → Result (ℤ × Name)
member_of =
    with_member (pos 0, record { text = []; len = 0 })
      λ def tok. first_member def.members (token_name tok)

-- The reference after its operator: the member, and what follows it in the member's structure.
unfoldable pub follow : (Option StructDef → Parse Node) → Bool → Option StructDef → Parse Node
follow rec is_arrow def = do
  name ← consumes_indent
  (offset, inner_name) ← lift (member_of def name)
  inner ← find_structs inner_name
  rest ← rec inner
  pure (if is_arrow then structref_ptr offset rest else structref offset rest)

unfoldable pub struct_ref : ℕ → Option StructDef → Parse Node
struct_ref zero def = fails out_of_fuel
struct_ref (suc f) def = do
  is_arrow ← consumes (codes "->")
  is_point ← consumes (codes ".")
  elim (is_arrow || is_point) [ false ↦ pure null | true ↦ follow (struct_ref f) is_arrow def ]

-- After `->` and `.` behind a variable: the reference, from the type of the structure.
unfoldable pub member_step : (ℤ → Node → Node) → CType → Parse Node
member_step make t = do
  tag ← lift (type_name t)
  def ← find_structs tag
  name ← consumes_indent
  offset ← lift (member_offset def name)
  n ← tokens_left
  rest ← struct_ref (suc n) def
  pure (make offset rest)
