-- ===== src/Parser/Leaves/Member.antt =====
-- References to members leave no more tokens than they are given.
use cc.Base.{
  ℕ, zero, suc, ◌-◌, ◌<◌, Bool, true, false, List, [], ◌∷◌, Option, none, some, arith, codes,
  if◌then◌else◌,
}
use cc.Base.Int.{ℤ, pos}
use cc.Base.Outcome.{Result, ok, err, fault}
use cc.Token.{Token}
use cc.Node.{CType, null, type, Name, Node, Member}
use cc.Container.{StructDef, token_name, same_name, sum_offsets, get_struct_node_offset}
use cc.Parser.{Parse, lift, consumes_indent}
use cc.Parser.Declare.{type_name, find_structs}
use cc.Parser.Member.{
  first_member, with_member, member_offset, member_of, follow, struct_ref, member_step,
}
use cc.Parser.Leaves.{Fueled, Fueled-bind, Leaves, Leaves-pure, Leaves-lift, Leaves-le, Leaves-then}
use cc.Parser.Leaves.Reading.{Leaves-consumes, Leaves-tokens_left, consumes_indent-Leaves}
use cc.Parser.Leaves.Declare.{find_structs-Leaves, test-Fueled}

type_name-Fueled : (t : CType) → Fueled (type_name t)
type_name-Fueled null = λ e. cc
type_name-Fueled (type k text len t n) = tt

if-Fueled :
    {A : Type 0} (b : Bool) (x y : Result A) → Fueled x → Fueled y → Fueled (if b then x else y)
if-Fueled true x y h k = h
if-Fueled false x y h k = k

first_member-Fueled : (vs : List Member) (tok : Name) → Fueled (first_member vs tok)
first_member-Fueled [] tok = tt
first_member-Fueled (v ∷ vs) tok =
    if-Fueled (same_name v.name tok) _ _
      (Fueled-bind (type_name v.type) _ (type_name-Fueled v.type) λ n. tt)
      (first_member-Fueled vs tok)

with_member-Fueled :
    {A : Type 0} (a : A) (f : StructDef → Token → Result A) (def : Option StructDef)
    (tok : Option Token)
    → ((d : StructDef) (t : Token) → Fueled (f d t))
    → Fueled (with_member a f def tok)
with_member-Fueled a f none tok h = λ e. cc
with_member-Fueled a f (some def) (some tok) h = h def tok
with_member-Fueled {A = A} a f (some def) none h = by_members def.members
  where
    by_members :
        (ms : List Member) → Fueled (elim ms as (λ _. Result A) [ [] ↦ ok a | _ ∷ _ ↦ err fault ])
    by_members [] = tt
    by_members (m ∷ ms) = λ e. cc

member_of-Fueled : (def : Option StructDef) (tok : Option Token) → Fueled (member_of def tok)
unfolding member_of
member_of-Fueled def tok =
    with_member-Fueled _ _ def tok λ d t. first_member-Fueled d.members (token_name t)

sum_offsets-Fueled :
    (offset : ℤ) (vs : List Member) (tok : Name) → Fueled (sum_offsets offset vs tok)
unfolding sum_offsets
sum_offsets-Fueled offset [] tok = tt
sum_offsets-Fueled offset (v ∷ vs) tok =
    Fueled-bind _ _ (if-Fueled (same_name v.name tok) _ _ (test-Fueled _ _) tt)
      λ offset'. sum_offsets-Fueled offset' vs tok

member_offset-Fueled :
    (def : Option StructDef) (tok : Option Token) → Fueled (member_offset def tok)
unfolding member_offset get_struct_node_offset
member_offset-Fueled def tok =
    with_member-Fueled _ _ def tok λ d t. sum_offsets-Fueled (pos 0) d.members (token_name t)

follow-Leaves :
    {n : ℕ} (rec : Option StructDef → Parse Node) (is_arrow : Bool) (def : Option StructDef)
    → ((inner : Option StructDef) → Leaves n n (rec inner))
    → Leaves n n (follow rec is_arrow def)
unfolding follow
follow-Leaves rec is_arrow def l = Leaves-then consumes_indent _ consumes_indent-Leaves λ name.
    Leaves-then (lift (member_of def name)) _ (Leaves-lift _ (member_of-Fueled def name)) λ r.
      Leaves-then (find_structs r.1) _ (find_structs-Leaves r.1)
        λ inner. Leaves-then (rec inner) _ (l inner) λ rest. Leaves-pure _ (omega arith)

struct_ref-Leaves : (f : ℕ) (def : Option StructDef) (n : ℕ) → n < f → Leaves n n (struct_ref f def)
unfolding struct_ref
struct_ref-Leaves zero def n lt = absurd (omega arith)
struct_ref-Leaves (suc f) def n lt =
    Leaves-consumes (codes "->") _
      (λ h.
        Leaves-consumes (codes ".") _
          (λ h'.
            Leaves-le _
              (follow-Leaves (struct_ref f) true def
                λ inner. struct_ref-Leaves f inner (n - 1 - 1) (omega arith))
              (omega arith))
          λ h'.
            Leaves-le _
              (follow-Leaves (struct_ref f) true def
                λ inner. struct_ref-Leaves f inner (n - 1) (omega arith))
              (omega arith))
      λ h.
        Leaves-consumes (codes ".") _
          (λ h'.
            Leaves-le _
              (follow-Leaves (struct_ref f) false def
                λ inner. struct_ref-Leaves f inner (n - 1) (omega arith))
              (omega arith))
          λ h'. Leaves-pure _ (omega arith)

pub member_step-Leaves :
    {n : ℕ} (make : ℤ → Node → Node) (t : CType) → Leaves n n (member_step make t)
unfolding member_step
member_step-Leaves make t =
    Leaves-then (lift (type_name t)) _ (Leaves-lift _ (type_name-Fueled t)) λ tag.
      Leaves-then (find_structs tag) _ (find_structs-Leaves tag) λ def.
        Leaves-then consumes_indent _ consumes_indent-Leaves λ name.
          Leaves-then (lift (member_offset def name)) _
            (Leaves-lift _ (member_offset-Fueled def name))
            λ offset. Leaves-tokens_left _ λ m le.
              Leaves-then (struct_ref (suc m) def) _ (struct_ref-Leaves (suc m) def m (omega arith))
                λ rest. Leaves-pure _ le
