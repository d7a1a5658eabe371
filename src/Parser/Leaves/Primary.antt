-- ===== src/Parser/Leaves/Primary.antt =====
-- The primary expressions, with enough fuel for the calls under them.
use cc.Base.{
  ℕ, zero, suc, ◌+◌, ◌-◌, ◌*◌, ◌≤◌, ◌<◌, List, [], ◌∷◌, Option, none, some, arith, codes, length,
  leb,
}
use mathlib.Core.List.{reverse}
use cc.Base.Int.{ℤ, pos, negsuc}
use cc.Base.Outcome
use cc.Base.Outcome.{Result, ok, err, fault, exits, not_defined}
use cc.Base.CInt.{mul_int, div_int}
use cc.Token.{Token, str, lt_char, struct_kw, true_kw, false_kw, same_kind}
use cc.Node.{CType, null, type, TypeKind, Name, Node, has_kind, structref, structref_ptr}
use cc.Types.{get_element_size, count_arrays}
use cc.Container.{LVar, GVar, token_name, find_lvar, find_gvar, find_defined_enum}
use cc.Parser.{
  Parser, Parse, lift, gets, modify, consumes, consumes_kind, consumes_indent, copy_into,
}
use cc.Parser.Declare.{find_structs_at, first_kind}
use cc.Parser.Expr.{Call, Rec, target}
use cc.Parser.Primary.{
  optional, cast_types, cast_prefix, paren_step, args_step, array_sizes, multiply, index_sum,
  index_step, variable_step, call_step, named, variable_or_enum, call_follows, name_step,
  literal_step, struct_step, atom_step, primary_step,
}
use cc.Parser.Leaves.{
  Fueled, Fueled-bind, Leaves, Ends, Leaves-pure, Leaves-fails, Leaves-lift, Leaves-gets, Leaves-le,
  Leaves-modify, Leaves-then, Leaves-split, Leaves-if, Leaves-reports, copy_into-Fueled,
}
use cc.Parser.Leaves.Reading.{
  Leaves-consumes, Leaves-consumes_kind, Leaves-consumes_indent, Leaves-expects,
  Leaves-expects_number, Leaves-peek, consumes-Leaves, consumes_kind-Leaves, consumes_indent-Leaves,
}
use cc.Parser.Leaves.Declare.{
  find_structs_at-Leaves, first_kind-Leaves, test-Fueled, div_int-Fueled,
}
use cc.Parser.Leaves.Calls.{Fine, Fine-any}
use cc.Parser.Leaves.Member.{member_step-Leaves}
use cc.Parser.Member.{member_step}

Ends-optional :
    {A : Type 0} (n : ℕ) (r : Result (Option A × Parser)) (s : Parser)
    → length s.tokens ≤ n
    → Ends n r
    → Ends n (
        Outcome.◌>>=◌ r λ (o, s'). elim o [
          | some a ↦ ok (some a, s')
          | none ↦ ok (none, record s' { tokens = s.tokens })
        ])
Ends-optional n (ok (some a, s')) s le h = h
Ends-optional n (ok (none, s')) s le h = le
Ends-optional n (err e) s le h = h

optional-Leaves :
    {A : Type 0} {n : ℕ} (m : Parse (Option A)) → Leaves n n m → Leaves n n (optional m)
unfolding optional
optional-Leaves {n = n} m l = record { at = λ s h. Ends-optional n (m s) s h (l.at s h) }

cast_prefix-Leaves : {n : ℕ} → Leaves n n cast_prefix
unfolding cast_prefix
cast_prefix-Leaves = Leaves-then (first_kind cast_types) _ (first_kind-Leaves cast_types) (
    Leaves-split _ (Leaves-pure none (omega arith)) λ _. Leaves-peek _ λ h next.
      Leaves-consumes (codes "*") _
        (λ h'.
          Leaves-then (consumes (codes ")")) _ (consumes-Leaves (codes ")"))
            λ close. Leaves-pure _ (omega arith))
        λ h'. Leaves-pure none (omega arith))

array_sizes-Fueled : (n : ℕ) (t : CType) → Fueled (array_sizes n t)
array_sizes-Fueled zero t = tt
array_sizes-Fueled (suc n) (type TypeKind.array text len t size) =
    Fueled-bind (array_sizes n t) _ (array_sizes-Fueled n t) λ rest. tt
array_sizes-Fueled (suc n) _ = λ e. cc

multiply-Fueled : (total : ℤ) (ns : List ℤ) → Fueled (multiply total ns)
multiply-Fueled total [] = tt
multiply-Fueled total (n ∷ ns) =
    Fueled-bind (mul_int total n) _ (test-Fueled _ _) λ total'. multiply-Fueled total' ns

get_element_size-Fueled : (t : CType) → Fueled (get_element_size t)
unfolding get_element_size
get_element_size-Fueled t = ground arith

call_follows-Fueled : (next : Token) → Fueled (call_follows next)
call_follows-Fueled next = ground arith

literal_step-Leaves : {n : ℕ} (tok : Token) → Leaves n n (literal_step tok)
unfolding literal_step
literal_step-Leaves tok = Leaves-then (gets _) _ (Leaves-gets _) λ k.
    Leaves-then _ _
      (Leaves-if (leb 100 k) _ _ (Leaves-fails fault (λ e. cc)) (Leaves-pure tt (omega arith)))
      λ _. Leaves-then (modify _) _ (Leaves-modify _) λ _.
        Leaves-then (consumes_kind str) _ (consumes_kind-Leaves str)
          λ _. Leaves-pure _ (omega arith)

struct_step-Leaves : {n : ℕ} → Leaves n n struct_step
unfolding struct_step
struct_step-Leaves = Leaves-then consumes_indent _ consumes_indent-Leaves λ name.
    Leaves-then (find_structs_at name) _ (find_structs_at-Leaves name)
      λ found. Leaves-pure _ (omega arith)

atom_step-Leaves : {n : ℕ} → Leaves n n atom_step
unfolding atom_step
atom_step-Leaves = Leaves-peek _ λ h tok.
    Leaves-if (same_kind tok.kind str) _ _ (literal_step-Leaves tok) (
      Leaves-consumes_kind lt_char _ (λ h. Leaves-pure _ (omega arith))
        λ h.
          Leaves-consumes_kind struct_kw _ (λ h. Leaves-le _ struct_step-Leaves (omega arith))
            λ h.
              Leaves-consumes_kind true_kw _ (λ h. Leaves-pure _ (omega arith))
                λ h.
                  Leaves-consumes_kind false_kw _ (λ h. Leaves-pure _ (omega arith))
                    λ h. Leaves-expects_number _ λ h n. Leaves-pure _ (omega arith))

module _ {f : ℕ} {rec : Rec} (fine : Fine f rec) where
  paren_step-Leaves : {n : ℕ} → 16 * n + 9 < f → Leaves n n (paren_step rec)
  unfolding paren_step
  paren_step-Leaves {n} lt =
      Leaves-then (optional cast_prefix) _ (optional-Leaves cast_prefix cast_prefix-Leaves) (
        Leaves-split _
          (Leaves-then (rec Call.assign) _ (Fine-any fine n Call.assign lt)
            λ node. Leaves-expects (codes ")") _ λ h. Leaves-pure node (omega arith))
          λ t.
            Leaves-then (rec Call.unary) _ (Fine-any fine n Call.unary lt)
              λ e. Leaves-pure _ (omega arith))

  pub args_step-Leaves :
      {n : ℕ} (name : Name) (before : List Node)
      → 16 * n + 4 ≤ f
      → Leaves n n (args_step rec name before)
  unfolding args_step
  args_step-Leaves {n} name before le =
      Leaves-consumes (codes ")") _ (λ h. Leaves-pure _ (omega arith))
        λ h. Leaves-if (leb 6 (length before)) _ _ (Leaves-fails _ (λ e. cc)) (
          Leaves-then (rec Call.add) _ (fine.call n Call.add (omega arith)) λ arg.
            Leaves-consumes (codes ",") _
              (λ h'. Leaves-le _ (Fine-any fine (n - 1) _ (omega arith)) (omega arith))
              λ h'. Leaves-expects (codes ")") _ λ h''. Leaves-pure _ (omega arith))

  index_sum-Leaves :
      {n : ℕ} (sizes : List ℤ) (total : ℤ) (node : Node)
      → 16 * n + 9 < f
      → Leaves n n (index_sum rec sizes total node)
  unfolding index_sum
  index_sum-Leaves [] total node lt = Leaves-pure node (omega arith)
  index_sum-Leaves {n} (size ∷ sizes) total node lt =
      Leaves-then (lift (div_int total size)) _ (Leaves-lift _ (div_int-Fueled total size))
        λ total'. Leaves-then (rec Call.equality) _ (Fine-any fine n Call.equality lt) λ index.
          Leaves-expects (codes "]") _ λ h.
            Leaves-then (consumes (codes "[")) _ (consumes-Leaves (codes "[")) λ _.
              Leaves-le _ (index_sum-Leaves {n = n - 1} sizes total' _ (omega arith)) (omega arith)

  index_step-Leaves :
      {n : ℕ} (t : CType) (node : Node) → 16 * n + 9 < f → Leaves n n (index_step rec t node)
  unfolding index_step
  index_step-Leaves null node lt = Leaves-fails fault (λ e. cc)
  index_step-Leaves {n} (type TypeKind.ptr text len t m) node lt =
      Leaves-then (rec Call.equality) _ (Fine-any fine n Call.equality lt) λ index.
        Leaves-expects (codes "]") _ λ h.
          Leaves-then (lift _) _
            (Leaves-lift _ (get_element_size-Fueled (type TypeKind.ptr text len t m)))
            λ size. Leaves-pure _ (omega arith)
  index_step-Leaves {n} (type k text len t m) node lt =
      let whole = type k text len t m in
      Leaves-then (lift _) _ (Leaves-lift _ (array_sizes-Fueled (count_arrays whole) whole))
        λ sizes.
          Leaves-then (lift (multiply (pos 1) sizes)) _
            (Leaves-lift _ (multiply-Fueled (pos 1) sizes))
            λ total.
              Leaves-then (index_sum rec (reverse sizes) total _) _
                (index_sum-Leaves {n = n} (reverse sizes) total _ lt)
                λ index.
                  Leaves-then (lift _) _ (Leaves-lift _ (get_element_size-Fueled whole))
                    λ size. Leaves-pure _ (omega arith)

  variable_step-Leaves :
      {n : ℕ} (t : CType) (node : Node) (make : Node → Node)
      → 16 * n + 9 < f
      → Leaves n n (variable_step rec t node make)
  unfolding variable_step
  variable_step-Leaves {n} t node make lt =
      Leaves-consumes (codes "[") _
        (λ h. Leaves-le _ (index_step-Leaves {n = n - 1} t node (omega arith)) (omega arith))
        λ h. Leaves-if (has_kind t TypeKind.array) _ _ (Leaves-pure _ (omega arith)) (
          Leaves-consumes (codes "->") _
            (λ h'.
              Leaves-then (member_step structref_ptr (target t)) _
                (member_step-Leaves structref_ptr (target t)) λ ref. Leaves-pure _ (omega arith))
            λ h'.
              Leaves-consumes (codes ".") _
                (λ h''.
                  Leaves-then (member_step structref t) _ (member_step-Leaves structref t)
                    λ ref. Leaves-pure _ (omega arith))
                λ h''. Leaves-pure node (omega arith))

  call_step-Leaves : {n : ℕ} (tok : Token) → 16 * n + 9 < f → Leaves n n (call_step rec tok)
  unfolding call_step
  call_step-Leaves {n} tok lt =
      Leaves-then (lift (copy_into 64 (token_name tok))) _
        (Leaves-lift _ (copy_into-Fueled 64 (token_name tok)))
        λ _.
          Leaves-expects (codes "(") _
            λ h. Leaves-le _ (Fine-any fine (n - 1) _ (omega arith)) (omega arith)

  named-Leaves :
      {n : ℕ} (tok : Token) (v : Option LVar) (g : Option GVar) (index : ℤ)
      → 16 * n + 9 < f
      → Leaves n n (named rec tok v g index)
  unfolding named
  named-Leaves tok (some v) g index lt =
      Leaves-then (modify _) _ (Leaves-modify _) λ _. variable_step-Leaves v.type _ _ lt
  named-Leaves tok none (some v) index lt = variable_step-Leaves v.type _ _ lt
  named-Leaves tok none none (pos k) lt = Leaves-pure _ (omega arith)
  named-Leaves tok none none (negsuc k) lt = Leaves-reports 64 not_defined (token_name tok)

  variable_or_enum-Leaves :
      {n : ℕ} (tok : Token) → 16 * n + 9 < f → Leaves n n (variable_or_enum rec tok)
  unfolding variable_or_enum
  variable_or_enum-Leaves tok lt = Leaves-then (gets _) _ (Leaves-gets _) λ s.
      named-Leaves tok (find_lvar s.locals tok) (find_gvar s.globals tok)
        (find_defined_enum s.enums tok) lt

  name_step-Leaves : {n : ℕ} (tok : Token) → 16 * n + 9 < f → Leaves n n (name_step rec tok)
  unfolding name_step
  name_step-Leaves tok lt = Leaves-peek _ λ h next.
      Leaves-then (lift (call_follows next)) _ (Leaves-lift _ (call_follows-Fueled next))
        λ is_call. Leaves-if is_call _ _ (call_step-Leaves tok lt) (variable_or_enum-Leaves tok lt)

  pub primary_step-Leaves : {n : ℕ} → 16 * n ≤ f → Leaves n n (primary_step rec)
  unfolding primary_step
  primary_step-Leaves {n} le =
      Leaves-consumes (codes "(") _
        (λ h. Leaves-le _ (paren_step-Leaves {n = n - 1} (omega arith)) (omega arith))
        λ h.
          Leaves-consumes_indent _
            (λ h' tok. Leaves-le _ (name_step-Leaves {n = n - 1} tok (omega arith)) (omega arith))
            λ h'. atom_step-Leaves
