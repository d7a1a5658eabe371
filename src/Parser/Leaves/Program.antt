-- ===== src/Parser/Leaves/Program.antt =====
-- Each definition takes a token, so that program ends with the fuel that it has.
use cc.Base.{
  ℕ, zero, suc, ◌-◌, ◌≤◌, ◌<◌, ◌≡◌, ◌≢◌, ◌⊎◌, inl, inr, refl, List, [], ◌∷◌, ◌++◌, Option, none,
  some, arith, codes, if◌then◌else◌, length, leb,
}
use cc.Base.Int.{pos}
use cc.Base.Outcome
use cc.Base.Outcome.{Result, ok, err, Failure, fault, out_of_fuel}
use cc.Token.{Token, TokenKind, typedef_kw, enum_kw, struct_kw}
use cc.Node.{TypeKind, CType, Node, null, lvar}
use cc.Cursor.{at_eof}
use cc.Parser.{Parser, Parse, pure, modify, ◌>>=◌, consumes_kind, consumes_indent, pointed}
use cc.Parser.Declare.{pointers, declared_lvar_undefined_type, find_structs_at, next_offset}
use cc.Parser.Define.{defined_enum}
use cc.Parser.Expr.{Call}
use cc.Parser.Stmt.{run}
use cc.Parser.Program.{
  last_kind, base_types, typedef_step, is_brace, alias_step, late_typedef, params, enough,
  function_step, data_step, definition_step, define_function_or_gvar, definitions, program,
  zero_node,
}
use cc.Parser.Leaves.{
  Leaves, Ends, Leaves-pure, Leaves-fails, Leaves-pointed, Leaves-le, Leaves-from, Leaves-modify,
  Leaves-bind, Leaves-then, Leaves-split, Leaves-if,
}
use cc.Parser.Leaves.Reading.{
  Leaves-consumes, Leaves-consumes_kind, Leaves-expects, Leaves-peek, Leaves-tokens_left,
  Leaves-reads, Takes, consumes_indent-Leaves, consumes_kind-Leaves,
}
use cc.Parser.Leaves.Declare.{
  pointers-Leaves, declared_lvar_undefined_type-Leaves, find_structs_at-Leaves, next_offset-Leaves,
}
use cc.Parser.Leaves.Define.{
  defined_struct-Leaves, defined_enum-Leaves, parse_typedef-Leaves, declared_gvar-Leaves,
  declared_structs_gvar-Leaves,
}
use cc.Parser.Leaves.Calls.{rank_le, Leaves-assoc, Leaves-given}
use cc.Parser.Leaves.Stmt.{run-Fine}

last_kind-Leaves :
    {n : ℕ} (table : List (TokenKind × TypeKind)) (ty : Option TypeKind)
    → Leaves n n (last_kind table ty)
unfolding last_kind
last_kind-Leaves [] ty = Leaves-pure ty (omega arith)
last_kind-Leaves ((kind, k) ∷ rest) ty =
    Leaves-then (consumes_kind kind) _ (consumes_kind-Leaves kind)
      λ found. last_kind-Leaves rest (if found then some k else ty)

typedef_step-Leaves : {n : ℕ} → Leaves n n typedef_step
unfolding typedef_step
typedef_step-Leaves {n} =
    Leaves-then (consumes_kind enum_kw) _ (consumes_kind-Leaves enum_kw) λ is_enum.
      Leaves-bind _ _ (Leaves-if is_enum _ _ defined_enum-Leaves parse_typedef-Leaves)
        λ _. Leaves-pure _ (omega arith)

alias_step-Leaves : {n : ℕ} → Leaves n n alias_step
unfolding alias_step
alias_step-Leaves = Leaves-then consumes_indent _ consumes_indent-Leaves λ tag.
    Leaves-peek _ λ h next. Leaves-if (is_brace next) _ _ (Leaves-pure none (omega arith)) (
      Leaves-then consumes_indent _ consumes_indent-Leaves λ name.
        Leaves-expects (codes ";") _ λ h'. Leaves-then (pointed tag) _ (Leaves-pointed tag) λ tag'.
          Leaves-then (pointed name) _ (Leaves-pointed name)
            λ alias. Leaves-then (modify _) _ (Leaves-modify _) λ _. Leaves-pure _ (omega arith))

-- After the keyword.
late-Leaves :
    {n : ℕ}
    → Leaves n n (
        consumes_kind enum_kw >>= λ is_enum.
        if is_enum
        then (defined_enum >>= λ _. pure (some zero_node))
        else (consumes_kind struct_kw >>= λ is_struct. if is_struct then alias_step else pure none))
late-Leaves {n} = Leaves-then (consumes_kind enum_kw) _ (consumes_kind-Leaves enum_kw) λ is_enum.
    Leaves-if is_enum _ _
      (Leaves-bind defined_enum _ defined_enum-Leaves λ _. Leaves-pure _ (omega arith))
      (Leaves-then (consumes_kind struct_kw) _ (consumes_kind-Leaves struct_kw)
        λ is_struct. Leaves-if is_struct _ _ alias_step-Leaves (Leaves-pure none (omega arith)))

-- A node, for which a token was taken, or nothing.
late_typedef-Leaves :
    {n k : ℕ} (g : Option Node → Parse Node)
    → (1 ≤ n → (node : Node) → Leaves (n - 1) k (g (some node)))
    → Leaves n k (g none)
    → Leaves n k (late_typedef >>= g)
unfolding late_typedef
late_typedef-Leaves g taken ended = Leaves-assoc (consumes_kind typedef_kw) _ g (
    Leaves-consumes_kind typedef_kw _
      (λ h.
        Leaves-bind _ g late-Leaves
          (Leaves-split g (Leaves-from (g none) (omega arith) ended) (taken h)))
      λ h. Leaves-given none g ended)

params-Leaves : (f : ℕ) (before : List Node) (n : ℕ) → n < f → Leaves n n (params f before)
unfolding params
params-Leaves zero before n lt = absurd (omega arith)
params-Leaves (suc f) before n lt =
    Leaves-consumes (codes ")") _ (λ h. Leaves-pure before (omega arith))
      λ h.
        Leaves-then _ _
          (Leaves-if (leb 6 (length before)) _ _ (Leaves-fails _ (λ e. cc))
            (Leaves-pure tt (omega arith)))
          λ _.
            Leaves-then (declared_lvar_undefined_type none) _
              (declared_lvar_undefined_type-Leaves none)
              λ v. Leaves-then (modify _) _ (Leaves-modify _) λ _.
                Leaves-consumes (codes ",") _
                  (λ h'.
                    Leaves-le _
                      (params-Leaves f (before ++ lvar v.offset CType.null null ∷ []) (n - 1)
                        (omega arith))
                      (omega arith))
                  λ h'. Leaves-expects (codes ")") _ λ h''. Leaves-pure _ (omega arith)

function_step-Leaves : {n : ℕ} (name : Option Token) → Leaves n n (function_step name)
unfolding function_step
function_step-Leaves name = Leaves-then (pointed name) _ (Leaves-pointed name) λ tok.
    Leaves-tokens_left _ λ m le.
      Leaves-then (params (suc m) []) _ (params-Leaves (suc m) [] m (omega arith)) λ parameters.
        Leaves-tokens_left _ λ m' le'.
          Leaves-then (run (enough m') Call.stmt) _
            ((run-Fine (enough m')).call m' Call.stmt (omega arith))
            λ body.
              Leaves-then (next_offset (pos 8)) _ (next_offset-Leaves (pos 8))
                λ offset. Leaves-pure _ (omega arith)

data_step-Leaves :
    {n : ℕ} (ty : Option TypeKind) (name : Option Token) → Leaves n (n - 1) (data_step ty name)
unfolding data_step
data_step-Leaves none name = Leaves-fails fault (λ e. cc)
data_step-Leaves (some TypeKind.struct) name =
    Leaves-then (find_structs_at name) _ (find_structs_at-Leaves name) (
      Leaves-split _ (defined_struct-Leaves name) λ _.
        Leaves-then (pointed name) _ (Leaves-pointed name)
          λ tok. declared_structs_gvar-Leaves tok TypeKind.struct)
data_step-Leaves (some ty) name = declared_gvar-Leaves name ty

definition_step-Leaves : {n : ℕ} (ty : Option TypeKind) → Leaves n (n - 1) (definition_step ty)
unfolding definition_step
definition_step-Leaves {n} ty = Leaves-then (pointers _) _ (pointers-Leaves _) λ _.
    Leaves-then consumes_indent _ consumes_indent-Leaves λ name.
      Leaves-consumes (codes "(") _ (λ h. function_step-Leaves name) λ h. data_step-Leaves ty name

pub define_function_or_gvar-Leaves : {n : ℕ} → Leaves n (n - 1) define_function_or_gvar
unfolding define_function_or_gvar
define_function_or_gvar-Leaves {n} = Leaves-then (modify _) _ (Leaves-modify _) λ _.
    Leaves-consumes_kind typedef_kw _ (λ h. typedef_step-Leaves)
      λ h. Leaves-then (last_kind base_types none) _ (last_kind-Leaves base_types none) λ ty.
        late_typedef-Leaves _ (λ h' node. Leaves-pure node (omega arith))
          (definition_step-Leaves ty)

at_eof-Takes :
    (n : ℕ) (ts : List Token)
    → length ts ≤ n
    → Takes n (λ _. n) (Outcome.◌>>=◌ (at_eof ts) λ b. ok (b, ts))
unfolding at_eof
at_eof-Takes n [] h = λ e. cc
at_eof-Takes n (t ∷ ts) h = omega arith

definitions-Leaves : (f : ℕ) (code : List Node) (n : ℕ) → n < f → Leaves n n (definitions f code)
unfolding definitions
definitions-Leaves zero code n lt = absurd (omega arith)
definitions-Leaves (suc f) code n lt =
    Leaves-reads (λ _. n) _ _ (at_eof-Takes n)
      λ h done.
        Leaves-if done _ _
          (Leaves-if (leb 100 (length code)) _ _ (Leaves-fails fault (λ e. cc))
            (Leaves-pure _ (omega arith)))
          (Leaves-bind define_function_or_gvar _ define_function_or_gvar-Leaves λ node.
            Leaves-if (leb 100 (length code)) _ _ (Leaves-fails fault (λ e. cc)) (
              Leaves-le _ (definitions-Leaves f (code ++ node ∷ []) (n - 1) (omega arith))
                (omega arith)))

program-Leaves : {n : ℕ} → Leaves n n program
unfolding program
program-Leaves =
    Leaves-tokens_left _ λ m le. Leaves-le _ (definitions-Leaves (suc m) [] m (omega arith)) le

-- How a part of the parser ends: with a value, and no more tokens than before, or in a failure that is
-- not want of fuel.
abbrev pub EndsWell : {A : Type 0} → Parse A → Parser → Type 0
EndsWell {A} m s =
    ((a : A) × (s' : Parser) × (m s ≡ ok (a, s')) × (length s'.tokens ≤ length s.tokens))
    ⊎ ((e : Failure) × (m s ≡ err e) × (e ≢ out_of_fuel))

Leaves-EndsWell :
    {A : Type 0} (m : Parse A) (s : Parser)
    → Leaves (length s.tokens) (length s.tokens) m
    → EndsWell m s
Leaves-EndsWell {A} m s l = by_result (m s) (l.at s (omega arith)) refl
  where
    by_result : (r : Result (A × Parser)) → Ends (length s.tokens) r → m s ≡ r → EndsWell m s
    by_result (ok (a, s')) h e = inl (a, s', e, h)
    by_result (err x) h e = inr (x, e, h)

-- program ends, from any tokens and tables: with the nodes, and no more tokens than before, or in a
-- failure that is not want of fuel.
pub program-ends : (s : Parser) → EndsWell program s
program-ends s = Leaves-EndsWell program s program-Leaves

-- Each call of the functions for expressions and statements ends so, with fuel of 16 for each token
-- and 16 more.
pub run-ends : (c : Call) (s : Parser) (f : ℕ) → enough (length s.tokens) ≤ f → EndsWell (run f c) s
run-ends c s f le =
    Leaves-EndsWell (run f c) s ((run-Fine f).call (length s.tokens) c (omega (arith, rank_le c)))
