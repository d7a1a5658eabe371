-- ===== src/Parser/Stmt.antt =====
-- parser.c: stmt, and the bodies of all the calls with their fuel.
use cc.Base.{ℕ, zero, suc, Bool, ◌&&◌, List, [], ◌∷◌, ◌++◌, none, some, if◌then◌else◌, codes, ◌==◌}
use cc.Base.Int.{pos}
use cc.Base.Outcome.{out_of_fuel}
use cc.Util.{first_byte}
use cc.Token.{
  Token, TokenKind, reserved, for_kw, if_kw, else_kw, while_kw, return_kw, int_kw, char_kw, bool_kw,
  struct_kw, same_kind,
}
use cc.Node.{TypeKind, Node, null, num, return, while, if_only, if_else, for, block}
use cc.Container.{LVar}
use cc.Parser.{Parse, pure, modify, ◌>>=◌, ◌>>◌, fails, consumes, consumes_kind, expects, peek}
use cc.Parser.Declare.{declared_lvar, declare_structs, first_kind}
use cc.Parser.Expr.{
  Call, Rec, assign_step, equality_ops, relational_ops, mul_ops, mul_ptr_ops, add_rest_step, rounds,
  scaled, unary_step,
}
use cc.Parser.Primary.{primary_step, args_step, to_nodes}

-- The statements of a block up to the brace, with those before.
unfoldable pub block_step : Rec → List Node → Parse Node
block_step rec before = do
  done ← consumes (codes "}")
  if done
      then pure (block (to_nodes before))
      else do e ← rec Call.stmt; rec (Call.block_rest (before ++ e ∷ []))

-- An expression of `for` that may be missing, and what ends it.
unfoldable pub part : Rec → List ℕ → Parse Node
part rec end = do
  missing ← consumes end
  if missing then pure null else do e ← rec Call.assign; expects end; pure e

unfoldable pub for_step : Rec → Parse Node
for_step rec = do
  expects (codes "(")
  init ← part rec (codes ";")
  test ← part rec (codes ";")
  upd ← part rec (codes ")")
  body ← rec Call.stmt
  pure (for init test upd body)

-- `(`, an expression and `)`.
unfoldable pub condition : Rec → Parse Node
condition rec = do expects (codes "("); e ← rec Call.assign; expects (codes ")"); pure e

unfoldable pub if_step : Rec → Parse Node
if_step rec = do
  test ← condition rec
  body ← rec Call.stmt
  has_else ← consumes_kind else_kw
  if has_else
      then (rec Call.stmt >>= λ other. pure (if_else test body other))
      else pure (if_only test body)

unfoldable pub while_step : Rec → Parse Node
while_step rec = do test ← condition rec; body ← rec Call.stmt; pure (while test body)

-- `token->len == 1 && *token->str == ';'` of a punctuator.
abbrev pub is_semicolon : Token → Bool
is_semicolon t = same_kind t.kind reserved && (t.len == 1 && first_byte t.str == b';')

unfoldable pub return_step : Rec → Parse Node
return_step rec = do
  t ← peek
  e ← if is_semicolon t then pure null else rec Call.assign
  expects (codes ";")
  pure (return e)

-- A declared variable is put before the others.
unfoldable pub add_local : Parse LVar → Parse Node
add_local declared = do
  v ← declared
  modify λ s. record s { locals = v ∷ s.locals }
  expects (codes ";")
  pure (num (pos 0))

unfoldable pub expression_step : Rec → Parse Node
expression_step rec = do e ← rec Call.assign; expects (codes ";"); pure e

-- What follows each keyword that a statement begins with, in the order of the source.
abbrev pub statements : Rec → List (TokenKind × Parse Node)
statements rec =
    (for_kw, for_step rec)
    ∷ (if_kw, if_step rec)
    ∷ (while_kw, while_step rec)
    ∷ (return_kw, return_step rec)
    ∷ (int_kw, add_local (declared_lvar TypeKind.int (pos 8)))
    ∷ (char_kw, add_local (declared_lvar TypeKind.char (pos 1)))
    ∷ (bool_kw, add_local (declared_lvar TypeKind.bool (pos 1)))
    ∷ (struct_kw, add_local declare_structs)
    ∷ []

unfoldable pub stmt_step : Rec → Parse Node
stmt_step rec = do
  brace ← consumes (codes "{")
  if brace then rec (Call.block_rest []) else do
    found ← first_kind (statements rec)
    elim found [ some rest ↦ rest | none ↦ expression_step rec ]

-- The body of each call.
unfoldable pub step : Rec → Call → Parse Node
step rec Call.assign = assign_step rec
step rec Call.equality = do e ← rec Call.relational; rec (Call.equality_rest e)
step rec (Call.equality_rest e) =
    rounds rec equality_ops Call.relational Call.equality_rest (pure e) e
step rec Call.relational = do e ← rec Call.add; rec (Call.relational_rest e)
step rec (Call.relational_rest e) =
    rounds rec relational_ops Call.add Call.relational_rest (pure e) e
step rec Call.add = do e ← rec Call.mul; rec (Call.add_rest e)
step rec (Call.add_rest e) = add_rest_step rec e
step rec Call.mul = do e ← rec Call.unary; rec (Call.mul_rest e)
step rec (Call.mul_rest e) = rounds rec mul_ops Call.unary Call.mul_rest (pure e) e
step rec (Call.mul_ptr t) = do e ← rec Call.unary; rec (Call.mul_ptr_rest t e)
step rec (Call.mul_ptr_rest t e) =
    rounds rec mul_ptr_ops Call.unary (Call.mul_ptr_rest t) (scaled t e) e
step rec Call.unary = unary_step rec
step rec Call.primary = primary_step rec
step rec (Call.args name before) = args_step rec name before
step rec Call.stmt = stmt_step rec
step rec (Call.block_rest before) = block_step rec before

-- A call, with fuel for the calls under it.
unfoldable pub run : ℕ → Call → Parse Node
run zero c = fails out_of_fuel
run (suc f) c = step (run f) c
