-- ===== src/Parser/Leaves/Stmt.antt =====
-- The statements, and all the calls: `run` has enough fuel from 16 for each token on.
use cc.Base.{ℕ, zero, suc, ◌+◌, ◌-◌, ◌*◌, ◌≤◌, ◌<◌, List, [], ◌∷◌, ◌++◌, arith, codes}
use cc.Token.{else_kw}
use cc.Node.{Node}
use cc.Container.{LVar}
use cc.Parser.{Parse, modify}
use cc.Parser.Expr.{Call, Rec, equality_ops, relational_ops, mul_ops, mul_ptr_ops}
use cc.Parser.Stmt.{
  block_step, part, for_step, condition, if_step, while_step, is_semicolon, return_step, add_local,
  expression_step, statements, stmt_step, step, run,
}
use cc.Parser.Leaves.{
  Leaves, Leaves-pure, Leaves-le, Leaves-modify, Leaves-bind, Leaves-then, Leaves-if,
}
use cc.Parser.Leaves.Reading.{Leaves-consumes, Leaves-consumes_kind, Leaves-expects, Leaves-peek}
use cc.Parser.Leaves.Declare.{declared_lvar-Leaves, declare_structs-Leaves}
use cc.Parser.Leaves.Calls.{rank, Fine, Fine-any, Leaves-first_kind}
use cc.Parser.Leaves.Expr.{
  rounds-Leaves, level-Leaves, assign_step-Leaves, add_rest_step-Leaves, scaled-Leaves,
  unary_step-Leaves,
}
use cc.Parser.Leaves.Primary.{args_step-Leaves, primary_step-Leaves}

add_local-Leaves :
    {n : ℕ} (declared : Parse LVar) → Leaves n n declared → Leaves n n (add_local declared)
unfolding add_local
add_local-Leaves declared l = Leaves-then declared _ l λ v.
    Leaves-then (modify _) _ (Leaves-modify _)
      λ _. Leaves-expects (codes ";") _ λ h. Leaves-pure _ (omega arith)

module _ {f : ℕ} {rec : Rec} (fine : Fine f rec) where
  block_step-Leaves :
      {n : ℕ} (before : List Node) → 16 * n + 9 ≤ f → Leaves n n (block_step rec before)
  unfolding block_step
  block_step-Leaves {n} before le =
      Leaves-consumes (codes "}") _ (λ h. Leaves-pure _ (omega arith))
        λ h. Leaves-bind (rec Call.stmt) _ (fine.stmt n (omega arith)) λ e.
          Leaves-le _ (Fine-any fine (n - 1) (Call.block_rest (before ++ e ∷ [])) (omega arith))
            (omega arith)

  part-Leaves : {n : ℕ} (end : List ℕ) → 16 * n + 9 < f → Leaves n n (part rec end)
  unfolding part
  part-Leaves {n} end lt =
      Leaves-consumes end _ (λ h. Leaves-pure _ (omega arith))
        λ h.
          Leaves-then (rec Call.assign) _ (Fine-any fine n Call.assign lt)
            λ e. Leaves-expects end _ λ h'. Leaves-pure e (omega arith)

  for_step-Leaves : {n : ℕ} → 16 * n + 9 < f → Leaves n n (for_step rec)
  unfolding for_step
  for_step-Leaves {n} lt = Leaves-expects (codes "(") _ λ h.
      Leaves-then (part rec (codes ";")) _ (part-Leaves {n = n - 1} (codes ";") (omega arith))
        λ init.
          Leaves-then (part rec (codes ";")) _ (part-Leaves {n = n - 1} (codes ";") (omega arith))
            λ test.
              Leaves-then (part rec (codes ")")) _
                (part-Leaves {n = n - 1} (codes ")") (omega arith))
                λ upd.
                  Leaves-then (rec Call.stmt) _ (Fine-any fine (n - 1) Call.stmt (omega arith))
                    λ body. Leaves-pure _ (omega arith)

  condition-Leaves : {n : ℕ} → 16 * n + 9 < f → Leaves n n (condition rec)
  unfolding condition
  condition-Leaves {n} lt = Leaves-expects (codes "(") _ λ h.
      Leaves-then (rec Call.assign) _ (Fine-any fine (n - 1) Call.assign (omega arith))
        λ e. Leaves-expects (codes ")") _ λ h'. Leaves-pure e (omega arith)

  if_step-Leaves : {n : ℕ} → 16 * n + 9 < f → Leaves n n (if_step rec)
  unfolding if_step
  if_step-Leaves {n} lt = Leaves-then (condition rec) _ (condition-Leaves lt) λ test.
      Leaves-then (rec Call.stmt) _ (Fine-any fine n Call.stmt lt) λ body.
        Leaves-consumes_kind else_kw _
          (λ h.
            Leaves-then (rec Call.stmt) _ (Fine-any fine (n - 1) Call.stmt (omega arith))
              λ other. Leaves-pure _ (omega arith))
          λ h. Leaves-pure _ (omega arith)

  while_step-Leaves : {n : ℕ} → 16 * n + 9 < f → Leaves n n (while_step rec)
  unfolding while_step
  while_step-Leaves {n} lt = Leaves-then (condition rec) _ (condition-Leaves lt) λ test.
      Leaves-then (rec Call.stmt) _ (Fine-any fine n Call.stmt lt)
        λ body. Leaves-pure _ (omega arith)

  return_step-Leaves : {n : ℕ} → 16 * n + 9 < f → Leaves n n (return_step rec)
  unfolding return_step
  return_step-Leaves {n} lt = Leaves-peek _ λ h t.
      Leaves-then _ _
        (Leaves-if (is_semicolon t) _ _ (Leaves-pure _ (omega arith))
          (Fine-any fine n Call.assign lt))
        λ e. Leaves-expects (codes ";") _ λ h'. Leaves-pure _ (omega arith)

  expression_step-Leaves : {n : ℕ} → 16 * n + 6 < f → Leaves n (n - 1) (expression_step rec)
  unfolding expression_step
  expression_step-Leaves {n} lt =
      Leaves-then (rec Call.assign) _ (fine.call n Call.assign lt)
        λ e. Leaves-expects (codes ";") _ λ h. Leaves-pure e (omega arith)

  stmt_step-Leaves : {n : ℕ} → 16 * n + 8 ≤ f → Leaves n (n - 1) (stmt_step rec)
  unfolding stmt_step
  stmt_step-Leaves {n} le =
      Leaves-consumes (codes "{") _ (λ h. Fine-any fine (n - 1) (Call.block_rest []) (omega arith))
        λ h.
          Leaves-first_kind (statements rec) _
            (
              λ h. for_step-Leaves (omega arith),
              (
                λ h. if_step-Leaves (omega arith),
                (
                  λ h. while_step-Leaves (omega arith),
                  (
                    λ h. return_step-Leaves (omega arith),
                    (
                      λ h. add_local-Leaves _ (declared_lvar-Leaves _ _),
                      (
                        λ h. add_local-Leaves _ (declared_lvar-Leaves _ _),
                        (
                          λ h. add_local-Leaves _ (declared_lvar-Leaves _ _),
                          (λ h. add_local-Leaves _ declare_structs-Leaves, tt),
                        ),
                      ),
                    ),
                  ),
                ),
              ),
            )
            (expression_step-Leaves (omega arith))

  step-Leaves : (n : ℕ) (c : Call) → 16 * n + rank c ≤ f → Leaves n n (step rec c)
  unfolding step
  step-Leaves n Call.assign le = assign_step-Leaves fine le
  step-Leaves n Call.equality le =
      level-Leaves fine Call.relational Call.equality_rest (omega arith) λ e. omega arith
  step-Leaves n (Call.equality_rest e) le =
      rounds-Leaves fine equality_ops Call.relational Call.equality_rest _ e (omega arith)
        (Leaves-pure e (omega arith))
  step-Leaves n Call.relational le =
      level-Leaves fine Call.add Call.relational_rest (omega arith) λ e. omega arith
  step-Leaves n (Call.relational_rest e) le =
      rounds-Leaves fine relational_ops Call.add Call.relational_rest _ e (omega arith)
        (Leaves-pure e (omega arith))
  step-Leaves n Call.add le =
      level-Leaves fine Call.mul Call.add_rest (omega arith) λ e. omega arith
  step-Leaves n (Call.add_rest e) le = add_rest_step-Leaves fine e (omega arith)
  step-Leaves n Call.mul le =
      level-Leaves fine Call.unary Call.mul_rest (omega arith) λ e. omega arith
  step-Leaves n (Call.mul_rest e) le =
      rounds-Leaves fine mul_ops Call.unary Call.mul_rest _ e (omega arith)
        (Leaves-pure e (omega arith))
  step-Leaves n (Call.mul_ptr t) le =
      level-Leaves fine Call.unary (Call.mul_ptr_rest t) (omega arith) λ e. omega arith
  step-Leaves n (Call.mul_ptr_rest t e) le =
      rounds-Leaves fine mul_ptr_ops Call.unary (Call.mul_ptr_rest t) _ e (omega arith)
        (scaled-Leaves fine t e)
  step-Leaves n Call.unary le = unary_step-Leaves fine le
  step-Leaves n Call.primary le = primary_step-Leaves fine (omega arith)
  step-Leaves n (Call.args name before) le = args_step-Leaves fine name before le
  step-Leaves n Call.stmt le = Leaves-le _ (stmt_step-Leaves le) (omega arith)
  step-Leaves n (Call.block_rest before) le = block_step-Leaves before le

pub run-Fine : (f : ℕ) → Fine f (run f)
unfolding run step
run-Fine zero = record {
  call = λ n c lt. absurd (omega arith);
  stmt = λ n lt. absurd (omega arith);
}
run-Fine (suc f) = record {
  call = λ n c lt. step-Leaves (run-Fine f) n c (omega arith);
  stmt = λ n lt. stmt_step-Leaves (run-Fine f) (omega arith);
}
