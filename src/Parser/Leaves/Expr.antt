-- ===== src/Parser/Leaves/Expr.antt =====
-- The levels of expressions, from assign to unary, with enough fuel for the calls under them.
use cc.Base.{ℕ, ◌+◌, ◌-◌, ◌*◌, ◌≤◌, ◌<◌, List, none, some, arith}
use cc.Base.Outcome.{fault}
use cc.Token.{sizeof_kw}
use cc.Node.{CType, Node, binary}
use cc.Parser.{Parse, pure, lift, gets, modify, ◌>>=◌}
use cc.Parser.Expr.{
  Call, Rec, first_op, rounds, assign_ops, assign_step, additive_ops, add_rest_step, target, scaled,
  sizeof_value, sizeof_step, prefix_ops, unary_step,
}
use cc.Parser.Leaves.{
  Fueled, Leaves, Leaves-pure, Leaves-fails, Leaves-lift, Leaves-gets, Leaves-le, Leaves-modify,
  Leaves-then,
}
use cc.Parser.Leaves.Reading.{Leaves-consumes_kind}
use cc.Parser.Leaves.Declare.{get_size-Fueled}
use cc.Parser.Leaves.Calls.{rank, Fine, Fine-any, Leaves-first_op}

sizeof_value-Fueled : (t : CType) (node : Node) → Fueled (sizeof_value t node)
unfolding sizeof_value
sizeof_value-Fueled t node = ground arith

module _ {f : ℕ} {rec : Rec} (fine : Fine f rec) {n : ℕ} where
  pub rounds-Leaves :
      (ops : List (List ℕ × (Node → Node → Node))) (operand : Call) (again : Node → Call)
      (end : Parse Node) (node : Node)
      → 16 * n ≤ f
      → Leaves n n end
      → Leaves n n (rounds rec ops operand again end node)
  unfolding rounds
  rounds-Leaves ops operand again end node le l =
      Leaves-first_op ops _
        (λ h make.
          Leaves-le _
            (Leaves-then (rec operand) _ (Fine-any fine (n - 1) operand (omega arith))
              λ rhs. Fine-any fine (n - 1) _ (omega arith))
            (omega arith))
        l

  -- A level: an operand of the level below, and the loop.
  pub level-Leaves :
      (operand : Call) (again : Node → Call)
      → 16 * n + rank operand < f
      → ((e : Node) → rank (again e) ≤ 0)
      → Leaves n n (rec operand >>= λ e. rec (again e))
  level-Leaves operand again lt low =
      Leaves-then (rec operand) _ (fine.call n operand lt)
        λ e. fine.call n (again e) (omega (arith, low e))

  pub assign_step-Leaves : 16 * n + 6 ≤ f → Leaves n n (assign_step rec)
  unfolding assign_step
  assign_step-Leaves le =
      Leaves-then (rec Call.equality) _ (fine.call n Call.equality (omega arith)) λ node.
        Leaves-first_op assign_ops _
          (λ h make.
            Leaves-then (rec Call.assign) _ (Fine-any fine (n - 1) Call.assign (omega arith))
              λ rhs. Leaves-pure _ (omega arith))
          (Leaves-pure node (omega arith))

  additive-Leaves :
      (node : Node)
      → 16 * n ≤ f
      → Leaves n n (
          first_op (additive_ops node) >>= λ op. elim op [
            | none ↦ pure node
            | some (kind, operand) ↦ do
              rhs ← rec operand
              rec (Call.add_rest (binary kind node rhs))
          ])
  additive-Leaves node le =
      Leaves-first_op (additive_ops node) _
        (λ h (kind, operand).
          Leaves-le _
            (Leaves-then (rec operand) _ (Fine-any fine (n - 1) operand (omega arith))
              λ rhs. Fine-any fine (n - 1) _ (omega arith))
            (omega arith))
        (Leaves-pure node (omega arith))

  pub add_rest_step-Leaves : (node : Node) → 16 * n ≤ f → Leaves n n (add_rest_step rec node)
  unfolding add_rest_step
  add_rest_step-Leaves Node.null le = Leaves-fails fault (λ e. cc)
  add_rest_step-Leaves node le = additive-Leaves node le

  pub scaled-Leaves : (t : CType) (node : Node) → Leaves n n (scaled t node)
  unfolding scaled
  scaled-Leaves t node =
      Leaves-then (lift _) _ (Leaves-lift _ (get_size-Fueled (target t)))
        λ size. Leaves-pure _ (omega arith)

  sizeof_step-Leaves : 16 * n + 9 < f → Leaves n n (sizeof_step rec)
  unfolding sizeof_step
  sizeof_step-Leaves lt = Leaves-then (modify _) _ (Leaves-modify _) λ _.
      Leaves-then (rec Call.primary) _ (Fine-any fine n Call.primary lt) λ node.
        Leaves-then (gets _) _ (Leaves-gets _) λ t.
          Leaves-then (lift (sizeof_value t node)) _ (Leaves-lift _ (sizeof_value-Fueled t node))
            λ size. Leaves-then (modify _) _ (Leaves-modify _) λ _. Leaves-pure _ (omega arith)

pub unary_step-Leaves :
    {f : ℕ} {rec : Rec} (fine : Fine f rec) {n : ℕ} → 16 * n + 1 ≤ f → Leaves n n (unary_step rec)
unfolding unary_step
unary_step-Leaves {f} {rec} fine {n} le =
    Leaves-first_op prefix_ops _
      (λ h make.
        Leaves-then (rec Call.unary) _ (Fine-any fine (n - 1) Call.unary (omega arith))
          λ e. Leaves-pure _ (omega arith))
      (Leaves-consumes_kind sizeof_kw _
        (λ h. Leaves-le _ (sizeof_step-Leaves fine (omega arith)) (omega arith))
        λ h. fine.call n Call.primary (omega arith))
