-- ===== src/Program/Instructions.antt =====
-- codegen.c on arithmetic expressions: only instructions of the processor, with neither the frame's lines
-- nor `ret` among them.
use cc.Base.{ℕ, suc, ◌≡◌, refl, List, [], ◌∷◌, ◌++◌, All, All-append}
use cc.Base.Int.{pos}
use cc.Base.Outcome.{ok}
use cc.Node.{BinaryKind, Node, binary}
use cc.Asm.{Line, rax, rdi, push, pop, push_imm}
use cc.Codegen.{operation}
use cc.Codegen.Gen.{gen}
use cc.Machine.Call.{Ordinary, call_function}
use cc.Parser.Print.{Op, Expr, tree, make}

-- The lines of arithmetic expressions are instructions of the processor.
abbrev pub Produces : Node → ℕ → Type 0
Produces n i = (ls : List Line) × (j : ℕ) × (gen n i ≡ ok (ls, j)) × All Ordinary ls

operation-All : (k : BinaryKind) → All Ordinary (operation k)
unfolding call_function
operation-All BinaryKind.add = (λ w top ls m. refl, tt)
operation-All BinaryKind.sub = (λ w top ls m. refl, tt)
operation-All BinaryKind.mul = (λ w top ls m. refl, tt)
operation-All BinaryKind.div = (λ w top ls m. refl, (λ w top ls m. refl, tt))
operation-All BinaryKind.modulo =
    (λ w top ls m. refl, (λ w top ls m. refl, (λ w top ls m. refl, (λ w top ls m. refl, tt))))
operation-All BinaryKind.eq = (λ w top ls m. refl, (λ w top ls m. refl, (λ w top ls m. refl, tt)))
operation-All BinaryKind.ne = (λ w top ls m. refl, (λ w top ls m. refl, (λ w top ls m. refl, tt)))
operation-All BinaryKind.lt = (λ w top ls m. refl, (λ w top ls m. refl, (λ w top ls m. refl, tt)))
operation-All BinaryKind.le = (λ w top ls m. refl, (λ w top ls m. refl, (λ w top ls m. refl, tt)))
operation-All BinaryKind.and = (λ w top ls m. refl, tt)
operation-All BinaryKind.or = (λ w top ls m. refl, tt)

num-Produces : (v : ℕ) (i : ℕ) → Produces (Node.num (pos v)) i
unfolding gen call_function
num-Produces v i = (push_imm (pos v) ∷ [], suc i, refl, (λ w top ls m. refl, tt))

binary-Produces :
    (k : BinaryKind) (l r : Node)
    → ((i : ℕ) → Produces l i)
    → ((i : ℕ) → Produces r i)
    → (i : ℕ) → Produces (binary k l r) i
unfolding gen call_function
binary-Produces k l r h h' i =
    let (a, j, e, all) = h (suc i) in
    let (b, m, e', all') = h' j in
    (
      a ++ b ++ pop rdi ∷ pop rax ∷ operation k ++ push rax ∷ [],
      m,
      rw e (rw e' refl),
      All-append Ordinary (a ++ b ++ pop rdi ∷ pop rax ∷ operation k) _
          (All-append Ordinary (a ++ b) _ (All-append Ordinary a b all all')
            (λ w top ls m'. refl, (λ w top ls m'. refl, operation-All k)))
          (λ w top ls m'. refl, tt),
    )

make-Produces :
    (o : Op) (l r : Node)
    → ((i : ℕ) → Produces l i)
    → ((i : ℕ) → Produces r i)
    → (i : ℕ) → Produces (make o l r) i
make-Produces Op.equal l r h h' = binary-Produces BinaryKind.eq l r h h'
make-Produces Op.unequal l r h h' = binary-Produces BinaryKind.ne l r h h'
make-Produces Op.less l r h h' = binary-Produces BinaryKind.lt l r h h'
make-Produces Op.at_most l r h h' = binary-Produces BinaryKind.le l r h h'
make-Produces Op.greater l r h h' = binary-Produces BinaryKind.lt r l h' h
make-Produces Op.at_least l r h h' = binary-Produces BinaryKind.le r l h' h
make-Produces Op.plus l r h h' = binary-Produces BinaryKind.add l r h h'
make-Produces Op.minus l r h h' = binary-Produces BinaryKind.sub l r h h'
make-Produces Op.times l r h h' = binary-Produces BinaryKind.mul l r h h'
make-Produces Op.over l r h h' = binary-Produces BinaryKind.div l r h h'
make-Produces Op.remainder l r h h' = binary-Produces BinaryKind.modulo l r h h'

pub tree-Produces : (e : Expr) (i : ℕ) → Produces (tree e) i
tree-Produces (Expr.literal n) = num-Produces n
tree-Produces (Expr.apply o a b) =
    make-Produces o (tree a) (tree b) (tree-Produces a) (tree-Produces b)
