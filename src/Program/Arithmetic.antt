-- ===== src/Program/Arithmetic.antt =====
-- parser.c and codegen.c together, on arithmetic expressions: what the code of printed tokens computes.
use native.Mathlib.Omega.{arith}
use cc.Base.{
  ℕ, ◌+◌, ◌*◌, ◌≤◌, ◌≡◌, refl, Bool, true, List, ◌∷◌, ◌++◌, Option, none, some, length,
  if◌then◌else◌,
}
use mathlib.Core.Path.{subst}
use cc.Base.Int.{pos}
use cc.Base.Outcome.{ok}
use cc.Token.{Token}
use cc.Node.{Node, BinaryKind, binary}
use cc.Asm.{Line, equal, not_equal, less, less_equal}
use cc.Codegen.Gen.{gen}
use cc.Codegen.Meaning.{eval, operate, is_expr}
use cc.Codegen.Runs.{Registers, state, IsBytes, Agrees}
use cc.Codegen.Total.{gen-runs, names_fit}
use cc.Machine.{Layout, exec, ◌>>=◌}
use cc.Machine.Word.{of_int, add_word, sub_word, mul_word, divide_words, holds, Memory}
use cc.Parser.{Parser}
use cc.Parser.Expr.{Call}
use cc.Parser.Stmt.{run}
use cc.Parser.Print.{Op, Expr, tree, make, print}
use cc.Parser.Levels.{on, rejects}
use cc.Parser.Roundtrip.{run-print}

abbrev truth : Bool → ℕ
truth b = if b then 1 else 0

-- The operators on 64-bit words; `none` is the trap of a division.
abbrev pub combine : Op → ℕ → ℕ → Option ℕ
combine Op.equal v u = some (truth (holds equal v u))
combine Op.unequal v u = some (truth (holds not_equal v u))
combine Op.less v u = some (truth (holds less v u))
combine Op.at_most v u = some (truth (holds less_equal v u))
combine Op.greater v u = some (truth (holds less u v))
combine Op.at_least v u = some (truth (holds less_equal u v))
combine Op.plus v u = some (add_word v u)
combine Op.minus v u = some (sub_word v u)
combine Op.times v u = some (mul_word v u)
combine Op.over v u = do (q, r) ← divide_words v u; some q
combine Op.remainder v u = do (q, r) ← divide_words v u; some r

abbrev pub value : Expr → Option ℕ
value (Expr.literal n) = some (of_int (pos n))
value (Expr.apply o a b) = do v ← value a; u ← value b; combine o v u

make-is_expr :
    (o : Op) (l r : Node) → is_expr l ≡ true → is_expr r ≡ true → is_expr (make o l r) ≡ true
make-is_expr o l r h k = ground arith

pub tree-is_expr : (e : Expr) → is_expr (tree e) ≡ true
tree-is_expr (Expr.literal n) = refl
tree-is_expr (Expr.apply o a b) = make-is_expr o (tree a) (tree b) (tree-is_expr a) (tree-is_expr b)

module _ (w : Layout) (frame : ℕ) (mem : Memory) where
  -- The value of a node, the memory as it was.
  abbrev pub Has : Node → Option ℕ → Type 0
  Has n r = eval w frame n mem ≡ (r >>= λ v. some (v, mem))

  pub binary-Has :
      (k : BinaryKind) (l r : Node) (a b : Option ℕ)
      → Has l a
      → Has r b
      → Has (binary k l r) (a >>= λ v. b >>= λ u. operate k v u)
  unfolding eval
  binary-Has k l r none b h j = rw h refl
  binary-Has k l r (some v) none h j = rw h (rw j refl)
  binary-Has k l r (some v) (some u) h j = rw h (rw j refl)

  flip-Has :
      (k : BinaryKind) (l r : Node) (a b : Option ℕ)
      → Has l a
      → Has r b
      → Has (binary k r l) (a >>= λ v. b >>= λ u. operate k u v)
  flip-Has k l r none none h j = binary-Has k r l none none j h
  flip-Has k l r none (some u) h j = binary-Has k r l (some u) none j h
  flip-Has k l r (some v) none h j = binary-Has k r l none (some v) j h
  flip-Has k l r (some v) (some u) h j = binary-Has k r l (some u) (some v) j h

  make-Has :
      (o : Op) (l r : Node) (a b : Option ℕ)
      → Has l a
      → Has r b
      → Has (make o l r) (a >>= λ v. b >>= λ u. combine o v u)
  unfolding operate
  make-Has Op.greater l r a b h j = flip-Has BinaryKind.lt l r a b h j
  make-Has Op.at_least l r a b h j = flip-Has BinaryKind.le l r a b h j
  make-Has Op.equal l r a b h j = binary-Has BinaryKind.eq l r a b h j
  make-Has Op.unequal l r a b h j = binary-Has BinaryKind.ne l r a b h j
  make-Has Op.less l r a b h j = binary-Has BinaryKind.lt l r a b h j
  make-Has Op.at_most l r a b h j = binary-Has BinaryKind.le l r a b h j
  make-Has Op.plus l r a b h j = binary-Has BinaryKind.add l r a b h j
  make-Has Op.minus l r a b h j = binary-Has BinaryKind.sub l r a b h j
  make-Has Op.times l r a b h j = binary-Has BinaryKind.mul l r a b h j
  make-Has Op.over l r a b h j = binary-Has BinaryKind.div l r a b h j
  make-Has Op.remainder l r a b h j = binary-Has BinaryKind.modulo l r a b h j

  pub tree-Has : (e : Expr) → Has (tree e) (value e)
  unfolding eval
  tree-Has (Expr.literal n) = refl
  tree-Has (Expr.apply o a b) =
      make-Has o (tree a) (tree b) (value a) (value b) (tree-Has a) (tree-Has b)

make-names_fit :
    (o : Op) (l r : Node) → names_fit l ≡ true → names_fit r ≡ true → names_fit (make o l r) ≡ true
make-names_fit o l r h k = ground arith

pub tree-names_fit : (e : Expr) → names_fit (tree e) ≡ true
tree-names_fit (Expr.literal n) = refl
tree-names_fit (Expr.apply o a b) =
    make-names_fit o (tree a) (tree b) (tree-names_fit a) (tree-names_fit b)

-- The printed tokens of an arithmetic expression, before a token that is no binary operator, are read
-- by expr, with fuel for the tokens, as a node for which gen gives code, from any counter; and wherever
-- that code is run, with a memory of bytes, it leaves the expression's value on 64-bit words on the
-- stack, and the memory, the frame and the stack below as they were, or traps, if a division of the
-- expression traps.
pub run-gen-value :
    (w : Layout) (e : Expr) (f : ℕ) (s : Parser) (rest : List ℕ) (t : Token) (ts : List Token)
    (i frame : ℕ) (g : Registers) (stack : List ℕ) (mem : Memory)
    → rejects 5 t ≡ true
    → 16 * length (print 5 e rest) + 6 ≤ f
    → IsBytes mem
    → (n : Node) × (ls : List Line) × (j : ℕ) × (run f Call.assign (on s (print 5 e rest ++ t ∷ ts))
        ≡ ok (n, on s (t ∷ ts)))
      × (gen n i ≡ ok (ls, j))
      × Agrees frame stack (value e >>= λ v. some (v, mem)) (exec w ls (state g frame stack mem))
run-gen-value w e f s rest t ts i frame g stack mem h le b =
    let (ls, j, made, right) =
      gen-runs w (tree e) i frame g stack mem (tree-is_expr e) (tree-names_fit e) b in
    (
      tree e,
      ls,
      j,
      run-print e f s rest t ts h le,
      made,
      subst (λ r. Agrees frame stack r (exec w ls (state g frame stack mem)))
          (tree-Has w frame mem e) right,
    )
