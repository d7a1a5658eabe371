-- ===== src/Parser/Levels.antt =====
-- The levels of the binary operators: what a call of each does with an operator, and at the end.
use cc.Base.{
  ℕ, zero, suc, ◌≤◌, ◌≡◌, refl, Bool, true, false, ◌&&◌, not, List, [], ◌∷◌, none, some, codes,
  arith, if◌then◌else◌,
}
use cc.Base.Int.{ℤ, pos}
use cc.Base.Outcome
use cc.Base.Outcome.{Result, ok, err, fault}
use cc.Token.{Token, reserved, same_kind}
use cc.Node.{Node, BinaryKind, binary}
use cc.Cursor.{is_op, consume}
use cc.Parser.{Parser, pure, reads, ◌>>=◌, consumes}
use cc.Parser.Expr.{
  Call, first_op, equality_ops, relational_ops, mul_ops, assign_ops, additive_ops, rounds,
  add_rest_step, assign_step,
}
use cc.Parser.Stmt.{step, run}
use cc.Parser.Print.{Op, Expr, text, make, tree, below, punct}

-- The parser with other tokens.
abbrev pub on : Parser → List Token → Parser
on s ts = record s { tokens = ts }

-- The call that reads a level, and the loop of the level above it.
abbrev pub call : ℕ → Call
call zero = Call.unary
call (suc zero) = Call.mul
call (suc (suc zero)) = Call.add
call (suc (suc (suc zero))) = Call.relational
call (suc (suc (suc (suc zero)))) = Call.equality
call _ = Call.assign

abbrev pub more : ℕ → Node → Call
more zero e = Call.mul_rest e
more (suc zero) e = Call.add_rest e
more (suc (suc zero)) e = Call.relational_rest e
more _ e = Call.equality_rest e

-- The operators of the loop.
abbrev pub ops : ℕ → List (List ℕ)
ops zero = codes "*" ∷ codes "/" ∷ codes "%" ∷ []
ops (suc zero) = codes "+" ∷ codes "-" ∷ []
ops (suc (suc zero)) = codes "<" ∷ codes "<=" ∷ codes ">" ∷ codes ">=" ∷ []
ops (suc (suc (suc zero))) = codes "==" ∷ codes "!=" ∷ []
ops _ = codes "=" ∷ codes "&&" ∷ codes "||" ∷ []

abbrev pub none_of : List (List ℕ) → Token → Bool
none_of [] t = true
none_of (op ∷ rest) t = not (same_kind t.kind reserved && is_op op t) && none_of rest t

-- No operator of a loop below the level begins at the token.
abbrev pub rejects : ℕ → Token → Bool
rejects zero t = true
rejects (suc k) t = none_of (ops k) t && rejects k t

-- The texts of a table.
abbrev texts : {A : Type 0} → List (List ℕ × A) → List (List ℕ)
texts [] = []
texts ((op, a) ∷ rest) = op ∷ texts rest

first_op-none :
    {A : Type 0} (table : List (List ℕ × A)) (s : Parser) (t : Token) (ts : List Token)
    → none_of (texts table) t ≡ true
    → first_op table (on s (t ∷ ts)) ≡ ok (none, on s (t ∷ ts))
unfolding first_op ◌>>=◌ consumes reads consume pure
first_op-none [] s t ts h = refl
first_op-none ((op, a) ∷ rest) s t ts h =
    by_test (first_op-none rest s t ts) (same_kind t.kind reserved && is_op op t) h
  where
    by_test :
        (none_of (texts rest) t ≡ true → first_op rest (on s (t ∷ ts)) ≡ ok (none, on s (t ∷ ts)))
        → (b : Bool) → not b && none_of (texts rest) t ≡ true
        → Outcome.◌>>=◌
            (Outcome.◌>>=◌
              (if b then ok (true, ts) else ok (false, t ∷ ts))
              λ (a', ts'). ok (a', on s ts'))
            (λ (found, s'). (if found then pure (some a) else first_op rest) s')
          ≡ ok (none, on s (t ∷ ts))
    by_test ih true e = absurd (cc)
    by_test ih false e = ih e

pub rank_rejects : (o : Op) (tail : List ℕ) → rejects (below o) (punct (text o) tail) ≡ true
rank_rejects Op.equal tail = refl
rank_rejects Op.unequal tail = refl
rank_rejects Op.less tail = refl
rank_rejects Op.at_most tail = refl
rank_rejects Op.greater tail = refl
rank_rejects Op.at_least tail = refl
rank_rejects Op.plus tail = refl
rank_rejects Op.minus tail = refl
rank_rejects Op.times tail = refl
rank_rejects Op.over tail = refl
rank_rejects Op.remainder tail = refl

pub below_le : (o : Op) → below o ≤ 3
below_le o = ground arith

pub start :
    (k f : ℕ) → suc k ≤ 4 → run (suc f) (call (suc k)) ≡ (run f (call k) >>= λ e. run f (more k e))
unfolding run step
start zero f h = refl
start (suc zero) f h = refl
start (suc (suc zero)) f h = refl
start (suc (suc (suc zero))) f h = refl
start (suc (suc (suc (suc k)))) f h = absurd (omega arith)

-- The nodes of arithmetic expressions have no type.
pub data Plain : Node → Type 0 where
  plain_num : (n : ℤ) → Plain (Node.num n)
  plain_binary : (k : BinaryKind) (l r : Node) → Plain (binary k l r)

make-Plain : (o : Op) (l r : Node) → Plain (make o l r)
make-Plain Op.equal l r = plain_binary _ _ _
make-Plain Op.unequal l r = plain_binary _ _ _
make-Plain Op.less l r = plain_binary _ _ _
make-Plain Op.at_most l r = plain_binary _ _ _
make-Plain Op.greater l r = plain_binary _ _ _
make-Plain Op.at_least l r = plain_binary _ _ _
make-Plain Op.plus l r = plain_binary _ _ _
make-Plain Op.minus l r = plain_binary _ _ _
make-Plain Op.times l r = plain_binary _ _ _
make-Plain Op.over l r = plain_binary _ _ _
make-Plain Op.remainder l r = plain_binary _ _ _

pub tree-Plain : (e : Expr) → Plain (tree e)
tree-Plain (Expr.literal n) = plain_num (pos n)
tree-Plain (Expr.apply o a b) = make-Plain o (tree a) (tree b)

pub round-op :
    (o : Op) (n : Node) (f : ℕ) (s : Parser) (tail : List ℕ) (ts : List Token)
    → Plain n
    → run (suc f) (more (below o) n) (on s (punct (text o) tail ∷ ts))
      ≡ (run f (call (below o)) >>= λ b. run f (more (below o) (make o n b))) (on s ts)
unfolding run step rounds first_op ◌>>=◌ consumes reads consume pure add_rest_step
round-op Op.equal n f s tail ts p = refl
round-op Op.unequal n f s tail ts p = refl
round-op Op.less n f s tail ts p = refl
round-op Op.at_most n f s tail ts p = refl
round-op Op.greater n f s tail ts p = refl
round-op Op.at_least n f s tail ts p = refl
round-op Op.times n f s tail ts p = refl
round-op Op.over n f s tail ts p = refl
round-op Op.remainder n f s tail ts p = refl
round-op Op.plus n f s tail ts (plain_num v) = refl
round-op Op.plus n f s tail ts (plain_binary k l r) = refl
round-op Op.minus n f s tail ts (plain_num v) = refl
round-op Op.minus n f s tail ts (plain_binary k l r) = refl

-- A loop ends at a token that is none of its operators.
pub round-end :
    (k : ℕ) (n : Node) (f : ℕ) (s : Parser) (t : Token) (ts : List Token)
    → k ≤ 3
    → Plain n
    → none_of (ops k) t ≡ true
    → run (suc f) (more k n) (on s (t ∷ ts)) ≡ ok (n, on s (t ∷ ts))
unfolding run step rounds ◌>>=◌ pure add_rest_step
round-end zero n f s t ts le p h = rw (first_op-none mul_ops s t ts h) refl
round-end (suc zero) n f s t ts le (plain_num v) h =
    rw (first_op-none (additive_ops (Node.num v)) s t ts h) refl
round-end (suc zero) n f s t ts le (plain_binary k l r) h =
    rw (first_op-none (additive_ops (binary k l r)) s t ts h) refl
round-end (suc (suc zero)) n f s t ts le p h = rw (first_op-none relational_ops s t ts h) refl
round-end (suc (suc (suc zero))) n f s t ts le p h = rw (first_op-none equality_ops s t ts h) refl
round-end (suc (suc (suc (suc k)))) n f s t ts le p h = absurd (omega arith)

-- So does assign.
pub assign-end :
    (n : Node) (f : ℕ) (s s' : Parser) (t : Token) (ts : List Token)
    → none_of (ops 4) t ≡ true
    → run f Call.equality s ≡ ok (n, on s' (t ∷ ts))
    → run (suc f) Call.assign s ≡ ok (n, on s' (t ∷ ts))
unfolding run step assign_step ◌>>=◌ pure
assign-end n f s s' t ts h e = rw e (rw (first_op-none assign_ops s' t ts h) refl)
