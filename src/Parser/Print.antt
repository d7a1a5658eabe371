-- ===== src/Parser/Print.antt =====
-- Arithmetic expressions, their trees, and their printing to tokens with the parentheses that the
-- grammar of parser.c needs.
use cc.Base.{
  true, false, ℕ, zero, suc, ◌+◌, ◌/◌, ◌%◌, List, [], ◌∷◌, ◌++◌, codes, ltb, if◌then◌else◌, length,
}
use cc.Base.Int.{pos}
use cc.Token.{Token, TokenKind, reserved, new_token}
use cc.Node.{BinaryKind, Node, binary}

pub data Op : Type 0 where
  equal unequal less at_most greater at_least plus minus times over remainder : Op

pub data Expr : Type 0 where
  literal : ℕ → Expr
  apply : Op → Expr → Expr → Expr

abbrev pub text : Op → List ℕ
text Op.equal = codes "=="
text Op.unequal = codes "!="
text Op.less = codes "<"
text Op.at_most = codes "<="
text Op.greater = codes ">"
text Op.at_least = codes ">="
text Op.plus = codes "+"
text Op.minus = codes "-"
text Op.times = codes "*"
text Op.over = codes "/"
text Op.remainder = codes "%"

-- The node of an operator: `>` and `>=` are `<` and `<=` with the operands exchanged.
abbrev pub make : Op → Node → Node → Node
make Op.equal l r = binary BinaryKind.eq l r
make Op.unequal l r = binary BinaryKind.ne l r
make Op.less l r = binary BinaryKind.lt l r
make Op.at_most l r = binary BinaryKind.le l r
make Op.greater l r = binary BinaryKind.lt r l
make Op.at_least l r = binary BinaryKind.le r l
make Op.plus l r = binary BinaryKind.add l r
make Op.minus l r = binary BinaryKind.sub l r
make Op.times l r = binary BinaryKind.mul l r
make Op.over l r = binary BinaryKind.div l r
make Op.remainder l r = binary BinaryKind.modulo l r

abbrev pub tree : Expr → Node
tree (Expr.literal n) = Node.num (pos n)
tree (Expr.apply o a b) = make o (tree a) (tree b)

-- How loosely an operator binds, less one: the level of its right operand.
abbrev pub below : Op → ℕ
below Op.times = 0
below Op.over = 0
below Op.remainder = 0
below Op.plus = 1
below Op.minus = 1
below Op.less = 2
below Op.at_most = 2
below Op.greater = 2
below Op.at_least = 2
below Op.equal = 3
below Op.unequal = 3

-- A punctuator, a space and the text behind it.
abbrev pub punct : List ℕ → List ℕ → Token
punct t rest = new_token reserved (t ++ 32 ∷ rest) (length t)

-- The decimal digits of a number, in front of a text.
abbrev pub digits : ℕ → ℕ → List ℕ → List ℕ
digits zero n rest = rest
digits (suc f) n rest = elim (ltb n 10) [
  | true ↦ (48 + n) ∷ rest
  | false ↦ digits f (n / 10) ((48 + n % 10) ∷ rest)
]

abbrev pub decimal : ℕ → List ℕ
decimal n = digits (suc n) n []

abbrev pub number : ℕ → List ℕ → Token
number n rest = record {
  kind = TokenKind.num;
  val = pos n;
  str = decimal n ++ 32 ∷ rest;
  len = length (decimal n);
}

-- The text of an expression where the level is expected, and the rest: 0 is unary, 1 mul, 2 add,
-- 3 relational, 4 equality and 5 assign. The operators are associated to the left, and each token has
-- a space behind it.
abbrev pub spell : ℕ → Expr → List ℕ → List ℕ
spell k (Expr.literal n) rest = decimal n ++ 32 ∷ rest
spell k (Expr.apply o a b) rest =
    let all = λ (r : List ℕ). spell (suc (below o)) a (text o ++ 32 ∷ spell (below o) b r) in
    if ltb k (suc (below o)) then codes "(" ++ 32 ∷ all (codes ")" ++ 32 ∷ rest) else all rest

-- The tokens in parentheses, with the texts behind them.
abbrev pub wrap : List ℕ → List Token → List ℕ → List Token
wrap behind ts rest = punct (codes "(") behind ∷ ts ++ punct (codes ")") rest ∷ []

-- The tokens of that text, without those of the rest.
abbrev pub print : ℕ → Expr → List ℕ → List Token
print k (Expr.literal n) rest = number n rest ∷ []
print k (Expr.apply o a b) rest =
    let all = λ (r : List ℕ).
      print (suc (below o)) a (text o ++ 32 ∷ spell (below o) b r)
      ++ punct (text o) (spell (below o) b r) ∷ print (below o) b r in
    let whole = λ (r : List ℕ). spell (suc (below o)) a (text o ++ 32 ∷ spell (below o) b r) in
    if ltb k (suc (below o))
    then wrap (whole (codes ")" ++ 32 ∷ rest)) (all (codes ")" ++ 32 ∷ rest)) rest
    else all rest
