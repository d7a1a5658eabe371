-- ===== src/Program/Spelled.antt =====
-- The tokenizer makes the printed tokens of a spelled expression.
use cc.Base.{
  arith, ℕ, suc, ◌^◌, ◌<◌, refl, Bool, true, false, List, [], ◌∷◌, ◌++◌, codes, ltb, if◌then◌else◌,
}
use cc.Token.{Token}
use cc.Tokenizer.{lex_one, lex_rest}
use cc.Tokenizer.Lexes.{Lexes, Lexes-append, Lexes-token}
use cc.Tokenizer.Numbers.{number-Lexes}
use cc.Parser.Print.{Op, Expr, text, below, punct, spell, wrap, print}

-- The literals are an `int`.
abbrev pub Small : Expr → Type 0
Small (Expr.literal n) = n < 2 ^ 31
Small (Expr.apply o a b) = Small a × Small b

text-Lexes : (o : Op) (rest : List ℕ) → Lexes (punct (text o) rest ∷ []) (text o ++ 32 ∷ rest) rest
unfolding lex_one lex_rest
text-Lexes Op.equal rest = Lexes-token _ 2 _ rest refl refl (omega arith) refl
text-Lexes Op.unequal rest = Lexes-token _ 2 _ rest refl refl (omega arith) refl
text-Lexes Op.at_most rest = Lexes-token _ 2 _ rest refl refl (omega arith) refl
text-Lexes Op.at_least rest = Lexes-token _ 2 _ rest refl refl (omega arith) refl
text-Lexes Op.less rest = Lexes-token _ 1 _ rest refl refl (omega arith) refl
text-Lexes Op.greater rest = Lexes-token _ 1 _ rest refl refl (omega arith) refl
text-Lexes Op.plus rest = Lexes-token _ 1 _ rest refl refl (omega arith) refl
text-Lexes Op.minus rest = Lexes-token _ 1 _ rest refl refl (omega arith) refl
text-Lexes Op.times rest = Lexes-token _ 1 _ rest refl refl (omega arith) refl
text-Lexes Op.over rest = Lexes-token _ 1 _ rest refl refl (omega arith) refl
text-Lexes Op.remainder rest = Lexes-token _ 1 _ rest refl refl (omega arith) refl

pub open-Lexes : (rest : List ℕ) → Lexes (punct (codes "(") rest ∷ []) (codes "(" ++ 32 ∷ rest) rest
unfolding lex_one lex_rest
open-Lexes rest = Lexes-token _ 1 _ rest refl refl (omega arith) refl

pub close-Lexes :
    (rest : List ℕ) → Lexes (punct (codes ")") rest ∷ []) (codes ")" ++ 32 ∷ rest) rest
unfolding lex_one lex_rest
close-Lexes rest = Lexes-token _ 1 _ rest refl refl (omega arith) refl

wrap-Lexes :
    (X : List Token) (p rest : List ℕ)
    → Lexes X p (codes ")" ++ 32 ∷ rest)
    → Lexes (wrap p X rest) (codes "(" ++ 32 ∷ p) rest
wrap-Lexes X p rest h =
    let close = codes ")" ++ 32 ∷ rest in
    Lexes-append (punct (codes "(") p ∷ []) (X ++ punct (codes ")") rest ∷ []) (codes "(" ++ 32 ∷ p)
      p rest (open-Lexes p)
      (Lexes-append X (punct (codes ")") rest ∷ []) p close rest h (close-Lexes rest))

Lexes-if :
    (b : Bool) (X Z : List Token) (p q rest : List ℕ)
    → Lexes X p rest
    → Lexes Z q rest
    → Lexes (if b then X else Z) (if b then p else q) rest
Lexes-if true X Z p q rest h k = h
Lexes-if false X Z p q rest h k = k

-- The text of an expression whose literals are an `int` is made into its printed tokens, at each
-- level, with two rounds for each token, and the rest is left.
pub spell-Lexes :
    (e : Expr) (k : ℕ) (rest : List ℕ) → Small e → Lexes (print k e rest) (spell k e rest) rest
spell-Lexes (Expr.literal n) k rest h = number-Lexes n rest h
spell-Lexes (Expr.apply o a b) k rest (ha, hb) =
    let right = λ (r : List ℕ). spell (below o) b r in
    let whole = λ (r : List ℕ). spell (suc (below o)) a (text o ++ 32 ∷ right r) in
    let left = λ (r : List ℕ). print (suc (below o)) a (text o ++ 32 ∷ right r) in
    let later = λ (r : List ℕ). punct (text o) (right r) ∷ print (below o) b r in
    let all : (r : List ℕ) → Lexes (left r ++ later r) (whole r) r = λ r.
      Lexes-append (left r) (later r) (whole r) (text o ++ 32 ∷ right r) r
        (spell-Lexes a (suc (below o)) (text o ++ 32 ∷ right r) ha)
        (Lexes-append (punct (text o) (right r) ∷ []) (print (below o) b r) (text o ++ 32 ∷ right r)
          (right r) r (text-Lexes o (right r)) (spell-Lexes b (below o) r hb)) in
    let close = codes ")" ++ 32 ∷ rest in
    Lexes-if (ltb k (suc (below o))) _ _ _ _ rest
      (wrap-Lexes (left close ++ later close) (whole close) rest (all close)) (all rest)
