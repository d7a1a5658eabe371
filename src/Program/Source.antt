-- ===== src/Program/Source.antt =====
-- main.c on a program of one function, which returns an arithmetic expression: its text, and the tokens
-- that the tokenizer makes of it and the preprocessor leaves.
use cc.Base.{
  ℕ, suc, ◌+◌, ◌-◌, ◌*◌, ◌≡◌, refl, Bool, true, false, List, [], ◌∷◌, ◌++◌, All, codes, length, ltb,
  arith, if◌then◌else◌, length-append, append-nil, take-length, All-append,
}
use cc.Base.Outcome.{ok}
use cc.Token.{Token, new_token, indent, int_kw, eof}
use cc.Tokenizer.{lex_one, lex_rest}
use cc.Tokenizer.Scan.{scan, turn, tokenize}
use cc.Tokenizer.Lexes.{Lexes, Lexes-append, Lexes-token}
use cc.Tokenizer.Numbers.{IsDigit, decimal-All}
use cc.Preprocessor.Hash.{IsAscii}
use cc.Preprocessor.Loop.{blank, preprocess}
use cc.Preprocessor.Plain.{IsPlain, preprocess-plain}
use cc.Parser.Print.{Op, Expr, text, below, punct, number, decimal, spell, wrap, print}
use cc.Parser.Function.{word, main_token, heading, return_token}
use cc.Program.Spelled.{Small, spell-Lexes, close-Lexes, open-Lexes}

-- What stands behind the expression.
abbrev pub tail : List ℕ
tail = codes "; }" ++ 32 ∷ 10 ∷ []

-- A function `main` that returns the expression, with a newline at the end.
abbrev pub source : Expr → List ℕ
source e = codes "int main ( ) { return " ++ spell 5 e tail

abbrev pub ending : List Token
ending = punct (codes ";") (codes "} " ++ 10 ∷ []) ∷ punct (codes "}") (10 ∷ []) ∷ []

abbrev pub tokens : Expr → List Token
tokens e =
    let value = spell 5 e tail in
    heading (codes "{ return " ++ value)
    ++ punct (codes "{") (codes "return " ++ value)
      ∷ return_token value
      ∷ (print 5 e tail ++ ending)

Lexes-cons :
    (t : Token) (ts : List Token) (p q r : List ℕ)
    → Lexes (t ∷ []) p q
    → Lexes ts q r
    → Lexes (t ∷ ts) p r
Lexes-cons t ts p q r = Lexes-append (t ∷ []) ts p q r

brace-Lexes : (rest : List ℕ) → Lexes (punct (codes "{") rest ∷ []) (codes "{ " ++ rest) rest
unfolding lex_one lex_rest
brace-Lexes rest = Lexes-token _ 1 _ rest refl refl (omega arith) refl

int-Lexes :
    (rest : List ℕ) → Lexes (word int_kw (codes "int") rest ∷ []) (codes "int " ++ rest) rest
unfolding lex_one lex_rest
int-Lexes rest = Lexes-token _ 3 _ rest refl refl (omega arith) refl

main-Lexes :
    (rest : List ℕ) → Lexes (word indent (codes "main") rest ∷ []) (codes "main " ++ rest) rest
unfolding lex_one lex_rest
main-Lexes rest = Lexes-token _ 4 _ rest refl refl (omega arith) refl

return-Lexes : (rest : List ℕ) → Lexes (return_token rest ∷ []) (codes "return " ++ rest) rest
unfolding lex_one lex_rest
return-Lexes rest = Lexes-token _ 6 _ rest refl refl (omega arith) refl

ending-Lexes : Lexes ending tail (10 ∷ [])
unfolding lex_one lex_rest
ending-Lexes =
    Lexes-cons _ (punct (codes "}") (10 ∷ []) ∷ []) tail (codes "} " ++ 10 ∷ []) (10 ∷ [])
      (Lexes-token _ 1 tail (codes "} " ++ 10 ∷ []) refl refl (omega arith) refl)
      (Lexes-token _ 1 (codes "} " ++ 10 ∷ []) (10 ∷ []) refl refl (omega arith) refl)

heading-Lexes : (body : List ℕ) → Lexes (heading body) (codes "int main ( ) " ++ body) body
heading-Lexes body =
    let opening = codes "( ) " ++ body in
    let close = codes ") " ++ body in
    let ts = punct (codes ")") body ∷ [] in
    Lexes-cons (word int_kw (codes "int") (codes "main " ++ opening))
      (main_token body ∷ punct (codes "(") close ∷ ts) _ (codes "main " ++ opening) body
      (int-Lexes (codes "main " ++ opening))
      (Lexes-cons (main_token body) (punct (codes "(") close ∷ ts) _ opening body
        (main-Lexes opening)
        (Lexes-cons (punct (codes "(") close) ts _ close body (open-Lexes close)
          (close-Lexes body)))

source-Lexes : (e : Expr) → Small e → Lexes (tokens e) (source e) (10 ∷ [])
source-Lexes e h =
    let value = spell 5 e tail in
    let body = codes "return " ++ value in
    let ts = print 5 e tail ++ ending in
    Lexes-append (heading (codes "{ " ++ body)) (punct (codes "{") body ∷ return_token value ∷ ts) _
      (codes "{ " ++ body) (10 ∷ []) (heading-Lexes (codes "{ " ++ body))
      (Lexes-cons (punct (codes "{") body) (return_token value ∷ ts) _ body (10 ∷ [])
        (brace-Lexes body)
        (Lexes-cons (return_token value) ts _ value (10 ∷ []) (return-Lexes value) (
          Lexes-append (print 5 e tail) ending value tail (10 ∷ []) (spell-Lexes e 5 tail h)
            ending-Lexes)))

newline-end : (f : ℕ) → scan (suc (suc f)) 0 (10 ∷ []) ≡ ok ([], [])
unfolding scan turn lex_one
newline-end f = refl

tokenize-Lexes :
    (ts : List Token) (p : List ℕ)
    → Lexes ts p (10 ∷ [])
    → tokenize (length p + 1) p ≡ ok (ts ++ new_token eof [] 0 ∷ [])
unfolding tokenize
tokenize-Lexes ts p (le, h) =
    let f = length p - (2 * length ts + 1) in
    let fuel : length p + 1 ≡ 2 * length ts + suc (suc f) = omega arith in
    rw fuel (rw (h (suc (suc f))) (rw (newline-end f) (rw (append-nil ts) refl)))

pub source-tokens :
    (e : Expr)
    → Small e
    → tokenize (length (source e) + 1) (source e) ≡ ok (tokens e ++ new_token eof [] 0 ∷ [])
source-tokens e h = tokenize-Lexes (tokens e) (source e) (source-Lexes e h)

IsDigit-IsAscii : (xs : List ℕ) → All IsDigit xs → IsAscii xs
IsDigit-IsAscii [] h = tt
IsDigit-IsAscii (x ∷ xs) ((_, lt), h) = (omega arith, IsDigit-IsAscii xs h)

number-IsPlain : (n : ℕ) (rest : List ℕ) → IsPlain (number n rest)
number-IsPlain n rest = (
  refl,
  refl,
  rw (take-length (decimal n) (32 ∷ rest)) (IsDigit-IsAscii (decimal n) (decimal-All n)),
)

text-IsPlain : (o : Op) (rest : List ℕ) → IsPlain (punct (text o) rest)
text-IsPlain o rest = ground arith

paren-IsPlain : (rest : List ℕ) → IsPlain (punct (codes "(") rest)
paren-IsPlain rest = (refl, refl, (omega arith, tt))

close-IsPlain : (rest : List ℕ) → IsPlain (punct (codes ")") rest)
close-IsPlain rest = (refl, refl, (omega arith, tt))

wrap-All :
    (p : List ℕ) (X : List Token) (rest : List ℕ) → All IsPlain X → All IsPlain (wrap p X rest)
wrap-All p X rest h = (paren-IsPlain p, All-append IsPlain X _ h (close-IsPlain rest, tt))

All-if :
    (b : Bool) (X Z : List Token) → All IsPlain X → All IsPlain Z → All IsPlain (if b then X else Z)
All-if true X Z h k = h
All-if false X Z h k = k

print-All : (e : Expr) (k : ℕ) (rest : List ℕ) → All IsPlain (print k e rest)
print-All (Expr.literal n) k rest = (number-IsPlain n rest, tt)
print-All (Expr.apply o a b) k rest =
    let right = λ (r : List ℕ). spell (below o) b r in
    let all : (r : List ℕ)
        → All IsPlain (
            print (suc (below o)) a (text o ++ 32 ∷ right r)
            ++ punct (text o) (right r) ∷ print (below o) b r) =
      λ r.
        All-append IsPlain (print (suc (below o)) a (text o ++ 32 ∷ right r)) _
          (print-All a (suc (below o)) (text o ++ 32 ∷ right r))
          (text-IsPlain o (right r), print-All b (below o) r) in
    let close = codes ")" ++ 32 ∷ rest in
    All-if (ltb k (suc (below o))) _ _
      (wrap-All (spell (suc (below o)) a (text o ++ 32 ∷ right close)) _ rest (all close))
      (all rest)

tokens-All : (e : Expr) → All IsPlain (tokens e)
tokens-All e =
    let value = spell 5 e tail in
    All-append IsPlain (heading (codes "{ return " ++ value))
      (punct (codes "{") (codes "return " ++ value)
        ∷ return_token value
        ∷ (print 5 e tail ++ ending))
      (ground arith)
      (
        ground arith,
        (
          ground arith,
          All-append IsPlain (print 5 e tail) ending (print-All e 5 tail) (ground arith),
        ),
      )

pub source-preprocessed :
    (e : Expr)
    → preprocess
        (length (tokens e ++ new_token eof [] 0 ∷ []) + 1)
        (tokens e ++ new_token eof [] 0 ∷ [])
      ≡ ok (tokens e ++ blank eof ∷ [])
source-preprocessed e =
    preprocess-plain _ (tokens e) (new_token eof [] 0) []
      (omega (arith, length-append (tokens e) (new_token eof [] 0 ∷ []))) (tokens-All e) refl
