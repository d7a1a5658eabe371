-- ===== src/Parser/Roundtrip.antt =====
-- The printed tokens of an arithmetic expression are read back as its tree.
use cc.Base.{
  ℕ, zero, suc, ◌+◌, ◌-◌, ◌*◌, ◌≤◌, ◌≡◌, ◌==◌, refl, Bool, true, false, List, [], ◌∷◌, ◌++◌, codes,
  length, arith, ltb, if◌then◌else◌, length-append, append_assoc, Bool-cases, ltb_false→le, ◌∙◌,
  inl, inr,
}
use cc.Base.Int.{pos}
use cc.Base.Outcome.{ok}
use cc.Token.{Token}
use cc.Node.{Node}
use cc.Cursor.{consume, consume_kind, consume_indent, expect, expect_number}
use cc.Parser.{
  Parser, pure, reads, ◌>>=◌, consumes, consumes_kind, consumes_indent, expects, expects_number,
  peek,
}
use cc.Parser.Expr.{Call, first_op, unary_step}
use cc.Parser.Declare.{first_kind}
use cc.Parser.Primary.{primary_step, paren_step, atom_step, optional, cast_prefix}
use cc.Parser.Stmt.{step, run}
use cc.Parser.Print.{Op, Expr, text, make, tree, below, punct, number, wrap, spell, print}
use cc.Parser.Levels.{on, more, rejects, rank_rejects, below_le, round-op, Plain, tree-Plain}
use cc.Parser.Reads.{Reads, Climbs, Reads-Climbs, Climbs-Reads, Reads-up}

-- How the tokens of an expression begin.
pub data Starts : List Token → Type 0 where
  starts_number : (n : ℕ) (tail : List ℕ) (ts : List Token) → Starts (number n tail ∷ ts)
  starts_paren : (tail : List ℕ) (ts : List Token) → Starts (punct (codes "(") tail ∷ ts)

pub Starts-append : (ts us : List Token) → Starts ts → Starts (ts ++ us)
Starts-append _ us (starts_number n tail ts) = starts_number n tail (ts ++ us)
Starts-append _ us (starts_paren tail ts) = starts_paren tail (ts ++ us)

Starts-if : (b : Bool) (ts us : List Token) → Starts ts → Starts us → Starts (if b then ts else us)
Starts-if true ts us h k = h
Starts-if false ts us h k = k

pub print-Starts : (k : ℕ) (e : Expr) (rest : List ℕ) → Starts (print k e rest)
print-Starts k (Expr.literal n) rest = starts_number n rest []
print-Starts k (Expr.apply o a b) rest = Starts-if (ltb k (suc (below o))) _ _ (starts_paren _ _) (
    Starts-append (print (suc (below o)) a (text o ++ 32 ∷ spell (below o) b rest)) _
      (print-Starts (suc (below o)) a (text o ++ 32 ∷ spell (below o) b rest)))

unary-number :
    (n f : ℕ) (s : Parser) (tail : List ℕ) (ts : List Token)
    → run (suc (suc f)) Call.unary (on s (number n tail ∷ ts)) ≡ ok (Node.num (pos n), on s ts)
unfolding run step unary_step first_op ◌>>=◌ consumes reads consume pure consumes_kind consume_kind
    primary_step consumes_indent consume_indent atom_step peek expects_number expect_number
unary-number n f s tail ts = refl

unary-paren :
    (f : ℕ) (s s' : Parser) (x y : List ℕ) (ts us : List Token) (n : Node)
    → Starts ts
    → run f Call.assign (on s ts) ≡ ok (n, on s' (punct (codes ")") y ∷ us))
    → run (suc (suc f)) Call.unary (on s (punct (codes "(") x ∷ ts)) ≡ ok (n, on s' us)
unfolding run step unary_step first_op ◌>>=◌ consumes reads consume pure consumes_kind consume_kind
    primary_step paren_step optional cast_prefix first_kind expects expect
unary-paren f s s' x y _ us n (starts_number m tail ts) e = rw e refl
unary-paren f s s' x y _ us n (starts_paren tail ts) e = rw e refl

Reads-literal : (n : ℕ) (tail : List ℕ) → Reads 0 (number n tail ∷ []) (Node.num (pos n))
Reads-literal n tail (suc (suc f)) s t ts h lf = unary-number n f s tail (t ∷ ts)
Reads-literal n tail zero s t ts h lf = absurd (omega arith)
Reads-literal n tail (suc zero) s t ts h lf = absurd (omega arith)

length-wrap : (x y : List ℕ) (X : List Token) → length (wrap x X y) ≡ length X + 2
length-wrap x y X = omega (arith, length-append X (punct (codes ")") y ∷ []))

Reads-wrap :
    (x y : List ℕ) (X : List Token) (n : Node) → Starts X → Reads 5 X n → Reads 0 (wrap x X y) n
Reads-wrap x y X n b r (suc (suc f)) s t ts h lf =
    rw (append_assoc X (punct (codes ")") y ∷ []) (t ∷ ts)) (
      unary-paren f s s x y _ (t ∷ ts) n (Starts-append X _ b)
        (r f s (punct (codes ")") y) (t ∷ ts) refl (omega (arith, length-wrap x y X))))
Reads-wrap x y X n b r zero s t ts h lf = absurd (omega arith)
Reads-wrap x y X n b r (suc zero) s t ts h lf = absurd (omega (arith, length-wrap x y X))

-- The left operand, the operator and the right operand.
Climbs-apply :
    (o : Op) (tail : List ℕ) (X Y : List Token) (a b : Node)
    → Plain a
    → Climbs (below o) X a
    → Reads (below o) Y b
    → Climbs (below o) (X ++ punct (text o) tail ∷ Y) (make o a b)
unfolding ◌>>=◌
Climbs-apply o tail X Y a b p c r f s t ts h lf =
    let size = length-append X (punct (text o) tail ∷ Y) in
    let (g, lg, e) =
      c f s (punct (text o) tail) (Y ++ t ∷ ts) (rank_rejects o tail) (omega (arith, size)) in
    let (g', lg', e') = on_loop g (omega (arith, size)) in
    (g', omega (arith, size), rw (append_assoc X (punct (text o) tail ∷ Y) (t ∷ ts)) (e ∙ e'))
  where
    on_loop :
        (g : ℕ)
        → 16 * length Y + suc (suc (below o)) ≤ g
        → (g' : ℕ) × (g ≤ g' + 1)
          × (run g (more (below o) a) (on s (punct (text o) tail ∷ Y ++ t ∷ ts))
              ≡ run g' (more (below o) (make o a b)) (on s (t ∷ ts)))
    on_loop zero l = absurd (omega arith)
    on_loop (suc g) l = (
      g,
      omega arith,
      round-op o a g s tail (Y ++ t ∷ ts) p ∙ rw (r g s t ts h (omega arith)) refl,
    )

-- Between the tokens without parentheses, which the operator's level and those above it read, and
-- those with them, which each level reads; the texts behind them differ.
Reads-bracketed :
    (o : Op) (k : ℕ) (x y : List ℕ) (X Z : List Token) (n : Node)
    → Starts X
    → Plain n
    → k ≤ 5
    → Reads (suc (below o)) X n
    → Reads (suc (below o)) Z n
    → Reads k (if ltb k (suc (below o)) then wrap x X y else Z) n
Reads-bracketed o k x y X Z n b p le r q = elim (Bool-cases (ltb k (suc (below o)))) [
  | inl tight ↦ rw tight (
      Reads-up k 0 k (wrap x X y) n (omega arith) le p (
        Reads-wrap x y X n b (
          Reads-up (4 - below o) (suc (below o)) 5 X n (omega (arith, below_le o)) (omega arith) p
            r)))
  | inr loose ↦ rw loose (
      Reads-up (k - suc (below o)) (suc (below o)) k Z n
        (omega (arith, ltb_false→le k (suc (below o)) loose)) le p q)
]

Climbs-bracketed :
    (o : Op) (k : ℕ) (x y : List ℕ) (X Z : List Token) (n : Node)
    → Starts X
    → Plain n
    → k ≤ 3
    → Climbs (below o) X n
    → Climbs (below o) Z n
    → Climbs k (if ltb (suc k) (suc (below o)) then wrap x X y else Z) n
Climbs-bracketed o k x y X Z n b p le c d = elim (Bool-cases (k == below o)) [
  | inl same ↦ rw (ltb-same k (below o) same) (Climbs-cast (==→≡ k (below o) same) d)
  | inr other ↦ rw (ltb-other k (below o) other) (
      Reads-Climbs k (if ltb k (suc (below o)) then wrap x X y else Z) n le (
        Reads-bracketed o k x y X Z n b p (omega arith)
          (Climbs-Reads (below o) X n (below_le o) p c)
          (Climbs-Reads (below o) Z n (below_le o) p d)))
]
  where
    ltb-same : (k j : ℕ) → (k == j) ≡ true → ltb (suc k) (suc j) ≡ false
    ltb-same k j h = ground arith

    ltb-other : (k j : ℕ) → (k == j) ≡ false → ltb (suc k) (suc j) ≡ ltb k (suc j)
    ltb-other k j h = ground arith

    ==→≡ : (k j : ℕ) → (k == j) ≡ true → k ≡ j
    ==→≡ k j h = ground arith

    Climbs-cast : {k j : ℕ} → k ≡ j → Climbs j Z n → Climbs k Z n
    Climbs-cast e r = rw e r

-- The printed tokens of an expression, at each level.
print-Reads-Climbs :
    (e : Expr)
    → ((k : ℕ) (rest : List ℕ) → k ≤ 5 → Reads k (print k e rest) (tree e))
      × ((k : ℕ) (rest : List ℕ) → k ≤ 3 → Climbs k (print (suc k) e rest) (tree e))
print-Reads-Climbs (Expr.literal n) =
    let at : (k : ℕ) (rest : List ℕ) → k ≤ 5 → Reads k (number n rest ∷ []) (Node.num (pos n)) =
      λ k rest le.
        Reads-up k 0 k (number n rest ∷ []) (Node.num (pos n)) (omega arith) le
          (tree-Plain (Expr.literal n)) (Reads-literal n rest) in
    (
      at,
      λ k rest le.
          Reads-Climbs k (number n rest ∷ []) (Node.num (pos n)) le (at k rest (omega arith)),
    )
print-Reads-Climbs (Expr.apply o a b) =
    let (reads_a, climbs_a) = print-Reads-Climbs a in
    let (reads_b, climbs_b) = print-Reads-Climbs b in
    let n = make o (tree a) (tree b) in
    let p = tree-Plain (Expr.apply o a b) in
    let left = λ (r : List ℕ). print (suc (below o)) a (text o ++ 32 ∷ spell (below o) b r) in
    let right = λ (r : List ℕ). punct (text o) (spell (below o) b r) ∷ print (below o) b r in
    let all = λ (r : List ℕ). left r ++ right r in
    let begins : (r : List ℕ) → Starts (all r) = λ r.
      Starts-append (left r) (right r)
        (print-Starts (suc (below o)) a (text o ++ 32 ∷ spell (below o) b r)) in
    let climbs : (r : List ℕ) → Climbs (below o) (all r) n = λ r.
      Climbs-apply o (spell (below o) b r) (left r) (print (below o) b r) (tree a) (tree b)
        (tree-Plain a) (climbs_a (below o) (text o ++ 32 ∷ spell (below o) b r) (below_le o))
        (reads_b (below o) r (omega (arith, below_le o))) in
    let reads : (r : List ℕ) → Reads (suc (below o)) (all r) n =
      λ r. Climbs-Reads (below o) (all r) n (below_le o) p (climbs r) in
    let close = λ (r : List ℕ). codes ")" ++ 32 ∷ r in
    let whole =
      λ (r : List ℕ). spell (suc (below o)) a (text o ++ 32 ∷ spell (below o) b (close r)) in
    (
      λ k rest le.
          Reads-bracketed o k (whole rest) rest (all (close rest)) (all rest) n
            (begins (close rest)) p le (reads (close rest)) (reads rest),
      λ k rest le.
          Climbs-bracketed o k (whole rest) rest (all (close rest)) (all rest) n
            (begins (close rest)) p le (climbs (close rest)) (climbs rest),
    )

-- expr, with fuel for the tokens, reads the tokens of a printed arithmetic expression as its tree,
-- whatever text is behind them, and leaves the rest of the tokens as it was, where that begins with no
-- binary operator.
pub run-print :
    (e : Expr) (f : ℕ) (s : Parser) (rest : List ℕ) (t : Token) (ts : List Token)
    → rejects 5 t ≡ true
    → 16 * length (print 5 e rest) + 6 ≤ f
    → run f Call.assign (on s (print 5 e rest ++ t ∷ ts)) ≡ ok (tree e, on s (t ∷ ts))
run-print e f s rest = (print-Reads-Climbs e).0 5 rest (omega arith) f s

-- At the level of an index in brackets.
pub run-equality :
    (e : Expr) (rest : List ℕ) (f : ℕ) (s : Parser) (t : Token) (ts : List Token)
    → rejects 4 t ≡ true
    → 16 * length (print 4 e rest) + 5 ≤ f
    → run f Call.equality (on s (print 4 e rest ++ t ∷ ts)) ≡ ok (tree e, on s (t ∷ ts))
run-equality e rest f s t ts h le =
    (print-Reads-Climbs e).0 4 rest (omega arith) f s t ts h (omega arith)
