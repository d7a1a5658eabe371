-- ===== src/Parser/Reads.antt =====
-- How a level of the grammar reads tokens, from the level below.
use cc.Base.{
  ℕ, zero, suc, ◌+◌, ◌*◌, ◌≤◌, ◌≡◌, refl, true, List, ◌∷◌, ◌++◌, length, arith, and-true, ap, ◌∙◌,
}
use cc.Base.Outcome.{ok}
use cc.Token.{Token}
use cc.Node.{Node}
use cc.Parser.{Parser, ◌>>=◌}
use cc.Parser.Stmt.{run}
use cc.Parser.Levels.{on, call, more, ops, none_of, rejects, start, round-end, assign-end, Plain}

-- A level reads the tokens as the node, before a token that is none of its operators.
abbrev pub Reads : ℕ → List Token → Node → Type 0
Reads k X n =
    (f : ℕ) (s : Parser) (t : Token) (ts : List Token)
    → rejects k t ≡ true
    → 16 * length X + suc k ≤ f
    → run f (call k) (on s (X ++ t ∷ ts)) ≡ ok (n, on s (t ∷ ts))

-- A level comes to its loop with the node, and has most of its fuel left.
abbrev pub Climbs : ℕ → List Token → Node → Type 0
Climbs k X n =
    (f : ℕ) (s : Parser) (t : Token) (ts : List Token)
    → rejects k t ≡ true
    → 16 * length X + suc (suc k) ≤ f
    → (g : ℕ) × (f ≤ g + 1 + length X)
      × (run f (call (suc k)) (on s (X ++ t ∷ ts)) ≡ run g (more k n) (on s (t ∷ ts)))

pub Reads-Climbs : (k : ℕ) (X : List Token) (n : Node) → k ≤ 3 → Reads k X n → Climbs k X n
unfolding ◌>>=◌
Reads-Climbs k X n le r zero s t ts h lf = absurd (omega arith)
Reads-Climbs k X n le r (suc f) s t ts h lf = (
  f,
  omega arith,
  ap (λ m. m (on s (X ++ t ∷ ts))) (start k f (omega arith)) ∙ rw (r f s t ts h (omega arith)) refl,
)

pub Climbs-Reads :
    (k : ℕ) (X : List Token) (n : Node) → k ≤ 3 → Plain n → Climbs k X n → Reads (suc k) X n
Climbs-Reads k X n le p c f s t ts h lf =
    let (here, rest) = and-true (none_of (ops k) t) (rejects k t) h in
    let (g, lg, e) = c f s t ts rest lf in e ∙ at_end g here (omega arith)
  where
    at_end :
        (g : ℕ)
        → none_of (ops k) t ≡ true
        → 1 ≤ g
        → run g (more k n) (on s (t ∷ ts)) ≡ ok (n, on s (t ∷ ts))
    at_end zero here lg = absurd (omega arith)
    at_end (suc g) here lg = round-end k n g s t ts le p here

Reads-loop : (k : ℕ) (X : List Token) (n : Node) → k ≤ 3 → Plain n → Reads k X n → Reads (suc k) X n
Reads-loop k X n le p r = Climbs-Reads k X n le p (Reads-Climbs k X n le r)

Reads-assign : (X : List Token) (n : Node) → Reads 4 X n → Reads 5 X n
Reads-assign X n r zero s t ts h lf = absurd (omega arith)
Reads-assign X n r (suc f) s t ts h lf =
    let (here, rest) = and-true (none_of (ops 4) t) (rejects 4 t) h in
    assign-end n f (on s (X ++ t ∷ ts)) s t ts here (r f s t ts rest (omega arith))

-- One level up.
Reads-suc : (k : ℕ) (X : List Token) (n : Node) → k ≤ 4 → Plain n → Reads k X n → Reads (suc k) X n
Reads-suc zero X n le p = Reads-loop 0 X n (omega arith) p
Reads-suc (suc zero) X n le p = Reads-loop 1 X n (omega arith) p
Reads-suc (suc (suc zero)) X n le p = Reads-loop 2 X n (omega arith) p
Reads-suc (suc (suc (suc zero))) X n le p = Reads-loop 3 X n (omega arith) p
Reads-suc (suc (suc (suc (suc zero)))) X n le p = Reads-assign X n
Reads-suc (suc (suc (suc (suc (suc k))))) X n le p = absurd (omega arith)

Reads-cast : (m k : ℕ) (X : List Token) (n : Node) → m ≡ k → Reads k X n → Reads m X n
Reads-cast m k X n e r = rw e r

-- `j` levels up, to `m`.
pub Reads-up :
    (j k m : ℕ) (X : List Token) (n : Node)
    → m ≡ k + j
    → m ≤ 5
    → Plain n
    → Reads k X n
    → Reads m X n
Reads-up zero k m X n e le p r = Reads-cast m k X n (omega arith) r
Reads-up (suc j) k m X n e le p r =
    Reads-up j (suc k) m X n (omega arith) le p (Reads-suc k X n (omega arith) p r)
