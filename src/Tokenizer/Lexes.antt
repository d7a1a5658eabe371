-- ===== src/Tokenizer/Lexes.antt =====
-- Which tokens the loop of the tokenizer makes of a text with a rest behind it.
use cc.Base.{
  ℕ, suc, ◌+◌, ◌*◌, ◌≤◌, ◌≡◌, refl, false, List, [], ◌∷◌, ◌++◌, arith, length, drop, ◌==◌,
  length-append, length-drop, append_assoc, ap, ◌∙◌,
}
use cc.Base.Outcome.{ok, err, ◌>>=◌}
use cc.Token.{Token}
use cc.Util.{first_byte}
use cc.Tokenizer.{made, lex_one}
use cc.Tokenizer.Scan.{Scan, turn, scan, scan-turn}

-- The tokens, and what a run after them gives.
abbrev pub before : List Token → Scan → Scan
before ts r = r >>= λ (us, q). ok (ts ++ us, q)

-- With two rounds for each token, the tokens are made and the rest is left; each has two bytes.
abbrev pub Lexes : List Token → List ℕ → List ℕ → Type 0
Lexes ts p q =
    (2 * length ts + length q ≤ length p)
    × ((f : ℕ) → scan (2 * length ts + f) 0 p ≡ before ts (scan f 0 q))

before-append : (ts us : List Token) (r : Scan) → before ts (before us r) ≡ before (ts ++ us) r
before-append ts us (ok (vs, q)) = rw (append_assoc ts us vs) refl
before-append ts us (err e) = refl

pub Lexes-append :
    (ts us : List Token) (p q r : List ℕ) → Lexes ts p q → Lexes us q r → Lexes (ts ++ us) p r
Lexes-append ts us p q r (le, h) (le', k) = (
  omega (arith, length-append ts us),
  λ f.
      let fuel : 2 * length (ts ++ us) + f ≡ 2 * length ts + (2 * length us + f) =
        omega (arith, length-append ts us) in
      rw fuel (h (2 * length us + f) ∙ ap (before ts) (k f) ∙ before-append ts us (scan f 0 r)),
)

turn-made :
    (rec : ℕ → List ℕ → Scan) (p : List ℕ) (t : Token) (n : ℕ)
    → turn rec 0 p (made t n) ≡ before (t ∷ []) (rec 0 (drop n p))
unfolding turn
turn-made rec p t n = refl

space-skipped : (f : ℕ) (q : List ℕ) → scan (suc f) 0 (32 ∷ q) ≡ scan f 0 q
unfolding scan turn lex_one
space-skipped f q = refl

-- A token with a space behind it.
pub Lexes-token :
    (t : Token) (n : ℕ) (p q : List ℕ)
    → (first_byte p == 0) ≡ false
    → lex_one p ≡ made t n
    → 1 ≤ n
    → drop n p ≡ 32 ∷ q
    → Lexes (t ∷ []) p q
Lexes-token t n p q ne one le rest = (
  omega (arith, length-drop n p, ap length rest),
  λ f.
      let fuel : 2 * length (t ∷ []) + f ≡ suc (suc f) = omega arith in
      rw fuel (
        scan-turn (suc f) 0 p ne
        ∙ ap (turn (scan (suc f)) 0 p) one
        ∙ turn-made (scan (suc f)) p t n
        ∙ ap (λ r. before (t ∷ []) (scan (suc f) 0 r)) rest
        ∙ ap (before (t ∷ [])) (space-skipped f q)),
)
