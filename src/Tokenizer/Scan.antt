-- ===== src/Tokenizer/Scan.antt =====
-- tokenizer.c: the loop of tokenize_until_end_char, and tokenize.
use cc.Base.{ℕ, zero, suc, true, false, List, [], ◌∷◌, ◌++◌, ◌==◌, ◌≡◌, drop}
use cc.Base.Outcome.{Result, ok, err, out_of_fuel, ◌>>=◌}
use cc.Token.{Token, new_token, define_end, eof}
use cc.Util.{first_byte}
use cc.Tokenizer.{Lexed, skipped, made, defines, stopped, lex_one}

-- The tokens made from a `p` on, and the `p` at which the loop ends.
abbrev pub Scan : Type 0
Scan = Result (List Token × List ℕ)

-- The rest of a round, and those after it, which `rec` does: it takes the end character and `p`. A
-- `#define` is scanned up to its newline by a call of the function itself.
unfoldable pub turn : (ℕ → List ℕ → Scan) → ℕ → List ℕ → Lexed → Scan
turn rec end p (skipped n) = rec end (drop n p)
turn rec end p (made t n) = do (ts, q) ← rec end (drop n p); ok (t ∷ ts, q)
turn rec end p (defines t n) = do
  (body, q) ← rec 10 (drop n p)
  (ts, r) ← rec end q
  ok (t ∷ (body ++ new_token define_end [] 0 ∷ ts), r)
turn rec end p (stopped e) = err e

-- `while (memcmp(p, end_char, 1) != 0)`.
unfoldable pub scan : ℕ → ℕ → List ℕ → Scan
unfolding turn
scan zero end p = err out_of_fuel
scan (suc f) end p = elim (first_byte p == end) [
  | true ↦ ok ([], p)
  | false ↦ turn (scan f) end p (lex_one p)
]

unfoldable pub tokenize : ℕ → List ℕ → Result (List Token)
tokenize f p = do (ts, q) ← scan f 0 p; ok (ts ++ new_token eof q 0 ∷ [])

-- The two ways of a round.
pub scan-stop :
    (f end : ℕ) (p : List ℕ) → (first_byte p == end) ≡ true → scan (suc f) end p ≡ ok ([], p)
unfolding scan
scan-stop f end p h = rw (h, scan)

pub scan-turn :
    (f end : ℕ) (p : List ℕ)
    → (first_byte p == end) ≡ false
    → scan (suc f) end p ≡ turn (scan f) end p (lex_one p)
unfolding scan
scan-turn f end p h = rw (h, scan)
