-- ===== src/Tokenizer/Termination.antt =====
-- tokenizer.c: where the loop of tokenize_until_end_char ends, and where it runs for ever.
use cc.Base.{
  ℕ, zero, suc, ◌≤◌, ◌<◌, ◌≡◌, ◌≢◌, refl, true, false, List, [], ◌∷◌, ◌++◌, arith, length, ◌==◌,
  ==_iff, Bool-cases, inl, inr, drop, length-drop, All, ap, ◌∙◌, ◌⊎◌, All-append,
}
use cc.Base.Outcome.{Failure, ok, err, out_of_fuel, ◌>>=◌}
use cc.Util.{first_byte}
use cc.Token.{Token, new_token, eof}
use cc.Tokenizer.{Lexed, skipped, made, defines, stopped, lex_one}
use cc.Tokenizer.Stuck.{is_stuck, lex_one-stuck}
use cc.Tokenizer.Stops.{Stops-fuel}
use cc.Tokenizer.Progress.{Within, lex_one-progress}
use cc.Tokenizer.Scan.{Scan, turn, scan, scan-stop, scan-turn, tokenize}

-- No place of the text is stuck.
abbrev pub Lexable : List ℕ → Type 0
Lexable [] = Unit
Lexable (c ∷ p) = (is_stuck (c ∷ p) ≡ false) × Lexable p

-- A token's text lies within the text that its pointer stands in.
abbrev pub InText : Token → Type 0
InText t = t.len ≤ length t.str

Lexable-drop : (n : ℕ) (p : List ℕ) → Lexable p → Lexable (drop n p)
Lexable-drop zero p h = h
Lexable-drop (suc n) [] h = tt
Lexable-drop (suc n) (c ∷ p) (_, h) = Lexable-drop n p h

Lexable-head : (p : List ℕ) → Lexable p → is_stuck p ≡ false
Lexable-head [] h = refl
Lexable-head (c ∷ p) (h, _) = h

-- The loop ends, within the text: at the end character, with tokens in the text, or in an error.
pub record EndsAt (end : ℕ) (p : List ℕ) (ts : List Token) (q : List ℕ) : Type 0 where
  pub shorter : length q ≤ length p
  pub at_end : first_byte q ≡ end
  pub in_text : All InText ts
  pub lexable : Lexable q

abbrev pub Ends : ℕ → List ℕ → Scan → Type 0
Ends end p (ok (ts, q)) = EndsAt end p ts q
Ends end p (err e) = e ≢ out_of_fuel

Ends-bind :
    (end m : ℕ) (p p' : List ℕ) (r : Scan) (k : List Token × List ℕ → Scan)
    → Ends m p' r
    → ((ts : List Token) (q : List ℕ) → EndsAt m p' ts q → Ends end p (k (ts, q)))
    → Ends end p (r >>= k)
Ends-bind end m p p' (ok (ts, q)) k h c = c ts q h
Ends-bind end m p p' (err e) k h c = h

Ends-from :
    (end : ℕ) (p : List ℕ) (p' : List ℕ) (r : Scan)
    → length p' ≤ length p
    → Ends end p' r
    → Ends end p r
Ends-from end p p' (ok (ts, q)) le h = record {
  shorter = omega arith;
  at_end = h.at_end;
  in_text = h.in_text;
  lexable = h.lexable;
}
Ends-from end p p' (err e) le h = h

turn-Ends :
    (rec : ℕ → List ℕ → Scan) (end : ℕ) (p : List ℕ) (x : Lexed)
    → ((m : ℕ) (q : List ℕ) → length q < length p → Lexable q → Ends m q (rec m q))
    → Within 1 p x
    → Lexable p
    → Ends end p (turn rec end p x)
unfolding turn
turn-Ends rec end p (skipped n) ih w h =
    Ends-from end p (drop n p) (rec end (drop n p)) (omega (arith, length-drop n p))
      (ih end (drop n p) (omega (arith, length-drop n p)) (Lexable-drop n p h))
turn-Ends rec end p (made t n) ih w h =
    Ends-bind end end p (drop n p) (rec end (drop n p)) _
      (ih end (drop n p) (omega (arith, length-drop n p)) (Lexable-drop n p h))
      λ ts q e. record {
        shorter = omega (arith, length-drop n p);
        at_end = e.at_end;
        in_text = (w.2, e.in_text);
        lexable = e.lexable;
      }
turn-Ends rec end p (defines t n) ih w h =
    Ends-bind end 10 p (drop n p) (rec 10 (drop n p)) _
      (ih 10 (drop n p) (omega (arith, length-drop n p)) (Lexable-drop n p h))
      λ body q e.
        Ends-bind end end p q (rec end q) _ (ih end q (omega (arith, length-drop n p)) e.lexable)
          λ ts r e'. record {
            shorter = omega (arith, length-drop n p);
            at_end = e'.at_end;
            in_text = (w.2, All-append InText body _ e.in_text (omega arith, e'.in_text));
            lexable = e'.lexable;
          }
turn-Ends rec end p (stopped e) ih w h = Stops-fuel p e w

-- On a text that is stuck nowhere, fuel above the text's length is enough: the loop ends.
pub scan-Ends : (f end : ℕ) (p : List ℕ) → length p < f → Lexable p → Ends end p (scan f end p)
scan-Ends zero end p lt h = absurd (omega arith)
scan-Ends (suc f) end p lt h = elim (Bool-cases (first_byte p == end)) [
  | inl e ↦
      rw (scan-stop f end p e)
        (record { shorter = omega arith; at_end = (==_iff _ _).0 e; in_text = tt; lexable = h })
  | inr e ↦ rw (scan-turn f end p e) (
      turn-Ends (scan f) end p (lex_one p) (λ m q less hq. scan-Ends f m q (omega arith) hq)
        (lex_one-progress p (Lexable-head p h)) h)
]

-- On a text that is stuck nowhere, with fuel above its length, the tokenizer ends: at a NUL, with
-- tokens that lie within their texts and the end-of-file token behind them, or in a failure that
-- is not want of fuel.
pub tokenize-ends :
    (f : ℕ) (p : List ℕ)
    → length p < f
    → Lexable p
    → ((ts : List Token) × (q : List ℕ) × (tokenize f p ≡ ok (ts ++ new_token eof q 0 ∷ []))
        × All InText ts
        × (first_byte q ≡ 0))
      ⊎ ((e : Failure) × (tokenize f p ≡ err e) × (e ≢ out_of_fuel))
unfolding tokenize
tokenize-ends f p lt h = finish (scan f 0 p) refl (scan-Ends f 0 p lt h)
  where
    finish :
        (r : Scan)
        → scan f 0 p ≡ r
        → Ends 0 p r
        → ((ts : List Token) × (q : List ℕ) × (tokenize f p ≡ ok (ts ++ new_token eof q 0 ∷ []))
            × All InText ts
            × (first_byte q ≡ 0))
          ⊎ ((e : Failure) × (tokenize f p ≡ err e) × (e ≢ out_of_fuel))
    finish (ok (ts, q)) e h = inl (ts, q, rw e, h.in_text, h.at_end)
    finish (err x) e h = inr (x, rw e, h)

turn-again :
    (rec : ℕ → List ℕ → Scan) (end : ℕ) (p : List ℕ) (t : Token) {e : Failure}
    → rec end p ≡ err e
    → turn rec end p (made t 0) ≡ err e
unfolding turn
turn-again rec end p t h = rw h

scan-zero : (end : ℕ) (p : List ℕ) → scan zero end p ≡ err out_of_fuel
unfolding scan
scan-zero end p = refl

-- At a stuck place that is not the end character the loop runs out of any fuel.
pub scan-stuck :
    (f end : ℕ) (p : List ℕ)
    → is_stuck p ≡ true
    → (first_byte p == end) ≡ false
    → scan f end p ≡ err out_of_fuel
scan-stuck zero end p h ne = scan-zero end p
scan-stuck (suc f) end p h ne =
    scan-turn f end p ne
    ∙ ap (turn (scan f) end p) (lex_one-stuck p h)
    ∙ turn-again (scan f) end p _ (scan-stuck f end p h ne)
