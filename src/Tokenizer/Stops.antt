-- ===== src/Tokenizer/Stops.antt =====
-- The texts at which a round of tokenize_until_end_char ends in an error or reads behind the text.
use cc.Base.{
  ℕ, zero, suc, ◌≤◌, ◌≡◌, ◌≢◌, ◌⊎◌, refl, Bool, true, false, List, [], ◌∷◌, Option, none, some,
  arith, length, drop, All, ◌==◌, codes, Bool-cases, inl, inr,
}
use cc.Base.Outcome.{Failure, fault, out_of_fuel, exits, comment_not_closed, expected_quote}
use cc.Util.{starts_with, first_byte}
use cc.Tokenizer.{nearer, find_byte, find_close, string_len, escape_skip}

-- What follows an opening quote, where no quote closes the literal: one that a backslash escapes is
-- passed over together with the byte behind it.
pub data OpenLiteral : List ℕ → Type 0 where
  at_end : OpenLiteral []
  byte :
      (c : ℕ) (p : List ℕ)
      → c ≢ b'"'
      → starts_with (c ∷ p) (codes "\\\"") ≡ false
      → OpenLiteral p
      → OpenLiteral (c ∷ p)
  escape :
      (c : ℕ) (p : List ℕ)
      → starts_with (c ∷ p) (codes "\\\"") ≡ true
      → OpenLiteral (drop 2 p)
      → OpenLiteral (c ∷ p)

-- The failures, each with what is wrong with the text. A fault is a read behind the text's end.
pub data Stops : List ℕ → Failure → Type 0 where
  open_include :
      (p : List ℕ)
      → starts_with p (codes "#include \"") ≡ true
      → All (λ c. c ≢ b'"') (drop 10 p)
      → Stops p fault
  open_system_include :
      (p : List ℕ)
      → starts_with p (codes "#include <") ≡ true
      → All (λ c. c ≢ b'>') (drop 10 p)
      → Stops p fault
  open_line_comment :
      (p : List ℕ)
      → starts_with p (codes "//") ≡ true
      → All (λ c. c ≢ 10) (drop 2 p)
      → Stops p fault
  open_block_comment :
      (p : List ℕ)
      → starts_with p (codes "/*") ≡ true
      → ((n : ℕ) → starts_with (drop n (drop 2 p)) (codes "*/") ≡ false)
      → Stops p (exits comment_not_closed)
  open_string :
      (p : List ℕ) → starts_with p (codes "\"") ≡ true → OpenLiteral (drop 1 p) → Stops p fault
  lone_quote : (p : List ℕ) → starts_with p (codes "'") ≡ true → length p ≤ 1 → Stops p fault
  long_char :
      (p : List ℕ)
      → starts_with p (codes "'") ≡ true
      → 2 ≤ length p
      → starts_with (drop 2 p) (codes "'") ≡ false
      → Stops p (exits expected_quote)
  at_nul : (p : List ℕ) → first_byte p ≡ 0 → Stops p fault

pub Stops-fuel : (p : List ℕ) (e : Failure) → Stops p e → e ≢ out_of_fuel
Stops-fuel p _ (open_include q s h) = λ e. cc
Stops-fuel p _ (open_system_include q s h) = λ e. cc
Stops-fuel p _ (open_line_comment q s h) = λ e. cc
Stops-fuel p _ (open_block_comment q s h) = λ e. cc
Stops-fuel p _ (open_string q s h) = λ e. cc
Stops-fuel p _ (lone_quote q s h) = λ e. cc
Stops-fuel p _ (long_char q s h k) = λ e. cc
Stops-fuel p _ (at_nul q h) = λ e. cc

-- A loop that finds nothing.
nearer-none : (b : Bool) (rest : Option ℕ) → nearer b rest ≡ none → (b ≡ false) × (rest ≡ none)
nearer-none true rest h = absurd (cc)
nearer-none false none h = (refl, refl)
nearer-none false (some n) h = absurd (cc)

==_no : (c d : ℕ) → (c == d) ≡ false → c ≢ d
==_no c d h = ground arith

pub find_byte-none : (c : ℕ) (p : List ℕ) → find_byte c p ≡ none → All (λ d. d ≢ c) p
find_byte-none c [] h = tt
find_byte-none c (d ∷ p) h =
    let (other, later) = nearer-none (d == c) (find_byte c p) h in
    (==_no d c other, find_byte-none c p later)

pub find_close-none :
    (p : List ℕ) → find_close p ≡ none → (n : ℕ) → starts_with (drop n p) (codes "*/") ≡ false
find_close-none [] h zero = refl
find_close-none [] h (suc n) = refl
find_close-none (d ∷ p) h zero = (nearer-none (starts_with (d ∷ p) (codes "*/")) (find_close p) h).0
find_close-none (d ∷ p) h (suc n) =
    find_close-none p (nearer-none (starts_with (d ∷ p) (codes "*/")) (find_close p) h).1 n

pub string_len-none : (k : ℕ) (p : List ℕ) → string_len k p ≡ none → OpenLiteral (drop k p)
string_len-none zero [] h = at_end
string_len-none (suc k) [] h = at_end
string_len-none (suc k) (c ∷ p) h = string_len-none k p (nearer-none false (string_len k p) h).1
string_len-none zero (c ∷ p) h =
    let (other, later) = nearer-none (c == b'"') (string_len (escape_skip (c ∷ p)) p) h in
    by_escape (==_no c b'"' other) (Bool-cases (starts_with (c ∷ p) (codes "\\\"")))
      (string_len-none (escape_skip (c ∷ p)) p later)
  where
    by_escape :
        c ≢ b'"'
        → (starts_with (c ∷ p) (codes "\\\"") ≡ true) ⊎ (starts_with (c ∷ p) (codes "\\\"") ≡ false)
        → OpenLiteral (drop (escape_skip (c ∷ p)) p)
        → OpenLiteral (c ∷ p)
    by_escape ne (inl e) o = escape c p e (rw e at o)
    by_escape ne (inr e) o = byte c p ne e (rw e at o)
