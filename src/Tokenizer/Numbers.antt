-- ===== src/Tokenizer/Numbers.antt =====
-- The decimal digits of a number are read back as the number.
use cc.Base.{
  ℕ, zero, suc, ◌+◌, ◌-◌, ◌*◌, ◌/◌, ◌%◌, ◌^◌, ◌≤◌, ◌<◌, ◌≡◌, refl, true, false, List, [], ◌∷◌, ◌++◌,
  arith, length, ltb, ap, ◌∙◌, inl, inr, Bool-cases, All, ltb→lt, ltb_false→le, drop-length, lt→ltb,
}
use Prim.Native.Nat.{min}
use cc.Base.Int.{pos}
use cc.Base.CInt.{to_int}
use cc.Token.{TokenKind}
use cc.Util.{first_byte}
use cc.Tokenizer.{made, lex_one, lex_rest, lex_number, number_len, number_value, strtol, is_digit}
use cc.Tokenizer.Lexes.{Lexes, Lexes-token}
use cc.Parser.Print.{digits, decimal, number}

abbrev pub IsDigit : ℕ → Type 0
IsDigit c = (48 ≤ c) × (c < 58)

digits-append : (f n : ℕ) (xs ys : List ℕ) → digits f n (xs ++ ys) ≡ digits f n xs ++ ys
digits-append zero n xs ys = refl
digits-append (suc f) n xs ys = elim (Bool-cases (ltb n 10)) [
  | inl e ↦ rw (e, digits) refl
  | inr e ↦ rw (e, digits) (digits-append f (n / 10) ((48 + n % 10) ∷ xs) ys)
]

digits-All : (f n : ℕ) (xs : List ℕ) → All IsDigit xs → All IsDigit (digits f n xs)
digits-All zero n xs h = h
digits-All (suc f) n xs h = elim (Bool-cases (ltb n 10)) [
  | inl e ↦ rw (e, digits) ((omega arith, omega (arith, ltb→lt n 10 e)), h)
  | inr e ↦
      rw (e, digits) (digits-All f (n / 10) ((48 + n % 10) ∷ xs) ((omega arith, omega arith), h))
]

-- The value of digits after those that made `acc`.
abbrev value_of : ℕ → List ℕ → ℕ
value_of acc [] = acc
value_of acc (c ∷ p) = value_of (acc * 10 + (c - 48)) p

digits-value : (f n : ℕ) (xs : List ℕ) → n < f → value_of 0 (digits f n xs) ≡ value_of n xs
digits-value zero n xs lt = absurd (omega arith)
digits-value (suc f) n xs lt = elim (Bool-cases (ltb n 10)) [
  | inl e ↦ rw (e, digits) (ap (λ (a : ℕ). value_of a xs) (omega arith))
  | inr e ↦
      rw (e, digits)
        (digits-value f (n / 10) ((48 + n % 10) ∷ xs) (omega (arith, ltb_false→le n 10 e))
          ∙ ap (λ (a : ℕ). value_of a xs) (omega arith))
]

is_digit-IsDigit : (c : ℕ) → IsDigit c → is_digit c ≡ true
is_digit-IsDigit c h = ground arith

number_len-append :
    (xs ys : List ℕ)
    → All IsDigit xs
    → is_digit (first_byte ys) ≡ false
    → number_len (xs ++ ys) ≡ length xs
number_len-append [] [] h e = refl
number_len-append [] (c ∷ ys) h e = rw e refl
number_len-append (c ∷ xs) ys (d, h) e =
    rw (is_digit-IsDigit c d) (ap suc (number_len-append xs ys h e))

number_value-append :
    (acc : ℕ) (xs ys : List ℕ)
    → All IsDigit xs
    → is_digit (first_byte ys) ≡ false
    → number_value acc (xs ++ ys) ≡ value_of acc xs
number_value-append acc [] [] h e = refl
number_value-append acc [] (c ∷ ys) h e = rw e refl
number_value-append acc (c ∷ xs) ys (d, h) e =
    rw (is_digit-IsDigit c d) (number_value-append (acc * 10 + (c - 48)) xs ys h e)

-- A text that begins with a digit.
lex_one-digit :
    (d : ℕ) (p : List ℕ)
    → d < 10
    → lex_one ((48 + d) ∷ p)
      ≡ made
          (record {
            kind = TokenKind.num;
            val = to_int (strtol ((48 + d) ∷ p));
            str = (48 + d) ∷ p;
            len = number_len ((48 + d) ∷ p);
          })
          (number_len ((48 + d) ∷ p))
unfolding lex_one lex_rest lex_number
lex_one-digit zero p h = refl
lex_one-digit (suc zero) p h = refl
lex_one-digit (suc (suc zero)) p h = refl
lex_one-digit (suc (suc (suc zero))) p h = refl
lex_one-digit (suc (suc (suc (suc zero)))) p h = refl
lex_one-digit (suc (suc (suc (suc (suc zero))))) p h = refl
lex_one-digit (suc (suc (suc (suc (suc (suc zero)))))) p h = refl
lex_one-digit (suc (suc (suc (suc (suc (suc (suc zero))))))) p h = refl
lex_one-digit (suc (suc (suc (suc (suc (suc (suc (suc zero)))))))) p h = refl
lex_one-digit (suc (suc (suc (suc (suc (suc (suc (suc (suc zero))))))))) p h = refl
lex_one-digit (suc (suc (suc (suc (suc (suc (suc (suc (suc (suc d)))))))))) p h =
    absurd (omega arith)

to_int-small : (n : ℕ) → n < 2 ^ 31 → to_int (min n (2 ^ 63 - 1)) ≡ pos n
to_int-small n h =
    let whole : min n (2 ^ 63 - 1) ≡ n = omega arith in
    let word : n % 2 ^ 32 ≡ n = omega arith in rw whole (rw word (rw (lt→ltb n (2 ^ 31) h) refl))

-- The token of a number, from its digits.
digits-Lexes :
    (c : ℕ) (ds : List ℕ) (n : ℕ) (rest : List ℕ)
    → All IsDigit (c ∷ ds)
    → value_of 0 (c ∷ ds) ≡ n
    → n < 2 ^ 31
    → Lexes
        (record {
          kind = TokenKind.num;
          val = pos n;
          str = (c ∷ ds) ++ 32 ∷ rest;
          len = length (c ∷ ds);
        }
          ∷ [])
        ((c ∷ ds) ++ 32 ∷ rest)
        rest
digits-Lexes c ds n rest (d, h) e lt =
    let p = (c ∷ ds) ++ 32 ∷ rest in
    let size = number_len-append (c ∷ ds) (32 ∷ rest) (d, h) refl in
    let same : 48 + (c - 48) ≡ c = omega arith in
    let val : to_int (strtol p) ≡ pos n =
      ap (λ (v : ℕ). to_int (min v (2 ^ 63 - 1)))
        (number_value-append 0 (c ∷ ds) (32 ∷ rest) (d, h) refl ∙ e)
      ∙ to_int-small n lt in
    Lexes-token _ (length (c ∷ ds)) p rest (ground arith)
      (rw same at (lex_one-digit (c - 48) (ds ++ 32 ∷ rest) (omega arith)) ∙ rw val (rw size refl))
      (omega arith) (drop-length (c ∷ ds) (32 ∷ rest))

pub decimal-All : (n : ℕ) → All IsDigit (decimal n)
decimal-All n = digits-All (suc n) n [] tt

decimal-value : (n : ℕ) → value_of 0 (decimal n) ≡ n
decimal-value n = digits-value (suc n) n [] (omega arith)

digits-length : (f n : ℕ) (xs : List ℕ) → length xs ≤ length (digits f n xs)
digits-length zero n xs = omega arith
digits-length (suc f) n xs = elim (Bool-cases (ltb n 10)) [
  | inl e ↦ rw (e, digits) (omega arith)
  | inr e ↦ rw (e, digits) (omega (arith, digits-length f (n / 10) ((48 + n % 10) ∷ xs)))
]

decimal-pos : (n : ℕ) → 1 ≤ length (decimal n)
decimal-pos n = elim (Bool-cases (ltb n 10)) [
  | inl e ↦ rw (e, digits) (omega arith)
  | inr e ↦ rw (e, digits) (digits-length n (n / 10) ((48 + n % 10) ∷ []))
]

-- A number with a space behind it is made into its token.
pub number-Lexes :
    (n : ℕ) (rest : List ℕ) → n < 2 ^ 31 → Lexes (number n rest ∷ []) (decimal n ++ 32 ∷ rest) rest
number-Lexes n rest lt = by_digits (decimal n) (decimal-All n) (decimal-value n) (decimal-pos n)
  where
    by_digits :
        (ds : List ℕ)
        → All IsDigit ds
        → value_of 0 ds ≡ n
        → 1 ≤ length ds
        → Lexes
            (record { kind = TokenKind.num; val = pos n; str = ds ++ 32 ∷ rest; len = length ds }
              ∷ [])
            (ds ++ 32 ∷ rest)
            rest
    by_digits [] h e le = absurd (omega arith)
    by_digits (c ∷ ds) h e le = digits-Lexes c ds n rest h e lt
