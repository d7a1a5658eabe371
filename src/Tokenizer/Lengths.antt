-- ===== src/Tokenizer/Lengths.antt =====
-- How far the readers of tokenizer.c go: none of them passes the end of the text.
use cc.Base.{
  ℕ, zero, suc, ◌+◌, ◌≤◌, ◌<◌, ◌≡◌, refl, Bool, true, false, List, [], ◌∷◌, Option, none, some,
  arith, length, ◌⊎◌, ◌==◌, codes, Bool-cases, inl, inr,
}
use cc.Util.{starts_with}
use cc.Tokenizer.{
  find_byte, find_close, string_len, escape_skip, nearer, word_len, number_len, is_alnum, is_digit,
}

pub length-starts_with : (p w : List ℕ) → starts_with p w ≡ true → length w ≤ length p
length-starts_with p [] h = omega arith
length-starts_with [] (c ∷ w) h = cc
length-starts_with (d ∷ p) (c ∷ w) h = ground (arith, length-starts_with p w)

pub nearer-inv :
    (b : Bool) (rest : Option ℕ) {n : ℕ}
    → nearer b rest ≡ some n
    → ((b ≡ true) × (n ≡ 0)) ⊎ ((m : ℕ) × (rest ≡ some m) × (n ≡ suc m))
nearer-inv true rest h = inl (refl, cc)
nearer-inv false none h = cc
nearer-inv false (some m) h = inr (m, refl, cc)

pub find_byte-lt : (c : ℕ) (p : List ℕ) {n : ℕ} → find_byte c p ≡ some n → n < length p
find_byte-lt c [] h = cc
find_byte-lt c (d ∷ p) h = elim (nearer-inv (d == c) (find_byte c p) h) [
  | inl (_, z) ↦ omega arith
  | inr (m, e, s) ↦ omega (arith, find_byte-lt c p e)
]

pub find_close-lt : (p : List ℕ) {n : ℕ} → find_close p ≡ some n → n + 1 < length p
find_close-lt [] h = cc
find_close-lt (d ∷ p) h = elim (nearer-inv (starts_with (d ∷ p) (codes "*/")) (find_close p) h) [
  | inl (e, z) ↦ omega (arith, length-starts_with (d ∷ p) (codes "*/") e)
  | inr (m, e, s) ↦ omega (arith, find_close-lt p e)
]

pub string_len-lt : (k : ℕ) (p : List ℕ) {n : ℕ} → string_len k p ≡ some n → n < length p
string_len-lt zero [] h = cc
string_len-lt (suc k) [] h = cc
string_len-lt (suc k) (c ∷ p) h = elim (nearer-inv false (string_len k p) h) [
  | inl (e, z) ↦ omega arith
  | inr (m, e, s) ↦ omega (arith, string_len-lt k p e)
]
string_len-lt zero (c ∷ p) h =
    elim (nearer-inv (c == b'"') (string_len (escape_skip (c ∷ p)) p) h) [
      | inl (e, z) ↦ omega arith
      | inr (m, e, s) ↦ omega (arith, string_len-lt (escape_skip (c ∷ p)) p e)
    ]

pub word_len-le : (p : List ℕ) → word_len p ≤ length p
word_len-le [] = omega arith
word_len-le (c ∷ p) = elim (Bool-cases (is_alnum c)) [
  | inl e ↦ rw e (omega (arith, word_len-le p))
  | inr e ↦ rw e (omega arith)
]

pub number_len-le : (p : List ℕ) → number_len p ≤ length p
number_len-le [] = omega arith
number_len-le (c ∷ p) = elim (Bool-cases (is_digit c)) [
  | inl e ↦ rw e (omega (arith, number_len-le p))
  | inr e ↦ rw e (omega arith)
]
