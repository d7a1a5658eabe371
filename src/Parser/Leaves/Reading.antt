-- ===== src/Parser/Leaves/Reading.antt =====
-- How many tokens the parser leaves as it reads them: the rules for the functions of the cursor.
use cc.Base.{
  ℕ, ◌-◌, ◌≤◌, ◌≡◌, ◌≢◌, refl, Bool, true, false, ◌&&◌, List, [], ◌∷◌, Option, none, some, arith,
  if◌then◌else◌, length, ap,
}
use cc.Base.Int.{ℤ}
use cc.Base.Outcome
use cc.Base.Outcome.{Result, ok, err, Failure, fault, exits, Message, out_of_fuel}
use cc.Token.{Token, TokenKind, reserved, indent, num, same_kind}
use cc.Cursor.{consume, consume_kind, consume_indent, expect, expect_number, is_op}
use cc.Parser.{
  Parser, Parse, gets, reads, ◌>>=◌, consumes, consumes_kind, consumes_indent, expects,
  expects_number, peek, tokens_left,
}
use cc.Parser.Leaves.{Leaves, Ends}

-- What a function of the cursor takes from `n` tokens at most, by its value.
abbrev pub Takes : {A : Type 0} → ℕ → (A → ℕ) → Result (A × List Token) → Type 0
Takes n post (ok (a, ts)) = (1 ≤ n) × (length ts ≤ post a)
Takes n post (err e) = e ≢ out_of_fuel

-- What an option says of the tokens: something was taken, or nothing was.
abbrev less_if : ℕ → Bool → ℕ
less_if n true = n - 1
less_if n false = n

abbrev less_some : {A : Type 0} → ℕ → Option A → ℕ
less_some n none = n
less_some n (some a) = n - 1

if-Takes :
    {A : Type 0} (n : ℕ) (post : A → ℕ) (b : Bool) (x y : Result (A × List Token))
    → Takes n post x
    → Takes n post y
    → Takes n post (if b then x else y)
if-Takes n post true x y h k = h
if-Takes n post false x y h k = k

consume-Takes :
    (n : ℕ) (op : List ℕ) (ts : List Token) → length ts ≤ n → Takes n (less_if n) (consume op ts)
unfolding consume
consume-Takes n op [] h = cc
consume-Takes n op (t ∷ ts) h =
    if-Takes n (less_if n) (same_kind t.kind reserved && is_op op t) _ _ (omega arith) (omega arith)

consume_kind-Takes :
    (n : ℕ) (kind : TokenKind) (ts : List Token)
    → length ts ≤ n
    → Takes n (less_if n) (consume_kind kind ts)
unfolding consume_kind
consume_kind-Takes n kind [] h = cc
consume_kind-Takes n kind (t ∷ ts) h =
    if-Takes n (less_if n) (same_kind t.kind kind) _ _ (omega arith) (omega arith)

consume_indent-Takes :
    (n : ℕ) (ts : List Token) → length ts ≤ n → Takes n (less_some n) (consume_indent ts)
unfolding consume_indent
consume_indent-Takes n [] h = cc
consume_indent-Takes n (t ∷ ts) h =
    if-Takes n (less_some n) (same_kind t.kind indent) _ _ (omega arith) (omega arith)

expect-Takes :
    (n : ℕ) (op : List ℕ) (ts : List Token)
    → length ts ≤ n
    → Takes n (λ _. n - 1) (Outcome.◌>>=◌ (expect op ts) λ ts'. ok (tt, ts'))
unfolding expect
expect-Takes n op [] h = cc
expect-Takes n op (t ∷ ts) h = by_test (same_kind t.kind reserved && is_op op t)
  where
    by_test :
        (b : Bool)
        → Takes {A = Unit {0}} n
            (λ _. n - 1)
            (Outcome.◌>>=◌
              (if b then ok ts else err (exits (Message.expected op)))
              λ ts'. ok (tt, ts'))
    by_test true = omega arith
    by_test false = cc

expect_number-Takes :
    (n : ℕ) (ts : List Token) → length ts ≤ n → Takes n (λ _. n - 1) (expect_number ts)
unfolding expect_number
expect_number-Takes n [] h = cc
expect_number-Takes n (t ∷ ts) h =
    if-Takes n (λ _. n - 1) (same_kind t.kind num) _ _ (omega arith) (cc)

module _ {A B : Type 0} where
  Ends-reads :
      (n k : ℕ) (post : A → ℕ) (r : Result (A × List Token)) (f : A → Parse B) (s : Parser)
      → Takes n post r
      → (1 ≤ n → (a : A) → Leaves (post a) k (f a))
      → Ends k (
          Outcome.◌>>=◌
            (Outcome.◌>>=◌ r λ (a, ts). ok (a, record s { tokens = ts }))
            λ (a, s'). f a s')
  Ends-reads n k post (ok (a, ts)) f s h l = (l h.0 a).at (record s { tokens = ts }) h.1
  Ends-reads n k post (err e) f s h l = h

  pub Leaves-reads :
      {n k : ℕ} (post : A → ℕ) (g : List Token → Result (A × List Token)) (f : A → Parse B)
      → ((ts : List Token) → length ts ≤ n → Takes n post (g ts))
      → (1 ≤ n → (a : A) → Leaves (post a) k (f a))
      → Leaves n k (reads g >>= f)
  unfolding ◌>>=◌ reads
  Leaves-reads {n} {k} post g f h l = record {
    at = λ s le. Ends-reads n k post (g s.tokens) f s (h s.tokens le) l;
  }

Ends-read :
    {A : Type 0} (n k : ℕ) (post : A → ℕ) (r : Result (A × List Token)) (s : Parser)
    → Takes n post r
    → ((a : A) → post a ≤ k)
    → Ends k (Outcome.◌>>=◌ r λ (a, ts). ok (a, record s { tokens = ts }))
Ends-read n k post (ok (a, ts)) s h l = omega (arith, l a)
Ends-read n k post (err e) s h l = h

-- The last of the actions.
pub expects-Leaves : {n : ℕ} (op : List ℕ) → Leaves n (n - 1) (expects op)
unfolding expects reads
expects-Leaves {n} op = record {
  at = λ s h. Ends-read n (n - 1) (λ _. n - 1) _ s (expect-Takes n op s.tokens h) λ _. omega arith;
}

module _ {B : Type 0} where
  pub Leaves-consumes :
      {n k : ℕ} (op : List ℕ) (f : Bool → Parse B)
      → (1 ≤ n → Leaves (n - 1) k (f true))
      → (1 ≤ n → Leaves n k (f false))
      → Leaves n k (consumes op >>= f)
  unfolding consumes
  Leaves-consumes {n} op f yes_case no_case =
      Leaves-reads (less_if n) (consume op) f (consume-Takes n op) λ h b.
        elim b as (λ c. Leaves (less_if n c) _ (f c)) [ true ↦ yes_case h | false ↦ no_case h ]

  pub Leaves-consumes_kind :
      {n k : ℕ} (kind : TokenKind) (f : Bool → Parse B)
      → (1 ≤ n → Leaves (n - 1) k (f true))
      → (1 ≤ n → Leaves n k (f false))
      → Leaves n k (consumes_kind kind >>= f)
  unfolding consumes_kind
  Leaves-consumes_kind {n} kind f yes_case no_case =
      Leaves-reads (less_if n) (consume_kind kind) f (consume_kind-Takes n kind) λ h b.
        elim b as (λ c. Leaves (less_if n c) _ (f c)) [ true ↦ yes_case h | false ↦ no_case h ]

  pub Leaves-consumes_indent :
      {n k : ℕ} (f : Option Token → Parse B)
      → (1 ≤ n → (t : Token) → Leaves (n - 1) k (f (some t)))
      → (1 ≤ n → Leaves n k (f none))
      → Leaves n k (consumes_indent >>= f)
  unfolding consumes_indent
  Leaves-consumes_indent {n} f some_case none_case =
      Leaves-reads (less_some n) consume_indent f (consume_indent-Takes n) λ h o.
        elim o as (λ c. Leaves (less_some n c) _ (f c)) [
          | some t ↦ some_case h t
          | none ↦ none_case h
        ]

  pub Leaves-expects :
      {n k : ℕ} (op : List ℕ) (f : Unit {0} → Parse B)
      → (1 ≤ n → Leaves (n - 1) k (f tt))
      → Leaves n k (expects op >>= f)
  unfolding expects
  Leaves-expects {n} op f l = Leaves-reads (λ _. n - 1) _ f (expect-Takes n op) λ h u. l h

  pub Leaves-expects_number :
      {n k : ℕ} (f : ℤ → Parse B)
      → (1 ≤ n → (v : ℤ) → Leaves (n - 1) k (f v))
      → Leaves n k (expects_number >>= f)
  unfolding expects_number
  Leaves-expects_number {n} f l =
      Leaves-reads (λ _. n - 1) expect_number f (expect_number-Takes n) l

  Ends-peek :
      (n k : ℕ) (ts : List Token) (f : Token → Parse B) (s : Parser)
      → s.tokens ≡ ts
      → length s.tokens ≤ n
      → (1 ≤ n → (t : Token) → Leaves n k (f t))
      → Ends k ((peek >>= f) s)
  unfolding ◌>>=◌ peek
  Ends-peek n k [] f s e h l = simp e (cc)
  Ends-peek n k (t ∷ ts) f s e h l = simp e ((l (omega (arith, ap length e)) t).at s h)

  pub Leaves-peek :
      {n k : ℕ} (f : Token → Parse B)
      → (1 ≤ n → (t : Token) → Leaves n k (f t))
      → Leaves n k (peek >>= f)
  Leaves-peek {n} {k} f l = record { at = λ s h. Ends-peek n k s.tokens f s refl h l }

  pub Leaves-tokens_left :
      {n k : ℕ} (f : ℕ → Parse B)
      → ((m : ℕ) → m ≤ n → Leaves m k (f m))
      → Leaves n k (tokens_left >>= f)
  unfolding ◌>>=◌ tokens_left gets
  Leaves-tokens_left f l = record { at = λ s h. (l (length s.tokens) h).at s (omega arith) }

-- An action whose result says nothing.
pub consumes-Leaves : {n : ℕ} (op : List ℕ) → Leaves n n (consumes op)
unfolding consumes reads
consumes-Leaves {n} op = record {
  at = λ s h. Ends-read n n (less_if n) _ s (consume-Takes n op s.tokens h) λ b. ground arith;
}

pub consumes_kind-Leaves : {n : ℕ} (kind : TokenKind) → Leaves n n (consumes_kind kind)
unfolding consumes_kind reads
consumes_kind-Leaves {n} kind = record {
  at =
      λ s h. Ends-read n n (less_if n) _ s (consume_kind-Takes n kind s.tokens h) λ b. ground arith;
}

pub consumes_indent-Leaves : {n : ℕ} → Leaves n n consumes_indent
unfolding consumes_indent reads
consumes_indent-Leaves {n} = record {
  at = λ s h. Ends-read n n (less_some n) _ s (consume_indent-Takes n s.tokens h) λ o. ground arith;
}
