-- ===== src/Parser/Declarator.antt =====
-- parser.c: the variable that declared_lvar makes of a declarator: stars, a name and brackets.
use cc.Base.{
  ℕ, zero, suc, ◌≤◌, ◌<◌, ◌≡◌, refl, Bool, true, false, ◌&&◌, List, [], ◌∷◌, ◌++◌, All, codes,
  length, arith, length-append, if◌then◌else◌,
}
use cc.Base.Int.{ℤ, pos}
use cc.Base.CInt.{mul_size, to_size}
use cc.Base.Outcome.{ok}
use cc.Token.{Token, reserved, num, indent, same_kind}
use cc.Node.{TypeKind, CType}
use cc.Container.{token_name}
use cc.Cursor.{is_op, consume, consume_indent, expect, expect_number}
use cc.Parser.{
  Parser, Parse, pure, lift, gets, reads, ◌>>=◌, consumes, consumes_indent, expects, expects_number,
  pointed, tokens_left,
}
use cc.Parser.Declare.{
  plain_type, pointer_to, array_of, array_offset, stars, pointers, brackets, dimensions,
  next_offset, declared_lvar,
}
use cc.Parser.Levels.{on}

-- The token is a punctuator of the text.
abbrev pub is_punct : List ℕ → Token → Bool
is_punct op t = same_kind t.kind reserved && is_op op t

-- `[`, a number and `]`.
pub record Dimension : Type 0 where
  pub left : Token
  pub size : Token
  pub right : Token

abbrev pub IsDimension : Dimension → Type 0
IsDimension d =
    (is_punct (codes "[") d.left ≡ true)
    × (same_kind d.size.kind num ≡ true)
    × (is_punct (codes "]") d.right ≡ true)

abbrev pub dimension_tokens : List Dimension → List Token
dimension_tokens [] = []
dimension_tokens (d ∷ ds) = d.left ∷ d.size ∷ d.right ∷ dimension_tokens ds

-- The type under a pointer for each star.
abbrev pub starred_type : List Token → CType → CType
starred_type [] t = t
starred_type (star ∷ ts) t = starred_type ts (pointer_to t)

-- The last size is that of the outermost array.
abbrev pub dimensioned : List Dimension → CType → CType
dimensioned [] t = t
dimensioned (d ∷ ds) t = dimensioned ds (array_of (to_size d.size.val) t)

abbrev pub element_count : List Dimension → ℤ → ℤ
element_count [] n = n
element_count (d ∷ ds) n = element_count ds (mul_size n (to_size d.size.val))

-- A variable without brackets takes the next offset of the frame.
abbrev pub declared_offset : List Dimension → ℤ → Parse ℤ
declared_offset [] size = next_offset size
declared_offset (d ∷ ds) size = lift (array_offset (element_count (d ∷ ds) (pos 1)) size)

abbrev is_array_of : List Dimension → Bool → Bool
is_array_of [] b = b
is_array_of (d ∷ ds) b = is_array_of ds true

consumes-true :
    (op : List ℕ) (s : Parser) (t : Token) (ts : List Token)
    → is_punct op t ≡ true
    → consumes op (on s (t ∷ ts)) ≡ ok (true, on s ts)
unfolding consumes reads consume
consumes-true op s t ts h = rw h refl

consumes-false :
    (op : List ℕ) (s : Parser) (t : Token) (ts : List Token)
    → is_punct op t ≡ false
    → consumes op (on s (t ∷ ts)) ≡ ok (false, on s (t ∷ ts))
unfolding consumes reads consume
consumes-false op s t ts h = rw h refl

stars-loop :
    (f : ℕ) (s : Parser) (ss : List Token) (t : CType) (tok : Token) (ts : List Token)
    → length ss < f
    → All (λ t. is_punct (codes "*") t ≡ true) ss
    → is_punct (codes "*") tok ≡ false
    → stars f t (on s (ss ++ tok ∷ ts)) ≡ ok (starred_type ss t, on s (tok ∷ ts))
unfolding stars ◌>>=◌ pure
stars-loop zero s ss t tok ts lt h n = absurd (omega arith)
stars-loop (suc f) s [] t tok ts lt h n = rw (consumes-false (codes "*") s tok ts n) refl
stars-loop (suc f) s (star ∷ ss) t tok ts lt (p, h) n =
    rw (consumes-true (codes "*") s star (ss ++ tok ∷ ts) p)
      (stars-loop f s ss (pointer_to t) tok ts (omega arith) h n)

brackets-loop :
    (f : ℕ) (s : Parser) (ds : List Dimension) (t : CType) (b : Bool) (n : ℤ) (tok : Token)
    (ts : List Token)
    → length ds < f
    → All IsDimension ds
    → is_punct (codes "[") tok ≡ false
    → brackets f t b n (on s (dimension_tokens ds ++ tok ∷ ts))
      ≡ ok ((dimensioned ds t, is_array_of ds b, element_count ds n), on s (tok ∷ ts))
unfolding brackets ◌>>=◌ pure expects_number expects reads expect_number expect
brackets-loop zero s ds t b n tok ts lt h e = absurd (omega arith)
brackets-loop (suc f) s [] t b n tok ts lt h e = rw (consumes-false (codes "[") s tok ts e) refl
brackets-loop (suc f) s (d ∷ ds) t b n tok ts lt ((l, m, r), h) e =
    rw (consumes-true (codes "[") s d.left (d.size ∷ d.right ∷ (dimension_tokens ds ++ tok ∷ ts)) l)
      (rw m (
        rw r (
          brackets-loop f s ds (array_of (to_size d.size.val) t) true
            (mul_size n (to_size d.size.val)) tok ts (omega arith) h e)))

name-star : (t : Token) → same_kind t.kind indent ≡ true → is_punct (codes "*") t ≡ false
name-star t h = ground arith

dimension_tokens-length : (ds : List Dimension) → length ds ≤ length (dimension_tokens ds)
dimension_tokens-length [] = omega arith
dimension_tokens-length (d ∷ ds) = omega (arith, dimension_tokens-length ds)

still_array : (ds : List Dimension) → is_array_of ds true ≡ true
still_array [] = refl
still_array (d ∷ ds) = still_array ds

at_offset :
    (ds : List Dimension) (size : ℤ)
    → (if is_array_of ds false
        then lift (array_offset (element_count ds (pos 1)) size)
        else next_offset size)
      ≡ declared_offset ds size
at_offset [] size = refl
at_offset (d ∷ ds) size = rw (still_array ds) refl

-- A declarator of stars, a name and sizes in brackets, before a token that is no `[`, is read by
-- declared_lvar to its end, as a variable of the name whose type is the keyword's type under a pointer
-- for each star and then in an array for each size, the last size outermost. Without brackets the
-- variable has the frame's next offset, and with them the offset computed from the number of elements;
-- where that fails, declared_lvar fails alike.
pub declared_lvar-type :
    (kind : TypeKind) (size : ℤ) (s : Parser) (ss : List Token) (name : Token) (ds : List Dimension)
    (tok : Token) (ts : List Token)
    → All (λ t. is_punct (codes "*") t ≡ true) ss
    → same_kind name.kind indent ≡ true
    → All IsDimension ds
    → is_punct (codes "[") tok ≡ false
    → declared_lvar kind size (on s (ss ++ name ∷ (dimension_tokens ds ++ tok ∷ ts)))
      ≡ (declared_offset ds size >>= λ offset. pure (record {
        name = token_name name;
        offset = offset;
        type = dimensioned ds (starred_type ss (plain_type kind));
      }))
          (on s (tok ∷ ts))
unfolding declared_lvar ◌>>=◌ pointers dimensions tokens_left gets consumes_indent reads
    consume_indent pointed pure
declared_lvar-type kind size s ss name ds tok ts hs hn hd e =
    let rest = dimension_tokens ds ++ tok ∷ ts in
    rw
      (stars-loop (suc (length (ss ++ name ∷ rest))) s ss (plain_type kind) name rest
        (omega (arith, length-append ss (name ∷ rest))) hs (name-star name hn))
      (rw hn (
        rw
          (brackets-loop (suc (length rest)) s ds (starred_type ss (plain_type kind)) false (pos 1)
            tok ts
            (omega
              (arith, length-append (dimension_tokens ds) (tok ∷ ts), dimension_tokens-length ds))
            hd e)
          (rw (at_offset ds size) refl)))
