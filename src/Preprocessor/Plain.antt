-- ===== src/Preprocessor/Plain.antt =====
-- A source without definitions is left as it is.
use cc.Base.{ℕ, ◌<◌, ◌≡◌, refl, List, [], ◌∷◌, ◌++◌, All, length, ap, suc, true, arith}
use cc.Base.Outcome.{ok}
use cc.Token.{Token, eof, same_kind}
use cc.Preprocessor.Loop.{blank, preprocess}
use cc.Preprocessor.Expand.{Item, plain, tokens_of, meaning, expand, IsItem, preprocess-expand}

abbrev pub IsPlain : Token → Type 0
IsPlain t = IsItem (plain t)

plain_items : List Token → List Item
plain_items [] = []
plain_items (t ∷ ts) = plain t ∷ plain_items ts

tokens_of-plain : (ts : List Token) → tokens_of (plain_items ts) ≡ ts
unfolding tokens_of plain_items
tokens_of-plain [] = refl
tokens_of-plain (t ∷ ts) = ap (λ us. t ∷ us) (tokens_of-plain ts)

expand-plain : (ts : List Token) → expand [] (plain_items ts) ≡ ts
unfolding expand plain_items meaning
expand-plain [] = refl
expand-plain (t ∷ ts) = ap (λ us. t ∷ us) (expand-plain ts)

plain-All : (ts : List Token) → All IsPlain ts → All IsItem (plain_items ts)
unfolding plain_items
plain-All [] h = tt
plain-All (t ∷ ts) (p, h) = (p, plain-All ts h)

length-plain : (ts : List Token) → length (plain_items ts) ≡ length ts
unfolding plain_items
length-plain [] = refl
length-plain (t ∷ ts) = ap suc (length-plain ts)

pub preprocess-plain :
    (f : ℕ) (ts : List Token) (end : Token) (rest : List Token)
    → length ts < f
    → All IsPlain ts
    → same_kind end.kind eof ≡ true
    → preprocess f (ts ++ end ∷ rest) ≡ ok (ts ++ blank eof ∷ [])
preprocess-plain f ts end rest lt h e =
    rw (tokens_of-plain ts, expand-plain ts) at
      (preprocess-expand f (plain_items ts) end rest (omega (arith, length-plain ts))
        (plain-All ts h) e)
