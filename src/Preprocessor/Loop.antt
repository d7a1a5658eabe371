-- ===== src/Preprocessor/Loop.antt =====
-- preprocessor.c: preprocess. The list that `cur` walks is passed on, and `none` of it left is the
-- null pointer, whose fields cannot be read.
use cc.Base.{ℕ, zero, suc, true, false, List, [], ◌∷◌, ◌++◌, none, some}
use cc.Base.Outcome.{Result, ok, err, fault, out_of_fuel, ◌>>=◌}
use cc.Token.{Token, TokenKind, eof, define, define_end, new_token, same_kind, lexeme}
use cc.Preprocessor.Table.{Hashmap, hashmap_init, hashmap_put, hashmap_get}

-- A token of `calloc` with its kind set.
abbrev pub blank : TokenKind → Token
blank k = new_token k [] 0

-- The copies of a macro's tokens, up to the first TK_DEFINE_END and with a blank one behind it; and
-- what follows in the text.
unfoldable pub copy_body : List Token → Result (List Token × List Token)
copy_body [] = err fault
copy_body (t ∷ ts) = elim (same_kind t.kind define_end) [
  | true ↦ ok (t ∷ blank define_end ∷ [], ts)
  | false ↦ copy_body ts >>= λ (body, rest). ok (t ∷ body, rest)
]

-- `while (value->kind != TK_DEFINE_END)`: the copies of a macro's tokens in the result.
unfoldable pub copy_value : List Token → Result (List Token)
copy_value [] = err fault
copy_value (t ∷ ts) = elim (same_kind t.kind define_end) [
  | true ↦ ok []
  | false ↦ copy_value ts >>= λ out. ok (t ∷ out)
]

-- A macro's definition: its name, then its tokens.
unfoldable pub define_macro : List Token → Hashmap → Result (Hashmap × List Token)
unfolding copy_body
define_macro [] m = err fault
define_macro (left ∷ ts) m = do
  (body, rest) ← copy_body ts
  m' ← hashmap_put (lexeme left) body m
  ok (m', rest)

-- Any other token: the tokens of the macro that has its text for a name, or itself.
unfoldable pub replace : Token → Hashmap → Result (List Token)
unfolding copy_value
replace t m = do
  value ← hashmap_get (lexeme t) m
  elim value [ none ↦ ok (t ∷ []) | some v ↦ copy_value v ]

-- `while(cur->kind != TK_EOF)`.
unfoldable pub preprocess_from : ℕ → Hashmap → List Token → Result (List Token)
unfolding define_macro replace
preprocess_from zero m ts = err out_of_fuel
preprocess_from (suc f) m [] = err fault
preprocess_from (suc f) m (t ∷ ts) = elim (same_kind t.kind eof) [
  | true ↦ ok (blank eof ∷ [])
  | false ↦ elim (same_kind t.kind define) [
    | true ↦ define_macro ts m >>= λ (m', rest). preprocess_from f m' rest
    | false ↦ replace t m >>= λ out. preprocess_from f m ts >>= λ more. ok (out ++ more)
  ]
]

unfoldable pub preprocess : ℕ → List Token → Result (List Token)
preprocess f ts = preprocess_from f hashmap_init ts
