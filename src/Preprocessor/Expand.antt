-- ===== src/Preprocessor/Expand.antt =====
-- preprocess computes the expansion of a sequence of macro definitions and tokens.
use cc.Base.{
  ℕ, zero, suc, ◌<◌, ◌≡◌, refl, true, false, List, [], ◌∷◌, ◌++◌, Option, none, some, arith, length,
  All, ap, ◌∙◌, append_assoc, Bool-cases, inl, inr, same_text,
}
use cc.Base.Outcome.{Result, ok, ◌>>=◌}
use cc.Token.{Token, eof, define, define_end, same_kind, lexeme}
use cc.Preprocessor.Table.{Entry, Hashmap, hashmap_init}
use cc.Preprocessor.Hash.{IsAscii}
use cc.Preprocessor.Lookup.{definition, Represents, init-Represents, put-Represents}
use cc.Preprocessor.Loop.{
  blank, copy_body, copy_value, define_macro, replace, preprocess_from, preprocess,
}

-- A source as the preprocessor sees it: definitions (the token of `#define`, the name, the tokens
-- that it stands for and the token of the end) and other tokens.
pub data Item : Type 0 where
  macro : Token → Token → List Token → Token → Item
  plain : Token → Item

unfoldable pub tokens_of : List Item → List Token
tokens_of [] = []
tokens_of (macro d name body e ∷ items) = d ∷ name ∷ (body ++ e ∷ tokens_of items)
tokens_of (plain t ∷ items) = t ∷ tokens_of items

-- What a token stands for: the tokens of the latest macro of its text, which are not looked at
-- again, or itself.
unfoldable pub meaning : List (List ℕ × List Token) → Token → List Token
meaning env t = elim (definition (lexeme t) env) [ none ↦ t ∷ [] | some body ↦ body ]

unfoldable pub expand : List (List ℕ × List Token) → List Item → List Token
expand env [] = []
expand env (macro d name body e ∷ items) = expand ((lexeme name, body) ∷ env) items
expand env (plain t ∷ items) = meaning env t ++ expand env items

-- The kinds are those that the tokenizer makes at each place, and texts are ASCII.
abbrev IsBody : List Token → Type 0
IsBody = All (λ t. same_kind t.kind define_end ≡ false)

abbrev pub IsItem : Item → Type 0
IsItem (macro d name body e) =
    (same_kind d.kind eof ≡ false)
    × (same_kind d.kind define ≡ true)
    × IsAscii (lexeme name)
    × All (λ t. same_kind t.kind define_end ≡ false) body
    × (same_kind e.kind define_end ≡ true)
IsItem (plain t) =
    (same_kind t.kind eof ≡ false) × (same_kind t.kind define ≡ false) × IsAscii (lexeme t)

-- The entry that the table holds for a macro: its tokens with the two ends behind them.
abbrev with_ends : Token → List Token → List Token
with_ends e body = body ++ e ∷ blank define_end ∷ []

copy_body-append :
    (body : List Token) (e : Token) (rest : List Token)
    → IsBody body
    → same_kind e.kind define_end ≡ true
    → copy_body (body ++ e ∷ rest) ≡ ok (with_ends e body, rest)
unfolding copy_body
copy_body-append [] e rest h end = rw (end, copy_body)
copy_body-append (t ∷ body) e rest (n, h) end =
    rw (n, copy_body) (rw (copy_body-append body e rest h end))

copy_value-append :
    (body : List Token) (e : Token) (rest : List Token)
    → IsBody body
    → same_kind e.kind define_end ≡ true
    → copy_value (body ++ e ∷ rest) ≡ ok body
unfolding copy_value
copy_value-append [] e rest h end = rw (end, copy_value)
copy_value-append (t ∷ body) e rest (n, h) end =
    rw (n, copy_value) (rw (copy_value-append body e rest h end))

-- The definitions that the table holds, against those of `expand`: the same names, and tokens whose
-- copies are the macro's.
abbrev Stores : List Entry → List (List ℕ × List Token) → Type 0
Stores [] [] = Unit
Stores [] (b ∷ env) = ⊥
Stores (a ∷ stored) [] = ⊥
Stores ((k, v) ∷ stored) ((j, body) ∷ env) = (k ≡ j) × (copy_value v ≡ ok body) × Stores stored env

-- The use of a definition that was found, in the code and in the specification.
abbrev use_stored : Token → Option (List Token) → Result (List Token)
use_stored t none = ok (t ∷ [])
use_stored t (some v) = copy_value v

abbrev use_body : Token → Option (List Token) → List Token
use_body t none = t ∷ []
use_body t (some body) = body

definition-Stores :
    (t : Token) (key : List ℕ) (stored : List Entry) (env : List (List ℕ × List Token))
    → Stores stored env
    → use_stored t (definition key stored) ≡ ok (use_body t (definition key env))
definition-Stores t key [] [] h = refl
definition-Stores t key [] (b ∷ env) h = elim h [ ]
definition-Stores t key (a ∷ stored) [] h = elim h [ ]
definition-Stores t key ((k, v) ∷ stored) ((j, body) ∷ env) (same, copied, h) =
    elim (Bool-cases (same_text j key)) [
      | inl e ↦ rw (same, e) copied
      | inr e ↦ rw (same, e) (definition-Stores t key stored env h)
    ]

replace-meaning :
    (t : Token) (m : Hashmap) (stored : List Entry) (env : List (List ℕ × List Token))
    → IsAscii (lexeme t)
    → Represents m stored
    → Stores stored env
    → replace t m ≡ ok (meaning env t)
unfolding replace meaning
replace-meaning t m stored env a r h =
    ap (λ v. v >>= use_stored t) (r (lexeme t) a) ∙ definition-Stores t (lexeme t) stored env h

define_macro-Stores :
    (name : Token) (body : List Token) (e : Token) (rest : List Token) (m : Hashmap)
    (stored : List Entry)
    → IsAscii (lexeme name)
    → IsBody body
    → same_kind e.kind define_end ≡ true
    → Represents m stored
    → (m' : Hashmap) × (define_macro (name ∷ (body ++ e ∷ rest)) m ≡ ok (m', rest))
      × Represents m' ((lexeme name, with_ends e body) ∷ stored)
unfolding define_macro
define_macro-Stores name body e rest m stored a b end r =
    let (m', put, r') = put-Represents (lexeme name) (with_ends e body) m stored a r in
    (m', rw (copy_body-append body e rest b end) (rw put), r')

preprocess_from-expand :
    (f : ℕ) (items : List Item) (m : Hashmap) (stored : List Entry)
    (env : List (List ℕ × List Token)) (end : Token) (rest : List Token)
    → length items < f
    → All IsItem items
    → same_kind end.kind eof ≡ true
    → Represents m stored
    → Stores stored env
    → preprocess_from f m (tokens_of items ++ end ∷ rest) ≡ ok (expand env items ++ blank eof ∷ [])
unfolding tokens_of expand preprocess_from
preprocess_from-expand zero items m stored env end rest lt h e r s = absurd (omega arith)
preprocess_from-expand (suc f) [] m stored env end rest lt h e r s = rw (e, preprocess_from)
preprocess_from-expand (suc f) (macro d name body e' ∷ items) m stored env end rest lt
      ((ne, def, a, b, de), h) e r s =
    let later = tokens_of items ++ end ∷ rest in
    let (m', step, r') = define_macro-Stores name body e' later m stored a b de r in
    rw (ne, preprocess_from)
      (rw (def, preprocess_from)
        (rw append_assoc (
          rw step (
            preprocess_from-expand f items m' ((lexeme name, with_ends e' body) ∷ stored)
              ((lexeme name, body) ∷ env) end rest (omega arith) h e r'
              (refl, copy_value-append body e' (blank define_end ∷ []) b de, s)))))
preprocess_from-expand (suc f) (plain t ∷ items) m stored env end rest lt ((ne, nd, a), h) e r s =
    rw (ne, preprocess_from)
      (rw (nd, preprocess_from)
        (rw (replace-meaning t m stored env a r s) (
          rw (preprocess_from-expand f items m stored env end rest (omega arith) h e r s)
            (rw append_assoc))))

-- With fuel above the number of definitions and of tokens outside of them, preprocess succeeds on
-- a source of ASCII texts, in which a definition is closed by its end and what stands outside of
-- one is neither a definition nor an end of file, up to its end of file. What it gives is the
-- expansion: definitions are taken out, each other token, of any kind, becomes the tokens of the
-- latest macro of its text or stays, and one end-of-file token follows.
pub preprocess-expand :
    (f : ℕ) (items : List Item) (end : Token) (rest : List Token)
    → length items < f
    → All IsItem items
    → same_kind end.kind eof ≡ true
    → preprocess f (tokens_of items ++ end ∷ rest) ≡ ok (expand [] items ++ blank eof ∷ [])
unfolding preprocess
preprocess-expand f items end rest lt h e =
    preprocess_from-expand f items hashmap_init [] [] end rest lt h e init-Represents tt
