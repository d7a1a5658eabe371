-- ===== src/Tests/Reading.antt =====
-- The tokenizer, the preprocessor and the lookups on small texts.
use cc.Base.{
  ℕ, ◌<◌, ◌≡◌, ◌≢◌, ◌⊎◌, ◌↔◌, refl, true, false, ◌&&◌, List, [], ◌∷◌, ◌++◌, some, none, arith, map,
  codes, if◌then◌else◌, same_text, All,
}
use cc.Base.Int.{◌+ℤ◌, pos, pos_part, neg_part}
use cc.Base.Outcome.{Result, Failure, ok, err, out_of_fuel, exits, expected, ◌>>=◌}
use cc.Token.{
  TokenKind, Token, lexeme, new_token, same_kind, int_kw, indent, reserved, return_kw, num, eof,
  define, define_end,
}
use cc.Util.{first_byte}
use cc.Tokenizer.{lex_one, lex_rest}
use cc.Tokenizer.Scan.{scan, tokenize}
use cc.Tokenizer.Progress.{Within, lex_one-progress}
use cc.Tokenizer.Termination.{InText, tokenize-ends, scan-stuck}
use cc.Preprocessor.Table.{
  Hashmap, hashmap_size, hashmap_init, hashmap_hash, hashmap_put, hashmap_get, hash_from, hash_step,
}
use cc.Preprocessor.Hash.{hashmap_hash-ascii, hashmap_hash-high}
use cc.Preprocessor.Lookup.{hashmap_get-hashmap_put}
use cc.Preprocessor.Loop.{blank, preprocess, preprocess_from}
use cc.Preprocessor.Expand.{Item, macro, plain, tokens_of, expand, preprocess-expand}
use cc.Node.{CType, Name, Member}
use cc.Cursor.{consume, expect}
use cc.Cursor.Texts.{consume-expect-text}
use cc.Types.{get_next_offset}
use cc.Types.Offsets.{◌≤ℤ◌, get_next_offset-apart}
use cc.Container.{LVar, same_name, find_named, get_struct_node_offset}
use cc.Container.Members.{get_struct_node_offset-member}
use cc.Container.Names.{spelled, same_name_iff, find_named_latest}

-- The kind and the text of each token.
abbrev seen : Result (List Token) → List (TokenKind × List ℕ)
seen (ok ts) = map (λ t. (t.kind, lexeme t)) ts
seen (err e) = []

abbrev main_text : List ℕ
main_text = codes "int main(){ return 42; } // end\n"

tokenize_main :
    seen (tokenize 60 main_text)
    ≡ (int_kw, codes "int")
      ∷ (indent, codes "main")
      ∷ (reserved, codes "(")
      ∷ (reserved, codes ")")
      ∷ (reserved, codes "{")
      ∷ (return_kw, codes "return")
      ∷ (num, codes "42")
      ∷ (reserved, codes ";")
      ∷ (reserved, codes "}")
      ∷ (eof, [])
      ∷ []
unfolding tokenize scan lex_one lex_rest
tokenize_main = refl

-- A macro, its use, and what the preprocessor leaves.
abbrev macro_text : List ℕ
macro_text = codes "#define N 1 + 2\nx = N;"

preprocess_macro :
    seen (tokenize 60 macro_text >>= λ ts. preprocess 60 ts)
    ≡ (indent, codes "x")
      ∷ (reserved, codes "=")
      ∷ (num, codes "1")
      ∷ (reserved, codes "+")
      ∷ (num, codes "2")
      ∷ (reserved, codes ";")
      ∷ (eof, [])
      ∷ []
unfolding tokenize scan lex_one lex_rest preprocess preprocess_from hashmap_put hashmap_get
    hashmap_hash hash_from hash_step
preprocess_macro = refl

-- A literal of the text of a macro is replaced like a name.
preprocess_literal :
    seen (tokenize 60 (codes "#define N 7\n\"N\" N;") >>= λ ts. preprocess 60 ts)
    ≡ (num, codes "7") ∷ (num, codes "7") ∷ (reserved, codes ";") ∷ (eof, []) ∷ []
unfolding tokenize scan lex_one lex_rest preprocess preprocess_from hashmap_put hashmap_get
    hashmap_hash hash_from hash_step
preprocess_literal = refl

lex_one-progress_example : Within 1 main_text (lex_one main_text)
lex_one-progress_example = lex_one-progress main_text refl

tokenize-ends_example :
    ((ts : List Token) × (q : List ℕ) × (tokenize 60 main_text ≡ ok (ts ++ new_token eof q 0 ∷ []))
      × All InText ts
      × (first_byte q ≡ 0))
    ⊎ ((e : Failure) × (tokenize 60 main_text ≡ err e) × (e ≢ out_of_fuel))
tokenize-ends_example = tokenize-ends 60 main_text (omega arith) (ground arith)

-- A conditional expression, which the language lacks.
scan-stuck_example : scan 1000 0 (codes "? 1 : 2;") ≡ err out_of_fuel
scan-stuck_example = scan-stuck 1000 0 (codes "? 1 : 2;") refl refl

hashmap_hash-ascii_example : (i : ℕ) × (hashmap_hash (codes "SIZE") ≡ pos i) × (i < hashmap_size)
hashmap_hash-ascii_example = hashmap_hash-ascii (codes "SIZE") (omega arith)

-- Two of the bytes of a letter of the Japanese alphabet.
abbrev high_bytes : List ℕ
high_bytes = 227 ∷ 129 ∷ []

hash_high_bytes : neg_part (hashmap_hash high_bytes) ≡ 17
unfolding hashmap_hash hash_from hash_step
hash_high_bytes = refl

hashmap_hash-high_example :
    (pos_part (hashmap_hash high_bytes) ≡ 0) × (neg_part (hashmap_hash high_bytes) < hashmap_size)
hashmap_hash-high_example = hashmap_hash-high high_bytes (omega arith)

abbrev one : List Token
one = new_token num (codes "1") 1 ∷ []

hashmap_get-hashmap_put_example :
    (m' : Hashmap) × (hashmap_put (codes "N") one hashmap_init ≡ ok m')
    × (hashmap_get (codes "M") m' ≡ (
        if same_text (codes "N") (codes "M")
        then ok (some one)
        else hashmap_get (codes "M") hashmap_init))
hashmap_get-hashmap_put_example =
    hashmap_get-hashmap_put (codes "N") (codes "M") one hashmap_init (omega arith) (omega arith)

abbrev name_n : Token
name_n = new_token indent (codes "N") 1

abbrev two_items : List Item
two_items = macro (blank define) name_n one (blank define_end) ∷ plain name_n ∷ []

preprocess-expand_example :
    preprocess 9 (tokens_of two_items ++ blank eof ∷ [])
    ≡ ok (expand [] two_items ++ blank eof ∷ [])
preprocess-expand_example =
    preprocess-expand 9 two_items (blank eof) [] (omega arith) (ground arith) refl

abbrev name_ab : Name
name_ab = record { text = codes "ab + 1"; len = 2 }

abbrev name_a : Name
name_a = record { text = codes "a;"; len = 1 }

same_name_iff_example : (same_name name_ab name_a ≡ true) ↔ (spelled name_ab ≡ spelled name_a)
same_name_iff_example = same_name_iff name_ab name_a (omega arith) (omega arith)

find_named_latest_example :
    ((v : Name) × (later : List Name) × (earlier : List Name) × (find_named
          (λ n. n)
          (name_ab ∷ name_a ∷ name_ab ∷ [])
          name_a
        ≡ some v)
      × (name_ab ∷ name_a ∷ name_ab ∷ [] ≡ later ++ v ∷ earlier)
      × (spelled v ≡ spelled name_a)
      × All (λ u. spelled u ≢ spelled name_a) later)
    ⊎ ((find_named (λ n. n) (name_ab ∷ name_a ∷ name_ab ∷ []) name_a ≡ none)
        × All (λ u. spelled u ≢ spelled name_a) (name_ab ∷ name_a ∷ name_ab ∷ []))
find_named_latest_example =
    find_named_latest (λ n. n) (name_ab ∷ name_a ∷ name_ab ∷ []) name_a (omega arith) (omega arith)

abbrev plus_token : Token
plus_token = new_token reserved (codes "+ 1") 1

consume-expect-text_example :
    (consume (codes "+") (plus_token ∷ one)
      ≡ ok (
          if same_kind plus_token.kind reserved && same_text (lexeme plus_token) (codes "+")
          then (true, one)
          else (false, plus_token ∷ one)))
    × (expect (codes "+") (plus_token ∷ one) ≡ (
        if same_kind plus_token.kind reserved && same_text (lexeme plus_token) (codes "+")
        then ok one
        else err (exits (expected (codes "+")))))
consume-expect-text_example = consume-expect-text (codes "+") plus_token one (omega arith)

consume_plus : consume (codes "+") (plus_token ∷ one) ≡ ok (true, one)
unfolding consume
consume_plus = refl

-- A structure of 24 bytes, declared after a variable at the offset 16.
abbrev variable_a : LVar
variable_a = record { name = name_a; offset = pos 16; type = CType.null }

get_next_offset-apart_example :
    (variable_a.offset +ℤ pos 24 ≤ℤ pos 40)
    × (variable_a.offset +ℤ pos 8 ≤ℤ pos 40)
    × (pos 8 +ℤ pos 24 ≤ℤ pos 40)
    × (pos 8 +ℤ pos 8 ≤ℤ pos 40)
unfolding get_next_offset
get_next_offset-apart_example = get_next_offset-apart variable_a [] (pos 8) (pos 24) (pos 40) refl

abbrev member_a : Member
member_a = record { name = name_a; offset = pos 8; type = CType.null }

abbrev member_ab : Member
member_ab = record { name = name_ab; offset = pos 16; type = CType.null }

abbrev token_a : Token
token_a = new_token indent (codes "a.x") 1

get_struct_node_offset-member_example :
    get_struct_node_offset
      (record { name = name_ab; members = member_ab ∷ member_a ∷ []; offset = pos 24 })
      token_a
    ≡ ok (pos 8)
get_struct_node_offset-member_example =
    get_struct_node_offset-member name_ab (pos 24) (member_ab ∷ []) [] member_a token_a
      (omega arith) (omega arith) refl (ground arith) tt refl
