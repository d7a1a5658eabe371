-- ===== src/Token.antt =====
-- 9cc.h: the kinds of tokens, and the tokens that the tokenizer hands on.
use cc.Base.{ℕ, Bool, List, take, ◌==◌}
use cc.Base.Int.{ℤ, pos}

pub data TokenKind : Type 0 where
  reserved indent num return_kw while_kw if_kw else_kw for_kw eof int_kw : TokenKind
  sizeof_kw char_kw str lt_char struct_kw typedef_kw enum_kw true_kw false_kw : TokenKind
  bool_kw void_kw define define_end exclamt : TokenKind

-- `str` is the text from the token's pointer on, of which `len` bytes are the token's own. The
-- `next` pointers are the tail of the list that the token stands in.
pub record Token : Type 0 where
  pub kind : TokenKind
  pub val : ℤ
  pub str : List ℕ
  pub len : ℕ

-- The text of a token.
abbrev pub lexeme : Token → List ℕ
lexeme t = take t.len t.str

-- new_token in tokenizer.c; the caller appends what it returns.
abbrev pub new_token : TokenKind → List ℕ → ℕ → Token
new_token k s n = record { kind = k; val = pos 0; str = s; len = n }

-- The value of an enumerator, by which C compares kinds.
abbrev pub kind_index : TokenKind → ℕ
kind_index reserved = 0
kind_index indent = 1
kind_index num = 2
kind_index return_kw = 3
kind_index while_kw = 4
kind_index if_kw = 5
kind_index else_kw = 6
kind_index for_kw = 7
kind_index eof = 8
kind_index int_kw = 9
kind_index sizeof_kw = 10
kind_index char_kw = 11
kind_index str = 12
kind_index lt_char = 13
kind_index struct_kw = 14
kind_index typedef_kw = 15
kind_index enum_kw = 16
kind_index true_kw = 17
kind_index false_kw = 18
kind_index bool_kw = 19
kind_index void_kw = 20
kind_index define = 21
kind_index define_end = 22
kind_index exclamt = 23

abbrev pub same_kind : TokenKind → TokenKind → Bool
same_kind a b = kind_index a == kind_index b
