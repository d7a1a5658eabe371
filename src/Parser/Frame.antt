-- ===== src/Parser/Frame.antt =====
-- parser.c: the places of a function's scalar variables in its frame.
use cc.Base.{ℕ, ◌+◌, ◌-◌, ◌≤◌, ◌≡◌, List, [], ◌∷◌}
use cc.Base.Int.{ℤ, pos}
use cc.Token.{Token, TokenKind, int_kw, char_kw, bool_kw}
use cc.Node.{TypeKind, Node}
use cc.Container.{LVar, token_name}
use cc.Parser.{Parser}
use cc.Parser.Declare.{plain_type}
use cc.Parser.Declarator.{starred_type}

-- The types that a declaration of a scalar begins with.
pub data Scalar : Type 0 where
  int char bool : Scalar

abbrev pub keyword : Scalar → TokenKind
keyword Scalar.int = int_kw
keyword Scalar.char = char_kw
keyword Scalar.bool = bool_kw

abbrev pub scalar_kind : Scalar → TypeKind
scalar_kind Scalar.int = TypeKind.int
scalar_kind Scalar.char = TypeKind.char
scalar_kind Scalar.bool = TypeKind.bool

-- The variables, the latest first, each have eight bytes of the first `n` of the frame, which end at the
-- variable's offset and lie behind those of the variables before.
abbrev pub IsFrame : List LVar → ℕ → Type 0
IsFrame [] n = Unit
IsFrame (v ∷ vs) n = (k : ℕ) × (v.offset ≡ pos k) × (8 ≤ k) × (k ≤ n) × IsFrame vs (k - 8)

-- The variable that is added.
abbrev pub next_lvar : Scalar → List Token → Token → ℕ → LVar
next_lvar b ss name n = record {
  name = token_name name;
  offset = pos (n + 8);
  type = starred_type ss (plain_type (scalar_kind b));
}

abbrev pub scalar_size : Scalar → ℤ
scalar_size Scalar.int = pos 8
scalar_size Scalar.char = pos 1
scalar_size Scalar.bool = pos 1
