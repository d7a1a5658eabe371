-- ===== src/Parser.antt =====
-- parser.c: the state of the parser, the actions on it, and how the tokens are read.
pub mod Declare
pub mod Define
pub mod Expr
pub mod Member
pub mod Primary
pub mod Stmt
pub mod Program
pub mod Leaves
pub mod Print
pub mod Levels
pub mod Reads
pub mod Roundtrip
pub mod Function
pub mod Declarator
pub mod Frame
pub mod Undefined
use cc.Base.{ℕ, Bool, List, [], ◌∷◌, ◌++◌, Option, none, some, if◌then◌else◌, ltb, length}
use cc.Base.Int.{ℤ, pos}
use cc.Base.Outcome
use cc.Base.Outcome.{Result, ok, err, fault, Failure, Message, exits}
use cc.Util.{mysubstr}
use cc.Token.{Token, TokenKind}
use cc.Node.{CType, null, Name, Node}
use cc.Container.{LVar, GVar, EnumDef, StructAlias, TypedefName, StructDef}
use cc.Cursor

-- The globals that the parser reads and writes: the tokens that are left, the tables with the latest
-- entry first, `_offset`, `literals_def` in its order, of which `literals_def_idx` is the length, and
-- `arg_type`.
pub record Parser : Type 0 where
  pub tokens : List Token
  pub locals : List LVar
  pub offset : ℤ
  pub globals : List GVar
  pub structs : List StructDef
  pub enums : List EnumDef
  pub aliases : List StructAlias
  pub typedefs : List TypedefName
  pub literals_def : List Node
  pub arg_type : CType

-- The globals as the program starts, on the tokens of the preprocessor.
abbrev pub initial : List Token → Parser
initial ts = record {
  tokens = ts;
  locals = [];
  offset = pos 0;
  globals = [];
  structs = [];
  enums = [];
  aliases = [];
  typedefs = [];
  literals_def = [];
  arg_type = null;
}

abbrev pub Parse : Type 0 → Type 0
Parse A = Parser → Result (A × Parser)

module _ {A : Type 0} where
  unfoldable pub pure : A → Parse A
  pure a s = ok (a, s)

  unfoldable pub lift : Result A → Parse A
  lift r s = Outcome.◌>>=◌ r λ a. ok (a, s)

  unfoldable pub gets : (Parser → A) → Parse A
  gets f s = ok (f s, s)

  -- A function of the cursor.
  unfoldable pub reads : (List Token → Result (A × List Token)) → Parse A
  reads f s = Outcome.◌>>=◌ (f s.tokens) λ (a, ts). ok (a, record s { tokens = ts })

-- A change of the other globals, the tokens not among them.
unfoldable pub modify : (Parser → Parser) → Parse (Unit {0})
modify f s = ok (tt, record (f s) { tokens = s.tokens })

infixl 1 ◌>>=◌ ◌>>◌
unfoldable pub ◌>>=◌ : {A B : Type 0} → Parse A → (A → Parse B) → Parse B
◌>>=◌ m f s = Outcome.◌>>=◌ (m s) λ (a, s'). f a s'

abbrev pub ◌>>◌ : {A B : Type 0} → Parse A → Parse B → Parse B
m >> k = m >>= λ _. k

unfoldable pub fails : {A : Type 0} → Failure → Parse A
fails e s = err e

unfoldable pub consumes : List ℕ → Parse Bool
unfolding reads
consumes op = reads (Cursor.consume op)

unfoldable pub consumes_kind : TokenKind → Parse Bool
unfolding reads
consumes_kind kind = reads (Cursor.consume_kind kind)

unfoldable pub consumes_indent : Parse (Option Token)
unfolding reads
consumes_indent = reads Cursor.consume_indent

unfoldable pub expects : List ℕ → Parse (Unit {0})
unfolding reads
expects op = reads λ ts. Outcome.◌>>=◌ (Cursor.expect op ts) λ ts'. ok (tt, ts')

unfoldable pub expects_number : Parse ℤ
unfolding reads
expects_number = reads Cursor.expect_number

-- The fields of a token behind a pointer that may be null.
unfoldable pub pointed : {A : Type 0} → Option A → Parse A
unfolding pure fails
pointed none = fails fault
pointed (some a) = pure a

-- `*token`.
abbrev head : List Token → Result Token
head [] = err fault
head (t ∷ ts) = ok t

unfoldable pub peek : Parse Token
peek s = Outcome.◌>>=◌ (head s.tokens) λ t. ok (t, s)

-- A copy of a name with mysubstr into a buffer of zeros: what does not fit is written past its end.
unfoldable pub copy_into : ℕ → Name → Result (List ℕ)
unfolding mysubstr
copy_into size n = elim (mysubstr n.text n.len) [
  | none ↦ ok []
  | some t ↦ if ltb n.len size then ok t else err fault
]

-- A call of `error` with a name in its message.
unfoldable pub reports : {A : Type 0} → ℕ → (List ℕ → Message) → Name → Parse A
unfolding lift fails ◌>>=◌ copy_into
reports size message n = do t ← lift (copy_into size n); fails (exits (message t))

-- The number of tokens that are left, which bounds the rounds of a loop over them.
unfoldable pub tokens_left : Parse ℕ
unfolding gets
tokens_left = gets (λ s. length s.tokens)
