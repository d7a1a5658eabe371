-- ===== src/Parser/Program.antt =====
-- parser.c: define_function_or_gvar and program.
use cc.Base.{
  ℕ, zero, suc, ◌+◌, ◌*◌, Bool, true, false, ◌&&◌, not, List, [], ◌∷◌, ◌++◌, Option, none, some,
  if◌then◌else◌, codes, leb, length, ◌==◌,
}
use cc.Base.Int.{pos}
use cc.Base.Outcome.{Result, ok, err, fault, out_of_fuel, exits, not_implemented}
use cc.Util.{first_byte}
use cc.Token.{
  Token, TokenKind, reserved, typedef_kw, enum_kw, int_kw, char_kw, bool_kw, void_kw, struct_kw,
  same_kind,
}
use cc.Node.{TypeKind, BinaryKind, Node, null, binary, lvar, funcdef, CType}
use cc.Container.{token_name}
use cc.Base.Outcome
use cc.Cursor
use cc.Parser.{
  Parse, pure, modify, reads, ◌>>=◌, ◌>>◌, fails, consumes, consumes_kind, consumes_indent, expects,
  pointed, peek, tokens_left,
}
use cc.Parser.Declare.{
  plain_type, pointers, declared_lvar_undefined_type, find_structs_at, next_offset,
}
use cc.Parser.Define.{
  defined_struct, defined_enum, parse_typedef, declared_gvar, declared_structs_gvar,
}
use cc.Parser.Expr.{Call}
use cc.Parser.Primary.{to_nodes}
use cc.Parser.Stmt.{run}

-- `calloc(1, sizeof(Node))`.
abbrev pub zero_node : Node
zero_node = binary BinaryKind.add null null

-- Each keyword in turn, the last that is consumed counts. `none` is a `ty` that is not set.
unfoldable pub last_kind : List (TokenKind × TypeKind) → Option TypeKind → Parse (Option TypeKind)
last_kind [] ty = pure ty
last_kind ((kind, k) ∷ rest) ty = do
  found ← consumes_kind kind
  last_kind rest (if found then some k else ty)

abbrev pub base_types : List (TokenKind × TypeKind)
base_types =
    (int_kw, TypeKind.int)
    ∷ (char_kw, TypeKind.char)
    ∷ (bool_kw, TypeKind.bool)
    ∷ (void_kw, TypeKind.void)
    ∷ (struct_kw, TypeKind.struct)
    ∷ []

-- `typedef` at the beginning.
unfoldable pub typedef_step : Parse Node
typedef_step = do
  is_enum ← consumes_kind enum_kw
  if is_enum then defined_enum else parse_typedef
  pure zero_node

abbrev pub is_brace : Token → Bool
is_brace t = same_kind t.kind reserved && (t.len == 1 && first_byte t.str == b'{')

-- A name for a structure; `none` where its body follows, and the rest is read as a definition.
unfoldable pub alias_step : Parse (Option Node)
alias_step = do
  tag ← consumes_indent
  next ← peek
  if is_brace next then pure none else do
    name ← consumes_indent
    expects (codes ";")
    tag' ← pointed tag
    alias ← pointed name
    modify λ s. record s {
      aliases = record { tag = token_name tag'; alias = token_name alias } ∷ s.aliases;
    }
    pure (some zero_node)

-- `typedef` behind the keyword of a type; `none` where the definition goes on.
unfoldable pub late_typedef : Parse (Option Node)
late_typedef = do
  is_typedef ← consumes_kind typedef_kw
  if not is_typedef then pure none else do
    is_enum ← consumes_kind enum_kw
    if is_enum
        then (defined_enum >> pure (some zero_node))
        else do is_struct ← consumes_kind struct_kw; if is_struct then alias_step else pure none

-- The parameters up to the parenthesis, with those before; each is a local variable.
unfoldable pub params : ℕ → List Node → Parse (List Node)
params zero before = fails out_of_fuel
params (suc f) before = do
  done ← consumes (codes ")")
  elim done [
    | true ↦ pure before
    | false ↦ do
      if leb 6 (length before) then fails (exits not_implemented) else pure tt
      v ← declared_lvar_undefined_type none
      modify λ s. record s { locals = v ∷ s.locals }
      let before' : List Node = before ++ lvar v.offset CType.null null ∷ []
      more ← consumes (codes ",")
      elim more [ true ↦ params f before' | false ↦ expects (codes ")") >> pure before' ]
  ]

-- Enough fuel for the statements of the tokens that are left.
abbrev pub enough : ℕ → ℕ
enough n = 16 * n + 16

-- After the name of a function and `(`.
unfoldable pub function_step : Option Token → Parse Node
function_step name = do
  tok ← pointed name
  n ← tokens_left
  parameters ← params (suc n) []
  m ← tokens_left
  body ← run (enough m) Call.stmt
  offset ← next_offset (pos 8)
  pure (funcdef (token_name tok) (to_nodes parameters) body offset)

-- A definition that is no function.
unfoldable pub data_step : Option TypeKind → Option Token → Parse Node
data_step none name = fails fault
data_step (some TypeKind.struct) name = do
  found ← find_structs_at name
  elim found [
    | some _ ↦ pointed name >>= λ tok. declared_structs_gvar tok TypeKind.struct
    | none ↦ defined_struct name
  ]
data_step (some ty) name = declared_gvar name ty

-- From the stars of the type on.
unfoldable pub definition_step : Option TypeKind → Parse Node
definition_step ty = do
  pointers (plain_type TypeKind.int)
  name ← consumes_indent
  is_function ← consumes (codes "(")
  if is_function then function_step name else data_step ty name

unfoldable pub define_function_or_gvar : Parse Node
define_function_or_gvar = do
  modify λ s. record s { locals = []; offset = pos 0 }
  is_typedef ← consumes_kind typedef_kw
  if is_typedef then typedef_step else do
    ty ← last_kind base_types none
    late ← late_typedef
    elim late [ some node ↦ pure node | none ↦ definition_step ty ]

-- `while(!at_eof())`. `code` has 100 entries, and the last one set is the null pointer behind the
-- nodes.
unfoldable pub definitions : ℕ → List Node → Parse (List Node)
definitions zero code = fails out_of_fuel
definitions (suc f) code = do
  done ← reads λ ts. Outcome.◌>>=◌ (Cursor.at_eof ts) λ b. ok (b, ts)
  if done then (if leb 100 (length code) then fails fault else pure (code ++ null ∷ [])) else do
    node ← define_function_or_gvar
    if leb 100 (length code) then fails fault else definitions f (code ++ node ∷ [])

unfoldable pub program : Parse (List Node)
program = do n ← tokens_left; definitions (suc n) []
