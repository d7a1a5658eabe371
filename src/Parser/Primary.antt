-- ===== src/Parser/Primary.antt =====
-- parser.c: primary.
use cc.Base.{
  ℕ, zero, suc, Bool, true, false, List, [], ◌∷◌, ◌++◌, Option, none, some, if◌then◌else◌, codes,
  leb, length,
}
use mathlib.Core.List.{reverse}
use cc.Base.Int.{ℤ, pos, negsuc}
use cc.Base.Outcome
use cc.Base.Outcome.{Result, ok, err, fault, exits, out_of_fuel, not_defined, not_implemented}
use cc.Base.CInt.{to_int, mul_int, div_int}
use cc.Util.{starts_with, first_byte}
use cc.Token.{
  Token, TokenKind, eof, str, lt_char, struct_kw, true_kw, false_kw, void_kw, int_kw, char_kw,
  bool_kw, same_kind,
}
use cc.Node.{
  TypeKind, CType, null, type, Name, BinaryKind, Node, Nodes, nil, cons, num, binary, lvar, gvarref,
  literalref, literal, structref, structref_ptr, funcall, addr, deref, cast, has_kind,
}
use cc.Types.{get_element_size, count_arrays}
use cc.Container.{LVar, GVar, token_name, find_lvar, find_gvar, find_defined_enum}
use cc.Preprocessor.Table.{signed_char}
use cc.Parser.{
  Parse, pure, lift, gets, modify, ◌>>=◌, ◌>>◌, fails, consumes, consumes_kind, consumes_indent,
  expects, expects_number, peek, reports, copy_into,
}
use cc.Parser.Declare.{plain_type, pointer_to, find_structs_at, first_kind}
use cc.Parser.Define.{struct_node}
use cc.Parser.Expr.{Call, Rec, target}
use cc.Parser.Member.{member_step}

-- A run of tokens that may be no cast: `token = save_token` where there is none.
unfoldable pub optional : {A : Type 0} → Parse (Option A) → Parse (Option A)
optional m s = Outcome.◌>>=◌ (m s) λ (o, s'). elim o [
  | some a ↦ ok (some a, s')
  | none ↦ ok (none, record s' { tokens = s.tokens })
]

-- The kind that a cast's type gets, by the token after the first one of the type.
abbrev pub cast_kind : TokenKind → TypeKind
cast_kind void_kw = TypeKind.void
cast_kind char_kw = TypeKind.char
cast_kind bool_kw = TypeKind.bool
cast_kind _ = TypeKind.int

abbrev pub cast_types : List (TokenKind × Unit {0})
cast_types = (void_kw, tt) ∷ (int_kw, tt) ∷ (char_kw, tt) ∷ (bool_kw, tt) ∷ []

-- `type *)`.
unfoldable pub cast_prefix : Parse (Option CType)
cast_prefix = do
  first ← first_kind cast_types
  elim first [
    | none ↦ pure none
    | some _ ↦ do
      next ← peek
      star ← consumes (codes "*")
      elim star [
        | false ↦ pure none
        | true ↦ do
          close ← consumes (codes ")")
          pure (if close then some (pointer_to (plain_type (cast_kind next.kind))) else none)
      ]
  ]

-- After `(`: a cast, or an expression in parentheses.
unfoldable pub paren_step : Rec → Parse Node
paren_step rec = do
  prefix ← optional cast_prefix
  elim prefix [
    | some t ↦ do e ← rec Call.unary; pure (cast t e)
    | none ↦ do node ← rec Call.assign; expects (codes ")"); pure node
  ]

-- `arg`, and the children of a block.
abbrev pub to_nodes : List Node → Nodes
to_nodes [] = nil
to_nodes (e ∷ es) = cons e (to_nodes es)

-- The loop over the arguments of a call, with those before.
unfoldable pub args_step : Rec → Name → List Node → Parse Node
args_step rec name before = do
  done ← consumes (codes ")")
  if done
      then pure (funcall name (to_nodes before))
      else if leb 6 (length before)
      then fails (exits not_implemented)
      else do
        arg ← rec Call.add
        more ← consumes (codes ",")
        if more
            then rec (Call.args name (before ++ arg ∷ []))
            else do expects (codes ")"); pure (funcall name (to_nodes (before ++ arg ∷ [])))

-- The sizes of the first `n` arrays of a type, the outermost first.
abbrev pub array_sizes : ℕ → CType → Result (List ℤ)
array_sizes zero t = ok []
array_sizes (suc n) (type TypeKind.array text len t size) =
    Outcome.◌>>=◌ (array_sizes n t) λ rest. ok (to_int size ∷ rest)
array_sizes (suc n) _ = err fault

abbrev pub multiply : ℤ → List ℤ → Result ℤ
multiply total [] = ok total
multiply total (n ∷ ns) = Outcome.◌>>=◌ (mul_int total n) λ total'. multiply total' ns

-- The indices of an array, one for each size, the innermost size first: `index_node`.
unfoldable pub index_sum : Rec → List ℤ → ℤ → Node → Parse Node
index_sum rec [] total node = pure node
index_sum rec (n ∷ sizes) total node = do
  total' ← lift (div_int total n)
  index ← rec Call.equality
  expects (codes "]")
  consumes (codes "[")
  index_sum rec sizes total' (binary BinaryKind.add node (binary BinaryKind.mul index (num total')))

-- After `[`: an element behind a pointer, or of an array.
unfoldable pub index_step : Rec → CType → Node → Parse Node
index_step rec null node = fails fault
index_step rec (type TypeKind.ptr text len t n) node = do
  index ← rec Call.equality
  expects (codes "]")
  size ← lift (get_element_size (type TypeKind.ptr text len t n))
  pure (deref (binary BinaryKind.add node (binary BinaryKind.mul index (num (pos size)))))
index_step rec (type k text len t n) node = do
  sizes ← lift (array_sizes (count_arrays (type k text len t n)) (type k text len t n))
  total ← lift (multiply (pos 1) sizes)
  index ← index_sum rec (reverse sizes) total (num (pos 0))
  size ← lift (get_element_size (type k text len t n))
  pure (deref (binary BinaryKind.add (addr node) (binary BinaryKind.mul (num (pos size)) index)))

-- What follows a variable of a type: `make` gives its node with a reference to a member.
unfoldable pub variable_step : Rec → CType → Node → (Node → Node) → Parse Node
variable_step rec t node make = do
  bracket ← consumes (codes "[")
  if bracket
      then index_step rec t node
      else if has_kind t TypeKind.array
      then pure (addr node)
      else do
        arrow ← consumes (codes "->")
        elim arrow [
          | true ↦ do ref ← member_step structref_ptr (target t); pure (make ref)
          | false ↦ do
            point ← consumes (codes ".")
            elim point [
              | true ↦ do ref ← member_step structref t; pure (make ref)
              | false ↦ pure node
            ]
        ]

-- After a name with a parenthesis behind it; `char t[64]` takes a copy of the name.
unfoldable pub call_step : Rec → Token → Parse Node
call_step rec tok = do
  lift (copy_into 64 (token_name tok))
  expects (codes "(")
  rec (Call.args (token_name tok) [])

-- A local variable, a global one, or an enumerator, by what the lookups give.
unfoldable pub named : Rec → Token → Option LVar → Option GVar → ℤ → Parse Node
named rec tok (some v) gvar index = do
  modify λ s. record s { arg_type = v.type }
  variable_step rec v.type (lvar v.offset v.type null) λ ref. lvar v.offset CType.null ref
named rec tok none (some v) index =
    variable_step rec v.type (gvarref v.name null) λ ref. gvarref v.name ref
named rec tok none none (pos n) = pure (num (pos n))
named rec tok none none (negsuc n) = reports 64 not_defined (token_name tok)

unfoldable pub variable_or_enum : Rec → Token → Parse Node
variable_or_enum rec tok = do
  s ← gets λ s. s
  named rec tok (find_lvar s.locals tok) (find_gvar s.globals tok) (find_defined_enum s.enums tok)

-- `tok->next->str` begins with a parenthesis; the end-of-file token has no text to read.
abbrev pub call_follows : Token → Result Bool
call_follows next =
    if same_kind next.kind eof then err fault else ok (starts_with next.str (codes "("))

unfoldable pub name_step : Rec → Token → Parse Node
name_step rec tok = do
  next ← peek
  is_call ← lift (call_follows next)
  if is_call then call_step rec tok else variable_or_enum rec tok

-- A string literal, which gets the next number; `literals_def` has 100 entries.
unfoldable pub literal_step : Token → Parse Node
literal_step tok = do
  k ← gets λ s. length s.literals_def
  if leb 100 k then fails fault else pure tt
  modify λ s. record s { literals_def = s.literals_def ++ literal (token_name tok) k ∷ [] }
  consumes_kind str
  pure (addr (literalref (token_name tok) k))

-- `struct` and a name, under sizeof.
unfoldable pub struct_step : Parse Node
struct_step = do
  name ← consumes_indent
  found ← find_structs_at name
  pure (elim found [ some def ↦ struct_node def | none ↦ null ])

-- The tokens that are expressions on their own: `consume_kind` takes the token that was looked at.
unfoldable pub atom_step : Parse Node
atom_step = do
  tok ← peek
  if same_kind tok.kind str then literal_step tok else do
    is_char ← consumes_kind lt_char
    if is_char then pure (num (signed_char (first_byte tok.str))) else do
      is_struct ← consumes_kind struct_kw
      if is_struct then struct_step else do
        is_true ← consumes_kind true_kw
        if is_true then pure (num (pos 1)) else do
          is_false ← consumes_kind false_kw
          if is_false then pure (num (pos 0)) else do n ← expects_number; pure (num n)

unfoldable pub primary_step : Rec → Parse Node
primary_step rec = do
  paren ← consumes (codes "(")
  if paren
      then paren_step rec
      else do name ← consumes_indent; elim name [ some tok ↦ name_step rec tok | none ↦ atom_step ]
