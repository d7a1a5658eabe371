-- ===== src/Cursor.antt =====
-- tokenizer.c: how the parser reads the tokens; and at_eof of parser.c. The global `token` is the
-- list of the tokens that are left, which each function takes and hands on; past the last token it is
-- the null pointer, whose fields cannot be read.
pub mod Texts
use cc.Base.{
  ℕ, Bool, true, false, ◌&&◌, List, [], ◌∷◌, Option, none, some, ◌==◌, if◌then◌else◌, length,
}
use cc.Base.Int.{ℤ}
use cc.Base.Outcome.{Result, ok, err, fault, exits, expected, not_number}
use cc.Util.{same_bytes}
use cc.Token.{Token, TokenKind, reserved, indent, num, eof, same_kind}

-- `strlen(op) == token->len && !memcmp(token->str, op, token->len)`.
abbrev pub is_op : List ℕ → Token → Bool
is_op op t = length op == t.len && same_bytes t.len t.str op

unfoldable pub consume : List ℕ → List Token → Result (Bool × List Token)
consume op [] = err fault
consume op (t ∷ ts) =
    if same_kind t.kind reserved && is_op op t then ok (true, ts) else ok (false, t ∷ ts)

unfoldable pub consume_kind : TokenKind → List Token → Result (Bool × List Token)
consume_kind kind [] = err fault
consume_kind kind (t ∷ ts) = if same_kind t.kind kind then ok (true, ts) else ok (false, t ∷ ts)

unfoldable pub consume_indent : List Token → Result (Option Token × List Token)
consume_indent [] = err fault
consume_indent (t ∷ ts) = if same_kind t.kind indent then ok (some t, ts) else ok (none, t ∷ ts)

unfoldable pub expect_type : List ℕ → List Token → Result (List Token)
expect_type op [] = err fault
expect_type op (t ∷ ts) = if is_op op t then ok ts else err (exits (expected op))

unfoldable pub expect : List ℕ → List Token → Result (List Token)
expect op [] = err fault
expect op (t ∷ ts) =
    if same_kind t.kind reserved && is_op op t then ok ts else err (exits (expected op))

unfoldable pub expect_number : List Token → Result (ℤ × List Token)
expect_number [] = err fault
expect_number (t ∷ ts) = if same_kind t.kind num then ok (t.val, ts) else err (exits not_number)

unfoldable pub at_eof : List Token → Result Bool
at_eof [] = err fault
at_eof (t ∷ ts) = ok (same_kind t.kind eof)
