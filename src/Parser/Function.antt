-- ===== src/Parser/Function.antt =====
-- The parser on a function `main` without parameters whose body is one `return`.
use cc.Base.{ℕ, suc, ◌+◌, ◌*◌, arith, ◌≡◌, refl, List, [], ◌∷◌, ◌++◌, codes, length, some, ◌∙◌}
use cc.Base.Int.{pos}
use cc.Base.Outcome.{ok}
use cc.Token.{Token, TokenKind, new_token, indent, int_kw, return_kw, eof}
use cc.Node.{Node, null, funcdef, block, return, nil, cons}
use cc.Cursor.{consume, consume_kind, consume_indent, expect, at_eof}
use cc.Container.{token_name}
use cc.Types.{get_next_offset}
use cc.Preprocessor.Loop.{blank}
use cc.Parser.{
  Parser, initial, pure, lift, gets, modify, reads, ◌>>=◌, consumes, consumes_kind, consumes_indent,
  expects, pointed, peek, tokens_left,
}
use cc.Parser.Declare.{first_kind, pointers, stars, next_offset}
use cc.Parser.Expr.{Call}
use cc.Parser.Stmt.{step, run, stmt_step, block_step, return_step}
use cc.Parser.Print.{punct}
use cc.Parser.Levels.{on}
use cc.Parser.Roundtrip.{Starts, starts_number, starts_paren}
use cc.Parser.Program.{
  program, definitions, define_function_or_gvar, definition_step, function_step, params, last_kind,
  late_typedef, enough,
}

abbrev pub word : TokenKind → List ℕ → List ℕ → Token
word k t rest = new_token k (t ++ 32 ∷ rest) (length t)

abbrev pub main_token : List ℕ → Token
main_token body = word indent (codes "main") (codes "( ) " ++ body)

-- The tokens up to the parenthesis that closes the parameters, before the text of a body.
abbrev pub heading : List ℕ → List Token
heading body =
    word int_kw (codes "int") (codes "main ( ) " ++ body)
    ∷ main_token body
    ∷ punct (codes "(") (codes ") " ++ body)
    ∷ punct (codes ")") body
    ∷ []

abbrev pub return_token : List ℕ → Token
return_token rest = word return_kw (codes "return") rest

abbrev pub returned : Node → Node
returned n = block (cons (return n) nil)

-- The definition of the function `main`, by the text of its body.
abbrev pub main_node : List ℕ → Node → Node
main_node x n = funcdef (token_name (main_token (codes "{ " ++ x))) nil (returned n) (pos 8)

run-return :
    (k : ℕ) (s : Parser) (x y z w : List ℕ) (ts us : List Token) (n : Node)
    → Starts ts
    → run k Call.assign (on s ts) ≡ ok (n, on s (punct (codes ";") z ∷ punct (codes "}") w ∷ us))
    → run (suc (suc (suc k))) Call.stmt (on s (punct (codes "{") x ∷ return_token y ∷ ts))
      ≡ ok (returned n, on s us)
unfolding run step stmt_step block_step return_step first_kind ◌>>=◌ consumes reads consume pure
    consumes_kind consume_kind peek expects expect
run-return k s x y z w _ us n (starts_number m tail ts) e = rw e refl
run-return k s x y z w _ us n (starts_paren tail ts) e = rw e refl

-- The parser behind the first function, whose body has no declaration.
abbrev pub behind : List Token → Parser
behind ts = record (initial ts) { offset = pos 8 }

function-body :
    (tok : Token) (x : List ℕ) (ts us : List Token) (n : Node)
    → run (enough (length ts)) Call.stmt (initial ts) ≡ ok (n, initial us)
    → function_step (some tok) (initial (punct (codes ")") x ∷ ts))
      ≡ ok (funcdef (token_name tok) nil n (pos 8), behind us)
unfolding function_step params ◌>>=◌ consumes reads consume pure pointed tokens_left gets lift
    modify next_offset get_next_offset
function-body tok x ts us n e = rw e refl

heading-step :
    (body : List ℕ) (ts : List Token)
    → define_function_or_gvar (initial (heading body ++ ts))
      ≡ function_step (some (main_token body)) (initial (punct (codes ")") body ∷ ts))
unfolding define_function_or_gvar definition_step last_kind late_typedef ◌>>=◌ consumes reads
    consume pure modify consumes_kind consume_kind consumes_indent consume_indent pointers stars
    tokens_left gets
heading-step body ts = refl

program-end :
    (body : List ℕ) (ts : List Token) (n : Node)
    → define_function_or_gvar (initial (heading body ++ ts)) ≡ ok (n, behind (blank eof ∷ []))
    → program (initial (heading body ++ ts)) ≡ ok (n ∷ null ∷ [], behind (blank eof ∷ []))
unfolding program definitions at_eof ◌>>=◌ reads tokens_left gets pure
program-end body ts n e = rw e refl

-- A program of one function, which returns what assign reads.
pub program-return :
    (x y z w : List ℕ) (ts : List Token) (n : Node)
    → Starts ts
    → run (16 * length ts + 45) Call.assign (initial ts)
      ≡ ok (n, initial (punct (codes ";") z ∷ punct (codes "}") w ∷ blank eof ∷ []))
    → program (initial (heading (codes "{ " ++ x) ++ punct (codes "{") x ∷ return_token y ∷ ts))
      ≡ ok (main_node x n ∷ null ∷ [], behind (blank eof ∷ []))
program-return x y z w ts n b e =
    let body = punct (codes "{") x ∷ return_token y ∷ ts in
    let fuel : enough (length body) ≡ suc (suc (suc (16 * length ts + 45))) = omega arith in
    let statement : run (enough (length body)) Call.stmt (initial body)
        ≡ ok (returned n, initial (blank eof ∷ [])) =
      rw fuel (run-return (16 * length ts + 45) (initial []) x y z w ts (blank eof ∷ []) n b e) in
    program-end (codes "{ " ++ x) body (main_node x n) (
      heading-step (codes "{ " ++ x) body
      ∙ function-body _ (codes "{ " ++ x) body (blank eof ∷ []) (returned n) statement)
