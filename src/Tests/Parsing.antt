-- ===== src/Tests/Parsing.antt =====
-- The parser on small programs, and what is proved of it at them.
use cc.Base.{length, ◌<◌, ℕ, List, [], ◌∷◌, ◌++◌, ◌≡◌, refl, arith, codes, some}
use cc.Base.Outcome.{ok, err, exits, not_defined}
use cc.Token.{TokenKind, Token, new_token, reserved}
use cc.Asm.{Line}
use cc.Codegen.Gen.{gen}
use cc.Codegen.Runs.{Agrees, state}
use cc.Machine.{exec}
use cc.Machine.Word.{mul_word, add_word}
use cc.Parser.{Parser, initial}
use cc.Parser.Expr.{Call}
use cc.Parser.Stmt.{run}
use cc.Parser.Leaves.Program.{EndsWell, program-ends, run-ends}
use cc.Parser.Program.{program}
use cc.Parser.Print.{punct, number, Op, Expr, tree, print}
use cc.Parser.Levels.{on}
use cc.Parser.Roundtrip.{run-print}
use cc.Base.Int.{pos}
use cc.Node.{CType, Node, TypeKind, BinaryKind, binary, deref, addr}
use cc.Parser.{pure, ◌>>=◌}
use cc.Container.{token_name}
use cc.Parser.Declare.{plain_type, declared_lvar}
use cc.Parser.Declarator.{
  Dimension, dimension_tokens, declared_offset, dimensioned, starred_type, declared_lvar-type,
}
use cc.Parser.Frame.{Scalar, next_lvar}
use cc.Parser.Undefined.{run-undefined, name_token}
use cc.Program.Arithmetic.{run-gen-value}
use cc.Program.Indices.{Index, index_text, index_tokens}
use cc.Parser.Primary.{index_step}
use cc.Program.Elements.{array_type, index_step-row_major}
use cc.Codegen.Meaning.{eval}
use cc.Tests.Generating.{layout, registers, zeros}

abbrev semicolon : Token
semicolon = new_token reserved (codes ";") 1

abbrev start : Parser
start = initial []

-- `(1 + 2) * 3 < 4`.
abbrev comparison : Expr
comparison =
    Expr.apply Op.less
      (Expr.apply Op.times (Expr.apply Op.plus (Expr.literal 1) (Expr.literal 2)) (Expr.literal 3))
      (Expr.literal 4)

run-print_example :
    run 200 Call.assign (on start (print 5 comparison [] ++ semicolon ∷ []))
    ≡ ok (tree comparison, on start (semicolon ∷ []))
run-print_example = run-print comparison 200 start [] semicolon [] refl (omega arith)

run-gen-value_example :
    (n : Node) × (ls : List Line) × (j : ℕ) × (run 200 Call.assign
        (on start (print 5 comparison [] ++ semicolon ∷ []))
      ≡ ok (n, on start (semicolon ∷ [])))
    × (gen n 0 ≡ ok (ls, j))
    × Agrees 1000 (7 ∷ []) (some (0, zeros)) (exec layout ls (state registers 1000 (7 ∷ []) zeros))
unfolding mul_word add_word
run-gen-value_example =
    run-gen-value layout comparison 200 start [] semicolon [] 0 1000 registers (7 ∷ []) zeros refl
      (omega arith) (λ p. omega arith)

-- `x;`, where nothing is declared.
run-undefined_example :
    run 10 Call.assign (on start (name_token (codes "x;") 1 ∷ semicolon ∷ []))
    ≡ err (exits (not_defined (codes "x")))
run-undefined_example =
    run-undefined 5 10 start (codes "x;") 1 semicolon [] (omega arith) (omega arith) (omega arith)
      (omega arith) refl (tt, tt, tt)

abbrev keyword : TokenKind → List ℕ → Token
keyword k text = new_token k text (length text)

-- `int g; int main() { return 1; }`.
abbrev tokens : List Token
tokens =
    keyword TokenKind.int_kw (codes "int")
    ∷ name_token (codes "g") 1
    ∷ semicolon
    ∷ keyword TokenKind.int_kw (codes "int")
    ∷ name_token (codes "main") 4
    ∷ punct (codes "(") []
    ∷ punct (codes ")") []
    ∷ punct (codes "{") []
    ∷ keyword TokenKind.return_kw (codes "return")
    ∷ number 1 []
    ∷ semicolon
    ∷ punct (codes "}") []
    ∷ new_token TokenKind.eof [] 0
    ∷ []

program-ends_example : EndsWell program (initial tokens)
program-ends_example = program-ends (initial tokens)

run-ends_example : EndsWell (run 300 Call.stmt) (initial (semicolon ∷ tokens))
run-ends_example = run-ends Call.stmt (initial (semicolon ∷ tokens)) 300 (omega arith)

abbrev star : Token
star = punct (codes "*") []

-- `[n]`.
abbrev sized : ℕ → Dimension
sized n = record { left = punct (codes "[") []; size = number n []; right = punct (codes "]") [] }

-- `int **a[3][2];`.
declared_lvar-type_example :
    declared_lvar TypeKind.int (pos 8) (
      on start (
        star
        ∷ star
        ∷ name_token (codes "a") 1
        ∷ (dimension_tokens (sized 3 ∷ sized 2 ∷ []) ++ semicolon ∷ [])))
    ≡ (declared_offset (sized 3 ∷ sized 2 ∷ []) (pos 8) >>= λ offset. pure (record {
      name = token_name (name_token (codes "a") 1);
      offset = offset;
      type =
          dimensioned
            (sized 3 ∷ sized 2 ∷ [])
            (starred_type (star ∷ star ∷ []) (plain_type TypeKind.int));
    }))
        (on start (semicolon ∷ []))
declared_lvar-type_example =
    declared_lvar-type TypeKind.int (pos 8) start (star ∷ star ∷ []) (name_token (codes "a") 1)
      (sized 3 ∷ sized 2 ∷ []) semicolon [] (refl, (refl, tt)) refl
      ((refl, refl, refl), ((refl, refl, refl), tt)) refl

-- `int x; char **a;`, from the second declaration on.
abbrev one_local : Parser
one_local = record start {
  locals = next_lvar Scalar.int [] (name_token (codes "x") 1) 0 ∷ [];
  offset = pos 8;
}

abbrev second : List Token
second = star ∷ star ∷ name_token (codes "a") 1 ∷ punct (codes ";") [] ∷ []

abbrev first_index : Index
first_index = record { size = 3; expr = Expr.literal 2; at = 2 }

-- `a[2][1]` of `a[3][2]` is the last of six elements.
abbrev second_index : Index
second_index = record { size = 2; expr = Expr.literal 1; at = 1 }

abbrev local_array : Node
local_array =
    Node.lvar (pos 48) (array_type (first_index ∷ second_index ∷ []) (plain_type TypeKind.int))
      Node.null

index_text-example : index_text first_index (second_index ∷ []) (codes ";\n") ≡ codes "2 ][1 ];\n"
index_text-example = refl

index_step-row_major_example :
    (n : Node) × (index_step
        (run 200)
        (array_type (first_index ∷ second_index ∷ []) (plain_type TypeKind.int))
        local_array
        (on start (
          index_tokens first_index (second_index ∷ []) (codes ";\n")
          ++ new_token reserved (codes ";\n") 1 ∷ []))
      ≡ ok (
        deref
            (binary BinaryKind.add (addr local_array) (binary BinaryKind.mul (Node.num (pos 8)) n)),
        on start (new_token reserved (codes ";\n") 1 ∷ []),
      ))
    × (eval layout 1000 n zeros ≡ some (5, zeros))
    × (5 < 6)
index_step-row_major_example =
    index_step-row_major layout 1000 zeros TypeKind.int [] 0 CType.null 0 first_index
      (second_index ∷ []) (codes ";\n") 200 start local_array (new_token reserved (codes ";\n") 1)
      [] refl ((omega arith, refl), ((omega arith, refl), tt)) (omega arith) refl (omega arith)
