-- ===== src/Tests/Whole.antt =====
-- main on small files, and what is proved of it at them.
use cc.Base.{ℕ, sym, ◌≡◌, ◌≢◌, ◌⊎◌, List, [], ◌∷◌, ◌++◌, some, arith, codes, refl}
use cc.Base.Outcome.{Failure, ok, err, out_of_fuel}
use cc.Asm.{Line}
use cc.Tokenizer.Termination.{Lexable}
use cc.Report.{Report, error_at}
use cc.Program.{buffer, Files, main}
use cc.Program.Ends.{main-ends}
use cc.Report.Place.{Reports}
use cc.Program.Places.{buffer-error_at}
use cc.Codegen.Runs.{state}
use cc.Machine.Call.{call_function}
use cc.Machine.Word.{mul_word, add_word}
use cc.Parser.Print.{Op, Expr, spell, print}
use cc.Tokenizer.Lexes.{Lexes}
use cc.Program.Spelled.{spell-Lexes}
use cc.Program.Source.{source}
use cc.Program.Value.{Returns}
use cc.Program.File.{main-value}
use cc.Tests.Generating.{layout, registers, zeros}

abbrev content : List ℕ
content = codes "int main(){ return 1 + 2 * 3; }"

abbrev files : Files
files path = some content

abbrev argv : List (List ℕ)
argv = codes "9cc" ∷ codes "a.c" ∷ []

files-Lexable : (path c : List ℕ) → files path ≡ some c → Lexable (buffer c)
files-Lexable path c h = rw (sym (same h)) (ground arith)
  where
    same : some content ≡ some c → content ≡ c
    same e = cc

main-ends_example :
    ((status : ℕ) × (ls : List Line) × (main files argv ≡ ok (status, ls)))
    ⊎ ((e : Failure) × (main files argv ≡ err e) × (e ≢ out_of_fuel))
main-ends_example = main-ends files argv files-Lexable

buffer-error_at_example :
    (r : Report) × (error_at (buffer content) 12 ≡ ok r) × Reports (buffer content) 12 r
buffer-error_at_example = buffer-error_at content 12 (omega arith) (omega arith)

-- `(1 + 2) * 3`.
abbrev product : Expr
product =
    Expr.apply Op.times (Expr.apply Op.plus (Expr.literal 1) (Expr.literal 2)) (Expr.literal 3)

source-product : source product ≡ codes "int main ( ) { return ( 1 + 2 ) * 3 ; } " ++ 10 ∷ []
source-product = refl

-- Called from the address 77, with one word on the stack below the caller's.
main-value_example :
    (ls : List Line) × (main (λ path. some (source product)) argv ≡ ok (0, ls))
    × Returns 500
        (7 ∷ [])
        zeros
        (some 9)
        (call_function layout 1000 ls (state registers 500 (77 ∷ 7 ∷ []) zeros))
unfolding mul_word add_word
main-value_example =
    main-value (λ path. some (source product)) (codes "9cc") (codes "a.c") layout product 1000
      registers 500 77 (7 ∷ []) zeros refl (omega arith) ((omega arith, omega arith), omega arith)
      (λ p. omega arith) (omega arith)

spell-Lexes_example : Lexes (print 5 product []) (spell 5 product []) []
spell-Lexes_example = spell-Lexes product 5 [] ((omega arith, omega arith), omega arith)
