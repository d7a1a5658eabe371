-- ===== src/Program.antt =====
-- main.c: the file's text, the phases of main, and the output that it prints once the source is
-- parsed. The files, the arguments and the standard streams stand outside: a file is the list of its
-- bytes, which a function gives for a path, or `none` where fopen fails; fseek, ftell and fread do not
-- fail.
pub mod Labels
pub mod Arithmetic
pub mod Spelled
pub mod Source
pub mod Instructions
pub mod Value
pub mod File
pub mod Indices
pub mod Elements
pub mod Ends
pub mod Places
use cc.Base.{
  ℕ, ◌+◌, Bool, true, false, not, List, [], ◌∷◌, ◌++◌, Option, none, some, if◌then◌else◌, ◌==◌, ltb,
  length,
}
use cc.Base.Outcome.{Result, ok, err, fault, exits, cannot_open, ◌>>=◌}
use cc.Tokenizer.Scan.{tokenize}
use cc.Preprocessor.Loop.{preprocess}
use cc.Parser.{Parser, initial}
use cc.Parser.Program.{program}
use cc.Node.{Node, null}
use cc.Asm.{Line, intel_syntax, globl_main}
use cc.Codegen.{Gen}
use cc.Codegen.Gen.{gen, emit, is_null}

-- `for (int i = 0; slots[i]; i++) gen(slots[i])`, on the slots that are left of `literals_def` or
-- `code`: the first null pointer ends it, and a read behind the last slot is one outside the array.
unfoldable pub gen_all : List Node → ℕ → Gen
unfolding gen
gen_all [] i = err fault
gen_all (e ∷ slots) i =
    let more = do (a, j) ← gen e i; (b, k) ← gen_all slots j; emit (a ++ b) k
    in if is_null e then emit [] i else more

-- From the first `printf` of main on; `labelidx` is 0 at first.
unfoldable pub output : List Node → List Node → Gen
unfolding gen_all
output literals_def code = do
  (a, j) ← gen_all literals_def 0
  (b, k) ← gen_all code j
  emit (intel_syntax ∷ a ++ globl_main ∷ b) k

-- `while(*path != '\0')`: the bytes of `filename` up to `idx`, after those that are given. A slash
-- behind a byte is left out, and what follows it is written from the beginning.
abbrev pub filename_from : List ℕ → List ℕ → Result (List ℕ)
filename_from [] name = if ltb (length name) 100 then ok name else err fault
filename_from (c ∷ []) name = if ltb (length name) 99 then ok (name ++ c ∷ []) else err fault
filename_from (c ∷ d ∷ path) name = elim (ltb (length name) 100) [
  | false ↦ err fault
  | true ↦ elim (d == b'/') [
    | true ↦ filename_from path []
    | false ↦ filename_from (d ∷ path) (name ++ c ∷ [])
  ]
]

-- `size == 0 || buf[size - 1] != '\n'`.
abbrev pub ends_line : List ℕ → Bool
ends_line [] = false
ends_line (c ∷ []) = c == 10
ends_line (c ∷ d ∷ content) = ends_line (d ∷ content)

-- A buffer as a `char *`: the bytes up to the first NUL.
abbrev pub up_to_nul : List ℕ → List ℕ
up_to_nul [] = []
up_to_nul (c ∷ content) = let rest = up_to_nul content in if c == 0 then [] else c ∷ rest

-- The buffer from its beginning on, by the bytes of the file.
abbrev pub buffer : List ℕ → List ℕ
buffer content = up_to_nul (if ends_line content then content else content ++ 10 ∷ [])

abbrev pub Files : Type 0
Files = List ℕ → Option (List ℕ)

-- `filename` and the text.
unfoldable pub read_file : Files → List ℕ → Result (List ℕ × List ℕ)
read_file files path = elim (files path) [
  | none ↦ err (exits (cannot_open path))
  | some content ↦ filename_from path [] >>= λ name. ok (name, buffer content)
]

-- `literals_def` as main reads it: null pointers behind what the parser wrote, up to its 100 slots.
abbrev pub literal_slots : List Node → List Node
literal_slots written = if ltb (length written) 100 then written ++ null ∷ [] else written

-- The phases on a text. Each loop has fuel for its list.
unfoldable pub compile : List ℕ → Result (List Line)
compile text = do
  ts ← tokenize (length text + 1) text
  ts' ← preprocess (length ts + 1) ts
  (code, s) ← program (initial ts')
  (ls, k) ← output (literal_slots s.literals_def) code
  ok ls

-- The status that main returns, and what it prints on the standard output.
unfoldable pub main : Files → List (List ℕ) → Result (ℕ × List Line)
main files (name ∷ path ∷ []) = do
  (file, text) ← read_file files path
  ls ← compile text
  ok (0, ls)
main files argv = ok (1, [])
