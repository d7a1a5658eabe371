-- ===== src/Lib.antt =====
-- 9cc compiles a part of C to x86-64 assembly. The program text goes through four parts in turn, which
-- meet in global variables: tokenize (tokenizer.c) makes a list of tokens in `token`; preprocess
-- (preprocessor.c) replaces that list by one in which `#define` is expanded; program (parser.c) reads
-- the list with consume and expect, looks names up in the tables of container.c and makes trees of
-- nodes in `code` and `literals_def`; and gen (codegen.c) prints the assembly of each tree, one after
-- the other, from main (main.c).
--
-- In the model a global that a function changes is an argument and a result. A `char *` is the list of
-- the bytes from it up to the NUL, a linked list is a list, and a null pointer is a constructor or
-- `none`. A call of `error` ends the run with a `Failure.exits`; a read or write outside an object, or
-- of a null pointer, with a `Failure.fault`. Allocation always succeeds and nothing is freed. A read
-- behind the NUL counts as one outside the object, although the buffer goes on in a file that has a NUL
-- in its middle.
--
-- - Base and its children: the names all share, tests on numbers, lists, `int`, and outcomes.
-- - Token, Node (9cc.h): kinds and records of tokens, types and nodes. A node has a constructor for
--   each kind, with the fields that the kind uses.
-- - Util (util.c): startswith is `starts_with`, and memcmp is `same_bytes`.
-- - Report (util.c): the line, its number and the column that error_at prints.
-- - Tokenizer (tokenizer.c): `lex_one` is a round of the loop of tokenize_until_end_char, and
--   Tokenizer/Scan has the loop as `scan`, with the end character and `p` as arguments. A round says
--   how far `p` moves. Tokenizer/Stuck says at which texts it does not, and Tokenizer/Stops at which
--   a round fails. Tokenizer/Lexes and Tokenizer/Numbers are about the tokens that a run makes of a
--   text with a rest behind it.
-- - Cursor (tokenizer.c, parser.c): consume, consume_kind, consume_indent, expect_type, expect,
--   expect_number and at_eof, on the tokens that are left.
-- - Preprocessor/Table and Preprocessor/Loop (preprocessor.c): the chained hash table, and preprocess.
--   Preprocessor/Lookup and Preprocessor/Expand have the abstract views: a list of definitions of which
--   the latest counts, and an expansion by recursion on definitions and tokens; Preprocessor/Plain is
--   about a text without definitions.
-- - Container (container.c, util.c): the lookups, over one loop `find_named`.
-- - Types (parser.c, up to copy_type): sizes of types, and the offsets of a frame's variables.
-- - Parser (parser.c): the globals of the parser as a record, and the actions on it. Parser/Declare
--   has parse_type_base, declared_lvar, declared_lvar_undefined_type and declare_structs;
--   Parser/Define has defined_struct, defined_enum, parse_typedef, declared_gvar and
--   declared_structs_gvar. assign, equality, relational, add, mul, mul_ptr, unary (Parser/Expr),
--   struct_ref (Parser/Member), primary (Parser/Primary) and stmt (Parser/Stmt) call one another: a
--   call is a value of `Call`, a loop with the node made so far is one too, `step` is the body of
--   each, and `run` ties the knot. Parser/Program has define_function_or_gvar and program. A message
--   of error_at is modelled with its text alone, as an end of the run, also where error_at itself
--   goes on to read outside an object: through the null `str` of the end-of-file token, in the copy
--   of a string literal, and behind the NUL after an unclosed comment.
-- - Parser/Print has the text of an arithmetic expression, with a space behind each token, and its
--   tokens; Parser/Levels, Reads and Roundtrip read the tokens back, and Program/Arithmetic goes on
--   to the code. Parser/Declarator is about the declarators of local variables, Parser/Frame about
--   the places of scalar ones, and Parser/Function about a function `main` whose body is one
--   `return`. Parser/Undefined is about names that nothing declares. Parser/Leaves and its children
--   bound the tokens that each action leaves, by rules for the actions that it is made of, which is
--   how the fuel is found to be enough.
-- - Asm, Codegen, Codegen/Gen (codegen.c): the lines of assembly as data, and gen with a clause for
--   each case of its switch. The counter `labelidx` goes in and out. Where the source reads a field of
--   a null pointer the result is a fault; a name that does not fit the buffer `t` is one too.
-- - Codegen/Labels, Pieces, Shapes, Fresh: how the labels of the code are numbered. Codegen/Frame:
--   the room for variables.
-- - Machine and Machine/Word: a specification of the instructions that expressions are compiled to,
--   on 64-bit words and a memory of bytes. Codegen/Meaning is the semantics of expressions it is held
--   against, and Codegen/Runs, Addresses, Correct and Total prove the code right. Machine/Call adds the
--   lines about rsp and rbp, and the return from a function.
-- - Program (main.c): read_file, with `filename` and the text by the bytes of a file, and main, from the
--   tokens to the output, with the label counter from 0. The files are a parameter. What is printed
--   before an error is left out. Program/Ends, Labels and Places are about main, its labels and the
--   places in a text. Program/Spelled, Source, Instructions, Value and File follow one text through all
--   the phases, from a file to a call of the printed function. Program/Indices and Elements are
--   about the indices of an array.
-- - Tests: runs on small inputs.
--
-- Fuel. `scan` takes one unit a round and each round moves `p` by a byte or more wherever the text is
-- not stuck, so that the length of the text and one more is enough. `preprocess_from` takes one unit
-- for each definition and each token outside of one. A loop of a declaration takes one unit a round and
-- gets the number of the tokens that are left and one more, since each round takes a token. `run` takes
-- one unit for a call and gets 16 for each token left and 16 more: between two tokens that are taken
-- there are at most ten calls. gen and the lookups are by recursion on the trees and the lists, and take
-- none.
--
-- The processor. What is pushed is a list apart from the memory that the program's addresses reach, so
-- that a store through an address into the stack's own part is outside the model. The names and
-- literals have addresses that a `Layout` gives, as the assembler and linker would. Jumps and
-- calls are not run; Machine/Call runs a function up to its first `ret`, with rsp as an address below
-- `top` that does not wrap around. The theorems on runs are about expressions without calls. An expression in it
-- takes the address of a variable without a reference to a member, and assigns words, as gen does
-- whatever the type. `&&` and `||` are bitwise and compute both operands, and `!` is an exclusive or
-- with 1, as the code has them.
--
-- Not modelled: the calls of the standard library in read_file, which give the bytes of the file;
-- debug_print; the type that a function's node is given, which nothing reads; and the test programs and
-- scripts.
pub mod Base
pub mod Token
pub mod Node
pub mod Util
pub mod Report
pub mod Tokenizer
pub mod Cursor
pub mod Preprocessor
pub mod Container
pub mod Types
pub mod Parser
pub mod Asm
pub mod Codegen
pub mod Machine
pub mod Program
pub mod Tests
