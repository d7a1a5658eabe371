-- ===== src/Tokenizer.antt =====
-- tokenizer.c: is_alnum, exclude_double_quote, tokenize_until_end_char and tokenize.
-- One round of the loop is `lex_one`, which reads the text at `p` and says by how much `p` moves;
-- `scan` is the loop, on fuel.
pub mod Lengths
pub mod Stuck
pub mod Stops
pub mod Progress
pub mod Scan
pub mod Termination
pub mod Lexes
pub mod Numbers
use cc.Base.{
  ℕ, zero, suc, ◌+◌, ◌-◌, ◌*◌, ◌%◌, ◌^◌, Bool, true, false, ◌&&◌, ◌||◌, List, [], ◌∷◌, Option, none,
  some, ◌==◌, leb, ltb, if◌then◌else◌, take, drop, length, codes,
}
use Prim.Native.Nat.{min}
use cc.Base.Int.{ℤ, pos, negsuc}
use cc.Base.CInt.{to_int}
use cc.Base.Outcome.{Failure, exits, fault, comment_not_closed, expected_quote}
use cc.Token.{
  TokenKind, reserved, indent, num, return_kw, while_kw, if_kw, else_kw, for_kw, int_kw, sizeof_kw,
  char_kw, str, lt_char, struct_kw, typedef_kw, enum_kw, true_kw, false_kw, bool_kw, void_kw,
  define, Token, new_token,
}
use cc.Util.{starts_with, first_byte}

-- isspace and isdigit of the C locale.
abbrev pub is_space : ℕ → Bool
is_space c = c == 32 || (leb 9 c && leb c 13)

abbrev pub is_digit : ℕ → Bool
is_digit c = leb b'0' c && leb c b'9'

abbrev pub is_alnum : ℕ → Bool
is_alnum c = (leb b'a' c && leb c b'z') || (leb b'A' c && leb c b'Z') || is_digit c || c == b'_'

-- A loop that moves `p` on by one until a test passes: the distance from here, given the test's
-- value here and the distance from the next byte.
abbrev pub nearer : Bool → Option ℕ → Option ℕ
nearer true rest = some 0
nearer false none = none
nearer false (some n) = some (suc n)

-- The distance to the first `c`, if there is one.
abbrev pub find_byte : ℕ → List ℕ → Option ℕ
find_byte c [] = none
find_byte c (d ∷ p) = let rest = find_byte c p in nearer (d == c) rest

-- The distance to the first `*/`, if there is one.
abbrev pub find_close : List ℕ → Option ℕ
find_close [] = none
find_close (d ∷ p) = let rest = find_close p in nearer (starts_with (d ∷ p) (codes "*/")) rest

-- The bytes that an escaped quote at `p` makes the loop below pass over, beside the first.
abbrev pub escape_skip : List ℕ → ℕ
escape_skip p = if starts_with p (codes "\\\"") then 2 else 0

-- The loop that measures a string literal; `skip` bytes are passed over unread. Where an escaped
-- quote stands, `p` moves by 2 in the `if` and by 1 after it. `none` is a run off the text.
abbrev pub string_len : ℕ → List ℕ → Option ℕ
string_len skip [] = none
string_len (suc skip) (c ∷ p) = nearer false (string_len skip p)
string_len zero (c ∷ p) = let rest = string_len (escape_skip (c ∷ p)) p in nearer (c == b'"') rest

-- The copy of a literal of `n` bytes from `p`, less the backslash of each `\"`. (The source is
-- given the end of the literal and counts back to its start.)
abbrev pub exclude_double_quote : List ℕ → ℕ → List ℕ
exclude_double_quote p zero = []
exclude_double_quote [] (suc n) = []
exclude_double_quote (c ∷ p) (suc n) =
    let rest = exclude_double_quote p n in
    if starts_with (c ∷ p) (codes "\\\"") then rest else c ∷ rest

-- The length of the run of letters, digits and underscores.
abbrev pub word_len : List ℕ → ℕ
word_len [] = 0
word_len (c ∷ p) = let rest = word_len p in if is_alnum c then suc rest else 0

-- strtol: the length of the run of digits, and its value from `acc` on.
abbrev pub number_len : List ℕ → ℕ
number_len [] = 0
number_len (c ∷ p) = let rest = number_len p in if is_digit c then suc rest else 0

abbrev pub number_value : ℕ → List ℕ → ℕ
number_value acc [] = acc
number_value acc (c ∷ p) =
    let rest = number_value (acc * 10 + (c - b'0')) p in if is_digit c then rest else acc

-- `strtol` stops at LONG_MAX.
abbrev pub strtol : List ℕ → ℕ
strtol p = min (number_value 0 p) (2 ^ 63 - 1)

-- The tests from `typedef ` to `void*`, in the order of the source: what the text must begin with,
-- the kind of token that is made then, and its length.
abbrev pub spellings : List (List ℕ × TokenKind × ℕ)
spellings =
    (codes "typedef ", typedef_kw, 7)
    ∷ (codes "enum ", enum_kw, 4)
    ∷ (codes "true;", true_kw, 4)
    ∷ (codes "true ", true_kw, 4)
    ∷ (codes "false;", false_kw, 5)
    ∷ (codes "false ", false_kw, 5)
    ∷ (codes "==", reserved, 2)
    ∷ (codes "!=", reserved, 2)
    ∷ (codes "<=", reserved, 2)
    ∷ (codes ">=", reserved, 2)
    ∷ (codes "&&", reserved, 2)
    ∷ (codes "||", reserved, 2)
    ∷ (codes "!", reserved, 1)
    ∷ (codes ".", reserved, 1)
    ∷ (codes "->", reserved, 2)
    ∷ (codes "struct ", struct_kw, 6)
    ∷ (codes "struct{", struct_kw, 6)
    ∷ (codes "sizeof ", sizeof_kw, 6)
    ∷ (codes "sizeof(", sizeof_kw, 6)
    ∷ (codes "for ", for_kw, 3)
    ∷ (codes "for(", for_kw, 3)
    ∷ (codes "if ", if_kw, 2)
    ∷ (codes "if(", if_kw, 2)
    ∷ (codes "else ", else_kw, 4)
    ∷ (codes "while ", while_kw, 5)
    ∷ (codes "while(", while_kw, 5)
    ∷ (codes "return ", return_kw, 6)
    ∷ (codes "return;", return_kw, 6)
    ∷ (codes "int ", int_kw, 3)
    ∷ (codes "char ", char_kw, 4)
    ∷ (codes "bool ", bool_kw, 4)
    ∷ (codes "void ", void_kw, 4)
    ∷ (codes "void)", void_kw, 4)
    ∷ (codes "void*", void_kw, 4)
    ∷ []

-- The first test of a table that the text passes.
abbrev pub first_spelling : List (List ℕ × TokenKind × ℕ) → List ℕ → Option (TokenKind × ℕ)
first_spelling [] p = none
first_spelling ((word, kind, len) ∷ rest) p =
    if starts_with p word then some (kind, len) else first_spelling rest p

-- `strchr(punctuators, c)`, for a `c` that is not the NUL.
abbrev pub punctuators : List ℕ
punctuators = codes "+-*/)(<>=;{},&[]%"

abbrev pub contains : List ℕ → ℕ → Bool
contains [] c = false
contains (d ∷ s) c = c == d || contains s c

-- What one round does: move `p` on, make a token and move on, open a `#define`, or not end.
pub data Lexed : Type 0 where
  skipped : ℕ → Lexed
  made : Token → ℕ → Lexed
  defines : Token → ℕ → Lexed
  stopped : Failure → Lexed

-- Go on with a distance that a loop found; without one the loop ended as the failure says.
abbrev pub reach : Option ℕ → Failure → (ℕ → Lexed) → Lexed
reach none e k = stopped e
reach (some n) e k = k n

-- `// …`: up to the newline. `/* … */`: past its end.
lex_line_comment : List ℕ → Lexed
lex_line_comment p = reach (find_byte 10 (drop 2 p)) fault (λ n. skipped (2 + n))

lex_block_comment : List ℕ → Lexed
lex_block_comment p =
    reach (find_close (drop 2 p)) (exits comment_not_closed) (λ n. skipped (4 + n))

-- `#include "…"` and `#include <…>`: past the closing character.
lex_include : ℕ → List ℕ → Lexed
lex_include close p = reach (find_byte close (drop 10 p)) fault (λ n. skipped (11 + n))

lex_string : List ℕ → Lexed
lex_string p = reach (string_len 0 (drop 1 p)) fault (λ n.
    let text = exclude_double_quote (drop 1 p) n in made (new_token str text (length text)) (2 + n))

-- The byte after the quote is the token, whatever it is.
lex_char : List ℕ → Lexed
lex_char p = elim (drop 1 p) [
  | [] ↦ stopped fault
  | c ∷ q ↦
      if starts_with q (codes "'")
      then made (new_token lt_char (c ∷ q) 1) 3
      else stopped (exits expected_quote)
]

lex_number : List ℕ → Lexed
lex_number p =
    made (record { kind = num; val = to_int (strtol p); str = p; len = number_len p })
      (number_len p)

lex_word : List ℕ → Lexed
lex_word p = made (new_token indent p (word_len p)) (word_len p)

-- The tests after the table. The NUL is found by `strchr` too, and `p` then leaves the text.
unfoldable pub lex_rest : List ℕ → Lexed
unfolding lex_line_comment lex_block_comment lex_string lex_char lex_number lex_word
lex_rest p =
    if starts_with p (codes "//")
    then lex_line_comment p
    else if starts_with p (codes "/*")
    then lex_block_comment p
    else if starts_with p (codes "\"")
    then lex_string p
    else if starts_with p (codes "'")
    then lex_char p
    else if first_byte p == 0
    then stopped fault
    else if contains punctuators (first_byte p)
    then made (new_token reserved p 1) 1
    else if is_digit (first_byte p)
    then lex_number p
    else lex_word p

-- The token of a spelling that fits.
spelled : Option (TokenKind × ℕ) → List ℕ → Lexed
spelled none p = lex_rest p
spelled (some (kind, len)) p = made (new_token kind p len) len

-- One round of the loop of tokenize_until_end_char.
unfoldable pub lex_one : List ℕ → Lexed
unfolding lex_include spelled
lex_one p =
    if is_space (first_byte p)
    then skipped 1
    else if starts_with p (codes "#include \"")
    then lex_include b'"' p
    else if starts_with p (codes "#include <")
    then lex_include b'>' p
    else if starts_with p (codes "#define ")
    then defines (new_token define p 8) 8
    else spelled (first_spelling spellings p) p
