-- ===== src/Tokenizer/Progress.antt =====
-- One round of tokenize_until_end_char: it stays within the text, and moves on unless it is stuck.
use cc.Base.{
  ℕ, ◌≤◌, ◌<◌, ◌≡◌, ◌≢◌, refl, Bool, true, false, List, [], ◌∷◌, Option, none, some, arith, length,
  if◌then◌else◌, ◌==◌, codes, Bool-cases, inl, inr, drop, length-drop, All, ==_iff,
}
use cc.Base.Outcome.{Failure, fault}
use cc.Util.{starts_with, first_byte}
use cc.Token.{TokenKind}
use cc.Tokenizer.{
  Lexed, skipped, made, defines, stopped, is_space, is_digit, is_alnum, word_len, number_len,
  first_spelling, spellings, punctuators, contains, find_byte, find_close, string_len, reach,
  lex_line_comment, lex_block_comment, lex_include, lex_string, lex_char, lex_number, lex_word,
  lex_rest, spelled, lex_one,
}
use cc.Tokenizer.Stuck.{is_stuck, free_parts, start_of_word, first_spelling-none}
use cc.Tokenizer.Stops.{
  Stops, open_include, open_system_include, open_line_comment, open_block_comment, open_string,
  lone_quote, long_char, at_nul, find_byte-none, find_close-none, string_len-none,
}
use cc.Tokenizer.Lengths.{
  length-starts_with, find_byte-lt, find_close-lt, string_len-lt, word_len-le, number_len-le,
}

-- A round keeps within the text, its token too, and it moves on by at least `least` bytes; or it
-- fails, for a reason that stands in the text.
abbrev pub Within : ℕ → List ℕ → Lexed → Type 0
Within least p (skipped n) = (least ≤ n) × (n ≤ length p)
Within least p (made t n) = (least ≤ n) × (n ≤ length p) × (t.len ≤ length t.str)
Within least p (defines t n) = (least ≤ n) × (n ≤ length p) × (t.len ≤ length t.str)
Within least p (stopped e) = Stops p e

reach-Within :
    (least : ℕ) (p : List ℕ) (found : Option ℕ) (e : Failure) (k : ℕ → Lexed)
    → (found ≡ none → Stops p e)
    → ((n : ℕ) → found ≡ some n → Within least p (k n))
    → Within least p (reach found e k)
reach-Within least p none e k stops h = stops refl
reach-Within least p (some n) e k stops h = h n refl

if-Within :
    (least : ℕ) (p : List ℕ) (b : Bool) (x y : Lexed)
    → (b ≡ true → Within least p x)
    → (b ≡ false → Within least p y)
    → Within least p (if b then x else y)
if-Within least p true x y h k = h refl
if-Within least p false x y h k = k refl

lex_include-Within :
    (c : ℕ) (p : List ℕ)
    → (All (λ d. d ≢ c) (drop 10 p) → Stops p fault)
    → Within 1 p (lex_include c p)
unfolding lex_include
lex_include-Within c p stops =
    reach-Within 1 p (find_byte c (drop 10 p)) _ _ (λ e. stops (find_byte-none c (drop 10 p) e))
      λ n e. omega (arith, find_byte-lt c (drop 10 p) e, length-drop 10 p)

lex_line_comment-Within :
    (p : List ℕ) → starts_with p (codes "//") ≡ true → Within 1 p (lex_line_comment p)
unfolding lex_line_comment
lex_line_comment-Within p start =
    reach-Within 1 p (find_byte 10 (drop 2 p)) _ _
      (λ e. open_line_comment p start (find_byte-none 10 (drop 2 p) e))
      λ n e. omega (arith, find_byte-lt 10 (drop 2 p) e, length-drop 2 p)

lex_block_comment-Within :
    (p : List ℕ) → starts_with p (codes "/*") ≡ true → Within 1 p (lex_block_comment p)
unfolding lex_block_comment
lex_block_comment-Within p start =
    reach-Within 1 p (find_close (drop 2 p)) _ _
      (λ e. open_block_comment p start (find_close-none (drop 2 p) e))
      λ n e. omega (arith, find_close-lt (drop 2 p) e, length-drop 2 p)

lex_string-Within : (p : List ℕ) → starts_with p (codes "\"") ≡ true → Within 1 p (lex_string p)
unfolding lex_string
lex_string-Within p start =
    reach-Within 1 p (string_len 0 (drop 1 p)) _ _
      (λ e. open_string p start (string_len-none 0 (drop 1 p) e))
      λ n e. omega (arith, string_len-lt 0 (drop 1 p) e, length-drop 1 p)

lex_char-Within : (p : List ℕ) → starts_with p (codes "'") ≡ true → Within 1 p (lex_char p)
unfolding lex_char
lex_char-Within [] start = lone_quote [] start (omega arith)
lex_char-Within (d ∷ []) start = lone_quote (d ∷ []) start (omega arith)
lex_char-Within (d ∷ c ∷ q) start =
    if-Within 1 (d ∷ c ∷ q) (starts_with q (codes "'")) _ _
      (λ e. omega (arith, length-starts_with q (codes "'") e))
      (λ e. long_char (d ∷ c ∷ q) start (omega arith) e)

-- A digit, or a byte of a word, makes the token one byte long at least.
number_len_pos : (p : List ℕ) → is_digit (first_byte p) ≡ true → 0 < number_len p
number_len_pos [] h = cc
number_len_pos (c ∷ p) h = rw h (omega arith)

word_len_pos : (p : List ℕ) → is_alnum (first_byte p) ≡ true → 0 < word_len p
word_len_pos [] h = cc
word_len_pos (c ∷ p) h = rw h (omega arith)

Within-weaken : (l : ℕ) (p : List ℕ) (x : Lexed) → l ≤ 1 → Within 1 p x → Within l p x
Within-weaken l p (skipped n) h w = omega arith
Within-weaken l p (made t n) h w = omega arith
Within-weaken l p (defines t n) h w = omega arith
Within-weaken l p (stopped e) h w = w

first_byte_pos : (p : List ℕ) → (first_byte p == 0) ≡ false → 1 ≤ length p
first_byte_pos [] h = cc
first_byte_pos (c ∷ p) h = omega arith

space_pos : (p : List ℕ) → is_space (first_byte p) ≡ true → 1 ≤ length p
space_pos [] h = cc
space_pos (c ∷ p) h = omega arith

-- A table's tokens are no longer than the words, and not empty.
abbrev AllFit : List (List ℕ × TokenKind × ℕ) → Type 0
AllFit [] = Unit
AllFit ((w, k, n) ∷ table) = (1 ≤ n) × (n ≤ length w) × AllFit table

module _ (l : ℕ) (p : List ℕ) (l_le : l ≤ 1) where
  lex_rest-Within :
      ((first_byte p == 0) ≡ false
        → contains punctuators (first_byte p) ≡ false
        → starts_with p (codes "\"") ≡ false
        → starts_with p (codes "'") ≡ false
        → l ≤ word_len p)
      → Within l p (lex_rest p)
  unfolding lex_rest lex_number lex_word
  lex_rest-Within word =
      if-Within l p (starts_with p (codes "//")) _ _
        (λ e. Within-weaken l p _ l_le (lex_line_comment-Within p e))
        λ _.
          if-Within l p (starts_with p (codes "/*")) _ _
            (λ e. Within-weaken l p _ l_le (lex_block_comment-Within p e))
            λ _.
              if-Within l p (starts_with p (codes "\"")) _ _
                (λ e. Within-weaken l p _ l_le (lex_string-Within p e))
                λ string.
                  if-Within l p (starts_with p (codes "'")) _ _
                    (λ e. Within-weaken l p _ l_le (lex_char-Within p e))
                    λ char.
                      if-Within l p (first_byte p == 0) _ _ (λ e. at_nul p ((==_iff _ _).0 e))
                        λ nul.
                          if-Within l p (contains punctuators (first_byte p)) _ _
                            (λ _. omega (arith, first_byte_pos p nul))
                            λ punct.
                              if-Within l p (is_digit (first_byte p)) _ _
                                (λ d. omega (arith, number_len_pos p d, number_len-le p))
                                λ _. omega (arith, word nul punct string char, word_len-le p)

  spelled-Within :
      (table : List (List ℕ × TokenKind × ℕ))
      → AllFit table
      → (first_spelling table p ≡ none → Within l p (lex_rest p))
      → Within l p (spelled (first_spelling table p) p)
  unfolding spelled
  spelled-Within [] fit h = h refl
  spelled-Within ((w, k, n) ∷ table) (pos_n, n_le, fit) h = elim (Bool-cases (starts_with p w)) [
    | inl e ↦ rw e (omega (arith, length-starts_with p w e))
    | inr e ↦ rw e (spelled-Within table fit (λ q. h (rw e q)))
  ]

  -- Every round keeps within the text, if the words that it reads do.
  round-Within :
      (is_space (first_byte p) ≡ false
        → starts_with p (codes "#include \"") ≡ false
        → starts_with p (codes "#include <") ≡ false
        → starts_with p (codes "#define ") ≡ false
        → first_spelling spellings p ≡ none
        → Within l p (lex_rest p))
      → Within l p (lex_one p)
  unfolding lex_one
  round-Within h =
      if-Within l p (is_space (first_byte p)) _ _ (λ e. omega (arith, space_pos p e))
        λ space.
          if-Within l p (starts_with p (codes "#include \"")) _ _
            (λ e. Within-weaken l p _ l_le (lex_include-Within b'"' p (λ h. open_include p e h)))
            λ inc.
              if-Within l p (starts_with p (codes "#include <")) _ _
                (λ e.
                  Within-weaken l p _ l_le
                    (lex_include-Within b'>' p (λ h. open_system_include p e h)))
                λ sys.
                  if-Within l p (starts_with p (codes "#define ")) _ _
                    (λ e. omega (arith, length-starts_with p (codes "#define ") e))
                    λ def. spelled-Within spellings (omega arith) (h space inc sys def)

-- The tests of the table on `||`, `!` and `.` are its 12th to 14th.
abbrev Missed : List ℕ → Type 0
Missed p = All (λ (e : List ℕ × TokenKind × ℕ). starts_with p e.0 ≡ false) spellings

bars : (p : List ℕ) → Missed p → starts_with p (codes "||") ≡ false
bars p h = h.1.1.1.1.1.1.1.1.1.1.1.0

bang : (p : List ℕ) → Missed p → starts_with p (codes "!") ≡ false
bang p h = h.1.1.1.1.1.1.1.1.1.1.1.1.0

dot : (p : List ℕ) → Missed p → starts_with p (codes ".") ≡ false
dot p h = h.1.1.1.1.1.1.1.1.1.1.1.1.1.0

-- Where the text is not stuck, a round moves on, by a byte at least and by no more bytes than the text has,
-- with a token that lies in its own text if it makes one, or it fails for what stands in the text: an error
-- at an unclosed block comment or character literal, or a read behind the text at its end, after a lone
-- quote, or where an `#include`, a line comment or a string literal has no end.
pub lex_one-progress : (p : List ℕ) → is_stuck p ≡ false → Within 1 p (lex_one p)
lex_one-progress [] h =
    round-Within 1 [] (omega arith) λ _ _ _ _ _. lex_rest-Within 1 [] (omega arith) λ nul _ _ _. cc
lex_one-progress (c ∷ p) h = round-Within 1 (c ∷ p) (omega arith) λ space inc sys def no_word.
    lex_rest-Within 1 (c ∷ p) (omega arith) λ nul punct string char.
      let missed = first_spelling-none spellings (c ∷ p) no_word in
      let start = free_parts c p h (bars (c ∷ p) missed) inc sys def in
      word_len_pos (c ∷ p) (
        start_of_word c p start nul space punct (bang (c ∷ p) missed) (dot (c ∷ p) missed) string
          char)
