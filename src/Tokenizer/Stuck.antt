-- ===== src/Tokenizer/Stuck.antt =====
-- The texts at which tokenize_until_end_char makes no headway.
use cc.Base.{
  ℕ, ◌≡◌, ◌≢◌, refl, Bool, true, false, ◌&&◌, ◌||◌, not, List, [], ◌∷◌, none, arith, if◌then◌else◌,
  ◌==◌, codes, Bool-cases, inl, inr, All, same_text, same_text_iff, ap, sym, and-true, ◌∙◌,
}
use mathlib.Core.Path.{subst}
use cc.Util.{starts_with}
use cc.Token.{TokenKind, indent, new_token}
use cc.Tokenizer.{
  made, is_space, is_digit, is_alnum, first_spelling, spellings, punctuators, contains, lex_word,
  lex_rest, spelled, lex_one,
}

-- A byte with which a token, a space or a comment may begin, whatever follows it, and the NUL.
abbrev pub can_start : ℕ → Bool
can_start c =
    c == 0 || is_space c || is_alnum c || contains punctuators c || contains (codes "!.\"'") c

-- No test of the loop fits the text: it begins with a byte that begins no token.
abbrev pub is_stuck : List ℕ → Bool
is_stuck [] = false
is_stuck (c ∷ p) = not (
    can_start c
    || starts_with (c ∷ p) (codes "||")
    || starts_with (c ∷ p) (codes "#include \"")
    || starts_with (c ∷ p) (codes "#include <")
    || starts_with (c ∷ p) (codes "#define "))

-- Where no test of the table passes, each word of it is missed.
pub first_spelling-none :
    (table : List (List ℕ × TokenKind × ℕ)) (p : List ℕ)
    → first_spelling table p ≡ none
    → All (λ e. starts_with p e.0 ≡ false) table
first_spelling-none [] p h = tt
first_spelling-none ((w, k, n) ∷ table) p h = elim (Bool-cases (starts_with p w)) [
  | inl e ↦ cc
  | inr e ↦ (e, first_spelling-none table p (rw e at h))
]

-- The words of the table begin with a byte that can start a token; but for one.
abbrev is_covered : List ℕ → Bool
is_covered [] = false
is_covered (d ∷ w) = can_start d || same_text (d ∷ w) (codes "||")

abbrev all_covered : List (List ℕ × TokenKind × ℕ) → Bool
all_covered [] = true
all_covered ((w, _, _) ∷ table) = is_covered w && all_covered table

starts_with_other : (c d : ℕ) (p w : List ℕ) → c ≢ d → starts_with (c ∷ p) (d ∷ w) ≡ false
starts_with_other c d p w h = ground arith

can_start_ne : (c d : ℕ) → can_start c ≡ false → can_start d ≡ true → c ≢ d
can_start_ne c d h k e = cc (ap can_start e)

or-right : (a b : Bool) → a ≡ false → (a || b) ≡ true → b ≡ true
or-right a b h k = ground arith

none_of :
    (a b c d e : Bool)
    → not (a || b || c || d || e) ≡ true
    → (a ≡ false) × (b ≡ false) × (c ≡ false) × (d ≡ false) × (e ≡ false)
none_of a b c d e h = ground arith

first_of_five :
    (a b c d e : Bool)
    → not (a || b || c || d || e) ≡ false
    → b ≡ false
    → c ≡ false
    → d ≡ false
    → e ≡ false
    → a ≡ true
first_of_five a b c d e h p q r s = ground arith

left_of_four :
    (z s a q x b d u v : Bool)
    → (z || s || a || q || (b || (d || (u || (v || x))))) ≡ true
    → z ≡ false
    → s ≡ false
    → q ≡ false
    → x ≡ false
    → (b && true) ≡ false
    → (d && true) ≡ false
    → (u && true) ≡ false
    → (v && true) ≡ false
    → a ≡ true
left_of_four z s a q x b d u v h o p r y i j k l = ground arith

covered_missed :
    (c : ℕ) (p w : List ℕ)
    → can_start c ≡ false
    → starts_with (c ∷ p) (codes "||") ≡ false
    → is_covered w ≡ true
    → starts_with (c ∷ p) w ≡ false
covered_missed c p [] h bar cov = cc
covered_missed c p (d ∷ w) h bar cov = elim (Bool-cases (can_start d)) [
  | inl e ↦ starts_with_other c d p w (can_start_ne c d h e)
  | inr e ↦
      let bars = (same_text_iff (d ∷ w) (codes "||")).0 (or-right (can_start d) _ e cov) in
      subst (λ v. starts_with (c ∷ p) v ≡ false) (sym bars) bar
]

all_missed :
    (c : ℕ) (p : List ℕ) (table : List (List ℕ × TokenKind × ℕ))
    → can_start c ≡ false
    → starts_with (c ∷ p) (codes "||") ≡ false
    → all_covered table ≡ true
    → first_spelling table (c ∷ p) ≡ none
all_missed c p [] h bar cov = refl
all_missed c p ((w, k, n) ∷ table) h bar cov =
    let (cw, ct) = and-true (is_covered w) (all_covered table) cov in
    rw (covered_missed c p w h bar cw) (all_missed c p table h bar ct)

-- What a stuck text is not.
stuck_parts :
    (c : ℕ) (p : List ℕ)
    → is_stuck (c ∷ p) ≡ true
    → (can_start c ≡ false)
      × (starts_with (c ∷ p) (codes "||") ≡ false)
      × (starts_with (c ∷ p) (codes "#include \"") ≡ false)
      × (starts_with (c ∷ p) (codes "#include <") ≡ false)
      × (starts_with (c ∷ p) (codes "#define ") ≡ false)
stuck_parts c p h = none_of (can_start c) _ _ _ _ h

-- What a text that is not stuck may be.
pub free_parts :
    (c : ℕ) (p : List ℕ)
    → is_stuck (c ∷ p) ≡ false
    → starts_with (c ∷ p) (codes "||") ≡ false
    → starts_with (c ∷ p) (codes "#include \"") ≡ false
    → starts_with (c ∷ p) (codes "#include <") ≡ false
    → starts_with (c ∷ p) (codes "#define ") ≡ false
    → can_start c ≡ true
free_parts c p = first_of_five (can_start c) _ _ _ _

-- With no other start left, the byte is one of a word.
pub start_of_word :
    (c : ℕ) (p : List ℕ)
    → can_start c ≡ true
    → (c == 0) ≡ false
    → is_space c ≡ false
    → contains punctuators c ≡ false
    → starts_with (c ∷ p) (codes "!") ≡ false
    → starts_with (c ∷ p) (codes ".") ≡ false
    → starts_with (c ∷ p) (codes "\"") ≡ false
    → starts_with (c ∷ p) (codes "'") ≡ false
    → is_alnum c ≡ true
start_of_word c p h z s q a b d e =
    left_of_four _ (is_space c) (is_alnum c) _ false _ _ _ _ h z s q refl a b d e

-- What a byte that cannot start anything is not.
none_of_class :
    (z s a q r : Bool)
    → (z || s || a || q || r) ≡ false
    → (z ≡ false) × (s ≡ false) × (a ≡ false) × (q ≡ false)
none_of_class z s a q r h = ground arith

class_parts :
    (c : ℕ)
    → can_start c ≡ false
    → ((c == 0) ≡ false)
      × (is_space c ≡ false)
      × (is_alnum c ≡ false)
      × (contains punctuators c ≡ false)
class_parts c h = none_of_class (c == 0) (is_space c) (is_alnum c) (contains punctuators c) _ h

not_digit : (c : ℕ) → is_alnum c ≡ false → is_digit c ≡ false
not_digit c h = ground arith

if_false {ℓ} : {A : Type ℓ} (b : Bool) (x y : A) → b ≡ false → (if b then x else y) ≡ y
if_false b x y h = rw h

missed :
    (c d : ℕ) (p w : List ℕ)
    → can_start c ≡ false
    → can_start d ≡ true
    → starts_with (c ∷ p) (d ∷ w) ≡ false
missed c d p w h k = starts_with_other c d p w (can_start_ne c d h k)

lex_rest-stuck :
    (c : ℕ) (p : List ℕ)
    → can_start c ≡ false
    → lex_rest (c ∷ p) ≡ made (new_token indent (c ∷ p) 0) 0
unfolding lex_rest lex_word
lex_rest-stuck c p h =
    let (z, s, a, q) = class_parts c h in
    if_false (starts_with (c ∷ p) (codes "//")) _ _ (missed c b'/' p (codes "/") h refl)
    ∙ if_false (starts_with (c ∷ p) (codes "/*")) _ _ (missed c b'/' p (codes "*") h refl)
    ∙ if_false (starts_with (c ∷ p) (codes "\"")) _ _ (missed c b'"' p [] h refl)
    ∙ if_false (starts_with (c ∷ p) (codes "'")) _ _ (missed c 39 p [] h refl)
    ∙ if_false (c == 0) _ _ z
    ∙ if_false (contains punctuators c) _ _ q
    ∙ if_false (is_digit c) _ _ (not_digit c a)
    ∙ ap (λ n. made (new_token indent (c ∷ p) n) n) (if_false (is_alnum c) _ _ a)

-- A stuck text is made into a token of no bytes, and the round begins again where it stood.
pub lex_one-stuck : (p : List ℕ) → is_stuck p ≡ true → lex_one p ≡ made (new_token indent p 0) 0
unfolding lex_one spelled
lex_one-stuck [] h = cc
lex_one-stuck (c ∷ p) h =
    let (start, bar, inc, sys, def) = stuck_parts c p h in
    let (z, s, a, q) = class_parts c start in
    if_false (is_space c) _ _ s
    ∙ if_false (starts_with (c ∷ p) (codes "#include \"")) _ _ inc
    ∙ if_false (starts_with (c ∷ p) (codes "#include <")) _ _ sys
    ∙ if_false (starts_with (c ∷ p) (codes "#define ")) _ _ def
    ∙ ap (λ o. spelled o (c ∷ p)) (all_missed c p spellings start bar refl)
    ∙ lex_rest-stuck c p start
