-- ===== src/Report/Place.antt =====
-- The line that error_at reports is the one that the place stands in.
use cc.Base.{
  ℕ, zero, suc, ◌+◌, ◌-◌, ◌≤◌, ◌≡◌, refl, true, false, List, [], ◌∷◌, some, none, arith, ◌==◌,
  if◌then◌else◌, take, drop, Bool-cases, inl, inr, Option, Bool, ap, sym, ◌∙◌, ◌++◌, ◌⊎◌, ==_iff,
  append_assoc, length, length-take, length-drop,
}
use cc.Base.Outcome.{ok}
use cc.Util.{first_byte}
use cc.Tokenizer.{find_byte, nearer}
use cc.Tokenizer.Lengths.{nearer-inv, find_byte-lt}
use cc.Report.{Report, line_start, newlines, error_at}

newlines-take-suc :
    (k : ℕ) (text : List ℕ)
    → newlines (take (suc k) text)
      ≡ newlines (take k text) + (if first_byte (drop k text) == 10 then 1 else 0)
newlines-take-suc zero [] = omega arith
newlines-take-suc zero (c ∷ text) = ground arith
newlines-take-suc (suc k) [] = omega arith
newlines-take-suc (suc k) (c ∷ text) = ground (arith, newlines-take-suc k text)

zero_add : (m : ℕ) → 0 + m ≡ m
zero_add m = omega arith

suc_add : (a b : ℕ) → suc a + b ≡ suc (a + b)
suc_add a b = omega arith

take-nil : (n : ℕ) → take {A = ℕ} n [] ≡ []
take-nil zero = refl
take-nil (suc n) = refl

drop-nil : (n : ℕ) → drop {A = ℕ} n [] ≡ []
drop-nil zero = refl
drop-nil (suc n) = refl

newlines-take-add :
    (l m : ℕ) (text : List ℕ)
    → newlines (take (l + m) text) ≡ newlines (take l text) + newlines (take m (drop l text))
newlines-take-add zero m text = ap (λ k. newlines (take k text)) (zero_add m) ∙ sym (zero_add _)
newlines-take-add (suc l) m [] = rw (take-nil (suc l + m), take-nil m) (omega arith)
newlines-take-add (suc l) m (c ∷ text) =
    rw (suc_add l m) (ground (arith, newlines-take-add l m text))

newlines-find_byte : (p : List ℕ) (n : ℕ) → find_byte 10 p ≡ some n → newlines (take n p) ≡ 0
newlines-find_byte [] n h = cc
newlines-find_byte (c ∷ p) n h =
    found n (c == 10) (find_byte 10 p) refl refl h (newlines-find_byte p)
  where
    found :
        (n : ℕ) (b : Bool) (o : Option ℕ)
        → (c == 10) ≡ b
        → find_byte 10 p ≡ o
        → nearer b o ≡ some n
        → ((k : ℕ) → find_byte 10 p ≡ some k → newlines (take k p) ≡ 0)
        → newlines (take n (c ∷ p)) ≡ 0
    found zero b o e d h ih = refl
    found (suc n) true o e d h ih = cc
    found (suc n) false none e d h ih = cc
    found (suc n) false (some k) e d h ih = let same : k ≡ n = cc in rw e (ih n (d ∙ ap some same))

line_start-le : (text : List ℕ) (loc : ℕ) → line_start text loc ≤ loc
unfolding line_start
line_start-le text zero = omega arith
line_start-le text (suc k) = ground (arith, line_start-le text k)

no_newline : (c : ℕ) → (c == 10) ≡ false → (let one : ℕ = 1 in if c == 10 then one else 0) ≡ 0
no_newline c e = rw e refl

newlines-line_start :
    (text : List ℕ) (loc : ℕ)
    → newlines (take (line_start text loc) text) ≡ newlines (take loc text)
unfolding line_start
newlines-line_start text zero = refl
newlines-line_start text (suc k) = elim (Bool-cases (first_byte (drop k text) == 10)) [
  | inl e ↦ rw e refl
  | inr e ↦
      rw e (newlines-line_start text k ∙ omega (arith, newlines-take-suc k text, no_newline _ e))
]

drop-drop : (a b : ℕ) (p : List ℕ) → drop a (drop b p) ≡ drop (b + a) p
drop-drop a zero p = ap (λ k. drop k p) (sym (zero_add a))
drop-drop a (suc b) [] = rw (drop-nil a, drop-nil (suc b + a)) refl
drop-drop a (suc b) (c ∷ p) = rw (suc_add b a) (drop-drop a b p)

line-newlines :
    (s m loc n : ℕ) (text : List ℕ)
    → s + m ≡ loc + n
    → newlines (take s text) ≡ newlines (take loc text)
    → newlines (take n (drop loc text)) ≡ 0
    → newlines (take m (drop s text)) ≡ 0
line-newlines s m loc n text e same none_left =
    let total : newlines (take (s + m) text) ≡ newlines (take (loc + n) text) =
      ap (λ k. newlines (take k text)) e in
    omega (arith, newlines-take-add s m text, newlines-take-add loc n text)

take-drop : (n : ℕ) (p : List ℕ) → take n p ++ drop n p ≡ p
take-drop zero p = refl
take-drop (suc n) [] = refl
take-drop (suc n) (c ∷ p) = ap (λ q. c ∷ q) (take-drop n p)

-- The newline that was found, and what is behind it.
find_byte-drop :
    (c : ℕ) (p : List ℕ) (n : ℕ)
    → find_byte c p ≡ some n
    → (after : List ℕ) × (drop n p ≡ c ∷ after)
find_byte-drop c [] n h = cc
find_byte-drop c (d ∷ p) n h = elim (nearer-inv (d == c) (find_byte c p) h) [
  | inl (e, z) ↦ (p, rw z (ap (λ (b : ℕ). b ∷ p) ((==_iff d c).0 e)))
  | inr (m, e, z) ↦ let (after, rest) = find_byte-drop c p m e in (after, rw z rest)
]

-- What stands before a line: nothing, or a text that ends with a newline.
abbrev pub IsLineStart : List ℕ → Type 0
IsLineStart before = (before ≡ []) ⊎ ((above : List ℕ) × (before ≡ above ++ 10 ∷ []))

take-newline :
    (k : ℕ) (text : List ℕ)
    → first_byte (drop k text) ≡ 10
    → take (suc k) text ≡ take k text ++ 10 ∷ []
take-newline zero [] h = cc
take-newline zero (c ∷ text) h = rw h refl
take-newline (suc k) [] h = cc
take-newline (suc k) (c ∷ text) h = ap (λ q. c ∷ q) (take-newline k text h)

line_start-IsLineStart : (text : List ℕ) (loc : ℕ) → IsLineStart (take (line_start text loc) text)
unfolding line_start
line_start-IsLineStart text zero = inl refl
line_start-IsLineStart text (suc k) = elim (Bool-cases (first_byte (drop k text) == 10)) [
  | inl e ↦ rw e (inr (take k text, take-newline k text ((==_iff _ _).0 e)))
  | inr e ↦ rw e (line_start-IsLineStart text k)
]

-- The text is cut at the line's start and at the newline behind it.
line-text :
    (s loc n : ℕ) (text after : List ℕ)
    → s ≤ loc
    → drop n (drop loc text) ≡ 10 ∷ after
    → text ≡ take s text ++ take (loc + n - s) (drop s text) ++ 10 ∷ after
line-text s loc n text after le h =
    let size : s + (loc + n - s) ≡ loc + n = omega arith in
    let behind : drop (loc + n - s) (drop s text) ≡ 10 ∷ after =
      drop-drop (loc + n - s) s text
      ∙ ap (λ k. drop k text) size
      ∙ sym (drop-drop n loc text)
      ∙ h in
    let line = take (loc + n - s) (drop s text) in
    sym (
      append_assoc (take s text) line (10 ∷ after)
      ∙ ap (λ q. take s text ++ (line ++ q)) (sym behind)
      ∙ ap (λ q. take s text ++ q) (take-drop (loc + n - s) (drop s text))
      ∙ take-drop s text)

-- The place stands at the column of the line that begins behind `before`, which ends at `after`.
abbrev pub Reports : List ℕ → ℕ → Report → Type 0
Reports text loc r =
    (before : List ℕ) × (after : List ℕ) × (text ≡ before ++ r.line ++ 10 ∷ after)
    × IsLineStart before
    × (newlines r.line ≡ 0)
    × (length before + r.column ≡ loc)
    × (r.column ≤ length r.line)
    × (r.line_num ≡ suc (newlines before))

-- Where a newline follows the place, error_at succeeds: the text is what stands before a line, the line
-- that it gives, a newline and what is behind it. What stands before the line is nothing or ends with a
-- newline, and the line has none, so that it is the whole line; its number is one more than the newlines
-- before it, and the place stands in it, or at its end, at the column that is given.
pub error_at-place :
    (text : List ℕ) (loc n : ℕ)
    → find_byte 10 (drop loc text) ≡ some n
    → (r : Report) × (error_at text loc ≡ ok r) × Reports text loc r
unfolding error_at
error_at-place text loc n h =
    let start = line_start text loc in
    let le = line_start-le text loc in
    let (after, found) = find_byte-drop 10 (drop loc text) n h in
    let room = find_byte-lt 10 (drop loc text) h in
    (
      record {
        line_num = suc (newlines (take start text));
        line = take (loc + n - start) (drop start text);
        column = loc - start;
      },
      rw (h, error_at) refl,
      (
        take start text,
        after,
        line-text start loc n text after le found,
        line_start-IsLineStart text loc,
        line-newlines start (loc + n - start) loc n text (omega arith)
            (newlines-line_start text loc) (newlines-find_byte (drop loc text) n h),
        omega (arith, room, length-take start text, length-drop loc text),
        omega (
          arith,
          room,
          length-take (loc + n - start) (drop start text),
          length-drop start text,
          length-drop loc text,
        ),
        refl,
      ),
    )
