-- ===== src/Program/Places.antt =====
-- The text that read_file gives has a newline behind every place, which error_at needs.
use cc.Base.{
  ℕ, zero, suc, ◌<◌, ◌≡◌, ◌≢◌, ◌⊎◌, refl, true, false, List, [], ◌∷◌, ◌++◌, some, arith, ◌==◌,
  length, drop, All, All-append, Bool-cases, inl, inr,
}
use cc.Base.Outcome.{ok}
use cc.Tokenizer.{find_byte}
use cc.Report.{Report, error_at}
use cc.Report.Place.{Reports, error_at-place}
use cc.Program.{ends_line, up_to_nul, buffer}

pub up_to_nul-All : (content : List ℕ) → All (λ c. c ≢ 0) content → up_to_nul content ≡ content
up_to_nul-All [] h = refl
up_to_nul-All (c ∷ content) (ne, h) = ground (arith, up_to_nul-All content h)

ends_line-append : (content : List ℕ) → ends_line (content ++ 10 ∷ []) ≡ true
ends_line-append [] = refl
ends_line-append (c ∷ []) = refl
ends_line-append (c ∷ d ∷ content) = ends_line-append (d ∷ content)

buffer-ends_line : (content : List ℕ) → All (λ c. c ≢ 0) content → ends_line (buffer content) ≡ true
buffer-ends_line content h = elim (Bool-cases (ends_line content)) [
  | inl e ↦ rw e (rw (up_to_nul-All content h) e)
  | inr e ↦ rw e (
      rw
        (up_to_nul-All (content ++ 10 ∷ [])
          (All-append (λ c. c ≢ 0) content (10 ∷ []) h (λ z. omega arith, tt)))
        (ends_line-append content))
]

abbrev Found : List ℕ → Type 0
Found p = (n : ℕ) × (find_byte 10 p ≡ some n)

find_byte-ends_line : (c : ℕ) (p : List ℕ) → ends_line (c ∷ p) ≡ true → Found (c ∷ p)
find_byte-ends_line c [] h = (0, rw h refl)
find_byte-ends_line c (d ∷ p) h =
    let (n, e) = find_byte-ends_line d p h in by_first (Bool-cases (c == 10)) n e
  where
    by_first :
        ((c == 10) ≡ true) ⊎ ((c == 10) ≡ false)
        → (n : ℕ) → find_byte 10 (d ∷ p) ≡ some n
        → Found (c ∷ d ∷ p)
    by_first (inl b) n e = (0, rw b refl)
    by_first (inr b) n e = (suc n, rw b (rw e refl))

drop-Found : (loc : ℕ) (p : List ℕ) → ends_line p ≡ true → loc < length p → Found (drop loc p)
drop-Found loc [] h lt = absurd (omega arith)
drop-Found zero (c ∷ p) h lt = find_byte-ends_line c p h
drop-Found (suc loc) (c ∷ []) h lt = absurd (omega arith)
drop-Found (suc loc) (c ∷ d ∷ p) h lt = drop-Found loc (d ∷ p) h (omega arith)

-- For a file without a NUL and every place in the text that read_file makes of it, error_at succeeds: the
-- text is what stands before a line, the line that it gives, a newline and what is behind it. What stands
-- before the line is nothing or ends with a newline, and the line has none, so that it is the whole line;
-- its number is one more than the newlines before it, and the place stands in it, or at its end, at the
-- column that is given.
pub buffer-error_at :
    (content : List ℕ) (loc : ℕ)
    → All (λ c. c ≢ 0) content
    → loc < length (buffer content)
    → (r : Report) × (error_at (buffer content) loc ≡ ok r) × Reports (buffer content) loc r
buffer-error_at content loc h lt =
    let (n, e) = drop-Found loc (buffer content) (buffer-ends_line content h) lt in
    error_at-place (buffer content) loc n e
