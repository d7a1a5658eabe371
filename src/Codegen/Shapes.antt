-- ===== src/Codegen/Shapes.antt =====
-- The code of the statements that jump: around the codes of their parts stand labels and jumps of the
-- statement's own number.
use cc.Base.{ℕ, suc, ◌+◌, ◌≡◌, List, [], ◌∷◌, ◌++◌, arith}
use cc.Asm.{Line, Label, rax, lbegin, lelse, lend, push, pop, label, je, jmp}
use cc.Codegen.Gen.{jump_if_zero}
use cc.Codegen.Labels.{
  mark, marks-le, mark_ne, defined, jumped, counts, Numbered, Numbered-append, Numbered-own,
}

defined-parts :
    (l : Label) (a b c d : List Line)
    → defined l (a ++ b ++ c ++ d) ≡ defined l a + defined l b + defined l c + defined l d
defined-parts l a b c d = omega counts

jumped-parts :
    (l : Label) (a b c d : List Line)
    → jumped l (a ++ b ++ c ++ d) ≡ jumped l a + jumped l b + jumped l c + jumped l d
jumped-parts l a b c d = omega counts

-- The last lines of a `while`.
abbrev pub back : ℕ → List Line
back i = pop rax ∷ jmp (lbegin i) ∷ label (lend i) ∷ push rax ∷ []

module _ (l : Label) (i : ℕ) where
  pub while-Numbered :
      (j k : ℕ) (t b : List Line)
      → Numbered l (suc i) j t
      → Numbered l j k b
      → Numbered l i k (label (lbegin i) ∷ t ++ jump_if_zero (je (lend i)) ++ b ++ back i)
  while-Numbered j k t b h g =
      Numbered-own l i k (mark l (lbegin i) + mark l (lend i)) (t ++ b) _
        (omega (arith, marks-le l i))
        (λ ne. omega (arith, mark_ne l (lbegin i) ne, mark_ne l (lend i) ne))
        (Numbered-append l (suc i) j k t b h g)
        (omega (counts, defined-parts l t (jump_if_zero (je (lend i))) b (back i)))
        (omega (counts, jumped-parts l t (jump_if_zero (je (lend i))) b (back i)))

  pub if_else-Numbered :
      (j k m : ℕ) (t a b : List Line)
      → Numbered l (suc i) j t
      → Numbered l j k a
      → Numbered l k m b
      → Numbered l i m (
          t
          ++ jump_if_zero (je (lelse i))
          ++ a
          ++ jmp (lend i) ∷ label (lelse i) ∷ b
          ++ pop rax ∷ label (lend i) ∷ push rax ∷ [])
  if_else-Numbered j k m t a b h g f =
      Numbered-own l i m (mark l (lelse i) + mark l (lend i)) (t ++ a ++ b) _
        (omega (arith, marks-le l i))
        (λ ne. omega (arith, mark_ne l (lelse i) ne, mark_ne l (lend i) ne))
        (Numbered-append l (suc i) k m (t ++ a) b (Numbered-append l (suc i) j k t a h g) f)
        (omega counts) (omega counts)

  pub if_only-Numbered :
      (j k : ℕ) (t a : List Line)
      → Numbered l (suc i) j t
      → Numbered l j k a
      → Numbered l i k
          (t ++ jump_if_zero (je (lend i)) ++ a ++ pop rax ∷ label (lend i) ∷ push rax ∷ [])
  if_only-Numbered j k t a h g =
      Numbered-own l i k (mark l (lend i)) (t ++ a) _ (omega (arith, marks-le l i))
        (λ ne. mark_ne l (lend i) ne) (Numbered-append l (suc i) j k t a h g) (omega counts)
        (omega counts)

  pub for-Numbered :
      (j k m n : ℕ) (a t b u : List Line)
      → Numbered l (suc i) j a
      → Numbered l j k t
      → Numbered l k m b
      → Numbered l m n u
      → Numbered l i n (
          a
          ++ label (lbegin i) ∷ t
          ++ jump_if_zero (je (lend i))
          ++ b
          ++ u
          ++ jmp (lbegin i) ∷ label (lend i) ∷ push rax ∷ [])
  for-Numbered j k m n a t b u h g f e =
      Numbered-own l i n (mark l (lbegin i) + mark l (lend i)) (a ++ t ++ b ++ u) _
        (omega (arith, marks-le l i))
        (λ ne. omega (arith, mark_ne l (lbegin i) ne, mark_ne l (lend i) ne))
        (Numbered-append l (suc i) m n (a ++ t ++ b) u
          (Numbered-append l (suc i) k m (a ++ t) b (Numbered-append l (suc i) j k a t h g) f) e)
        (omega counts) (omega counts)
