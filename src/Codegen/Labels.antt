-- ===== src/Codegen/Labels.antt =====
-- The local labels of the generated code: how often a label is defined and how often it is jumped to.
use cc.Base.{
  ℕ, zero, suc, ◌+◌, ◌≤◌, ◌<◌, ◌≡◌, refl, Bool, true, false, ◌&&◌, List, [], ◌∷◌, ◌++◌, ◌==◌, arith,
  if◌then◌else◌, ◌⊎◌, inl, inr,
}
use cc.Asm.{Line, Label, lbegin, lelse, lend, label, je, jmp}

-- The number that stands in a label.
abbrev pub index : Label → ℕ
index (lbegin n) = n
index (lelse n) = n
index (lend n) = n

abbrev pub word : Label → ℕ
word (lbegin n) = 0
word (lelse n) = 1
word (lend n) = 2

-- 1 where the two labels are the same text, else 0.
unfoldable pub mark : Label → Label → ℕ
mark l m = if word l == word m && index l == index m then 1 else 0

abbrev line_defines : Label → Line → ℕ
line_defines l (label m) = mark l m
line_defines l _ = 0

abbrev line_jumps : Label → Line → ℕ
line_jumps l (je m) = mark l m
line_jumps l (jmp m) = mark l m
line_jumps l _ = 0

-- How often the lines define a label, and jump to it.
abbrev pub defined : Label → List Line → ℕ
defined l [] = 0
defined l (x ∷ ls) = line_defines l x + defined l ls

abbrev pub jumped : Label → List Line → ℕ
jumped l [] = 0
jumped l (x ∷ ls) = line_jumps l x + jumped l ls

pub defined-append :
    (l : Label) (xs ys : List Line) → defined l (xs ++ ys) ≡ defined l xs + defined l ys
defined-append l [] ys = omega arith
defined-append l (x ∷ xs) ys = omega (arith, defined-append l xs ys)

pub jumped-append :
    (l : Label) (xs ys : List Line) → jumped l (xs ++ ys) ≡ jumped l xs + jumped l ys
jumped-append l [] ys = omega arith
jumped-append l (x ∷ xs) ys = omega (arith, jumped-append l xs ys)

pub ruleset counts = (arith, defined-append, jumped-append)

-- The three labels of one number are different texts.
pub marks-le : (l : Label) (i : ℕ) → mark l (lbegin i) + mark l (lelse i) + mark l (lend i) ≤ 1
unfolding mark
marks-le (lbegin n) i = ground arith
marks-le (lelse n) i = ground arith
marks-le (lend n) i = ground arith

-- Only a label of its own number is marked.
pub mark_ne : (l m : Label) → (index l < index m) ⊎ (index m < index l) → mark l m ≡ 0
unfolding mark
mark_ne l m h = ground arith

-- Lines that take the counter from `i` to `j`: their labels are numbered from `i` to below `j`, each
-- is defined once at most, and each that is jumped to is defined.
pub record Numbered (l : Label) (i j : ℕ) (ls : List Line) : Type 0 where
  pub ordered : i ≤ j
  pub before : index l < i → defined l ls ≡ 0
  pub after : j ≤ index l → defined l ls ≡ 0
  pub once : defined l ls ≤ 1
  pub closed : 0 < jumped l ls → defined l ls ≡ 1

-- Lines with no label and no jump.
pub record Plain (l : Label) (ls : List Line) : Type 0 where
  pub no_label : defined l ls ≡ 0
  pub no_jump : jumped l ls ≡ 0

pub Numbered-append :
    (l : Label) (i j k : ℕ) (xs ys : List Line)
    → Numbered l i j xs
    → Numbered l j k ys
    → Numbered l i k (xs ++ ys)
Numbered-append l i j k xs ys h g = record {
  ordered = omega arith;
  before = λ lt. ground (arith, defined-append l xs ys);
  after = λ le. ground (arith, defined-append l xs ys);
  once = ground (arith, defined-append l xs ys);
  closed = λ lt. ground (arith, defined-append l xs ys, jumped-append l xs ys);
}

pub Numbered-widen :
    (l : Label) (i' i j : ℕ) (ls : List Line) → i' ≤ i → Numbered l i j ls → Numbered l i' j ls
Numbered-widen l i' i j ls le h = record {
  ordered = omega arith;
  before = λ lt. h.before (omega arith);
  after = h.after;
  once = h.once;
  closed = h.closed;
}

pub Plain-Numbered : (l : Label) (i j : ℕ) (ls : List Line) → i ≤ j → Plain l ls → Numbered l i j ls
Plain-Numbered l i j ls le h = record {
  ordered = le;
  before = λ _. h.no_label;
  after = λ _. h.no_label;
  once = omega arith;
  closed = λ lt. absurd (omega arith);
}

Ordering-cases : (a b : ℕ) → (a ≡ b) ⊎ ((a < b) ⊎ (b < a))
Ordering-cases a b = ground arith

-- Lines that define and jump to labels of the number `i`, each as often, around lines numbered above.
pub Numbered-own :
    (l : Label) (i k m : ℕ) (inner ls : List Line)
    → m ≤ 1
    → ((index l < i) ⊎ (i < index l) → m ≡ 0)
    → Numbered l (suc i) k inner
    → defined l ls ≡ defined l inner + m
    → jumped l ls ≡ jumped l inner + m
    → Numbered l i k ls
Numbered-own l i k m inner ls le own h d u = record {
  ordered = omega arith;
  before = λ lt. omega (arith, own (inl lt), h.before (omega arith));
  after = λ ge. let o = h.ordered in omega (arith, own (inr (omega arith)), h.after ge);
  once = once_of (Ordering-cases (index l) i);
  closed = λ lt. closed_of (Ordering-cases (index l) i) lt;
}
  where
    once_of : (index l ≡ i) ⊎ ((index l < i) ⊎ (i < index l)) → defined l ls ≤ 1
    once_of (inl e) = omega (arith, h.before (omega arith))
    once_of (inr ne) = omega (arith, own ne, h.once)

    closed_of : (index l ≡ i) ⊎ ((index l < i) ⊎ (i < index l)) → 0 < jumped l ls → defined l ls ≡ 1
    closed_of (inl e) lt = ground (arith, h.before (omega arith))
    closed_of (inr ne) lt = omega (arith, own ne, h.closed (omega (arith, own ne)))
