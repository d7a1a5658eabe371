-- ===== src/Codegen/Runs.antt =====
-- Runs of the processor that leave one value more on the stack, and how they are put together.
use cc.Base.{
  ℕ, ◌+◌, ◌-◌, ◌%◌, ◌<◌, ◌≡◌, refl, Bool, List, [], ◌∷◌, ◌++◌, Option, none, some, arith,
  if◌then◌else◌, ◌∙◌, ap, sym,
}
use mathlib.Core.Path.{subst}
use cc.Base.Int.{ℤ, pos, negsuc}
use cc.Node.{BinaryKind}
use cc.Asm.{Line, rax, rdi, push, pop, rdx, equal, not_equal, less, less_equal}
use cc.Codegen.{operation}
use cc.Codegen.Meaning.{operate, Value}
use cc.Machine.{Layout, Machine, step, exec, ◌>>=◌}
use cc.Machine.Word.{
  word_mod, of_int, add_word, sub_word, mul_word, and_word, or_word, divide_words, sign_word,
  idiv_words-sign_word, holds, Memory, load_word, store_word, add_word-lt, sub_word-lt, mul_word-lt,
  and_word-lt, or_word-lt, divide_words-lt, low_byte,
}

-- The registers that the code of an expression changes, the flags among them.
pub record Registers : Type 0 where
  pub a : ℕ
  pub d : ℕ
  pub x : ℕ
  pub left : ℕ
  pub right : ℕ

abbrev pub state : Registers → ℕ → List ℕ → Memory → Machine
state g frame stack memory = record {
  a = g.a;
  d = g.d;
  x = g.x;
  frame = frame;
  left = g.left;
  right = g.right;
  stack = stack;
  memory = memory;
}

abbrev pub IsBytes : Memory → Type 0
IsBytes mem = (p : ℕ) → mem p < 256

-- The run ends with `v` on the stack, which is a word, and with the memory `mem`.
abbrev pub Leaves : ℕ → List ℕ → ℕ → Memory → Option Machine → Type 0
Leaves frame stack v mem r =
    (g : Registers) × (r ≡ some (state g frame (v ∷ stack) mem)) × (v < word_mod) × IsBytes mem

-- The run does what the value says: it leaves it, or traps.
abbrev pub Agrees : ℕ → List ℕ → Value → Option Machine → Type 0
Agrees frame stack none r = r ≡ none
Agrees frame stack (some (v, mem)) r = Leaves frame stack v mem r

-- A run after a run.
pub Agrees-then :
    (frame : ℕ) (stack stack' : List ℕ) (val : Value) (k : ℕ × Memory → Value) (r : Option Machine)
    (f : Machine → Option Machine)
    → Agrees frame stack val r
    → ((v : ℕ) (mem : Memory) (g : Registers)
        → v < word_mod
        → IsBytes mem
        → Agrees frame stack' (k (v, mem)) (f (state g frame (v ∷ stack) mem)))
    → Agrees frame stack' (val >>= k) (r >>= f)
Agrees-then frame stack stack' none k r f h c = rw h
Agrees-then frame stack stack' (some (v, mem)) k r f (g, e, lt, b) c =
    subst (λ q. Agrees frame stack' (k (v, mem)) (q >>= f)) (sym e) (c v mem g lt b)

pub of_int-lt : (k : ℤ) → of_int k < word_mod
of_int-lt (pos n) = omega arith
of_int-lt (negsuc n) = omega arith

pub load_word-lt : (mem : Memory) (p : ℕ) → IsBytes mem → load_word mem p < word_mod
unfolding load_word
load_word-lt mem p h = omega arith

pub store_word-IsBytes : (mem : Memory) (p v : ℕ) → IsBytes mem → IsBytes (store_word mem p v)
unfolding store_word
store_word-IsBytes mem p v h b = ground (arith, h b)

-- What follows `idiv`, by its outcome.
abbrev after_idiv : Layout → Machine → List Line → Option (ℕ × ℕ) → Option Machine
after_idiv w m rest o = (o >>= λ (q, r). some (record m { a = q; x = r })) >>= exec w rest

module _ (w : Layout) (g : Registers) (frame v u : ℕ) (stack : List ℕ) (mem : Memory)
    (b : IsBytes mem) where
  abbrev divided : Machine
  divided =
      state (record { a = v; d = u; x = sign_word v; left = g.left; right = g.right }) frame stack
        mem

  quotient-Agrees :
      (o : Option (ℕ × ℕ))
      → ((q r : ℕ) → o ≡ some (q, r) → (q < word_mod) × (r < word_mod))
      → Agrees frame stack
          ((o >>= λ (q, r). some q) >>= λ y. some (y, mem))
          (after_idiv w divided (push rax ∷ []) o)
  unfolding exec step
  quotient-Agrees none h = refl
  quotient-Agrees (some (q, r)) h =
      (record { a = q; d = u; x = r; left = g.left; right = g.right }, refl, (h q r refl).0, b)

  remainder-Agrees :
      (o : Option (ℕ × ℕ))
      → ((q r : ℕ) → o ≡ some (q, r) → (q < word_mod) × (r < word_mod))
      → Agrees frame stack
          ((o >>= λ (q, r). some r) >>= λ y. some (y, mem))
          (after_idiv w divided (push rdx ∷ pop rax ∷ push rax ∷ []) o)
  unfolding exec step
  remainder-Agrees none h = refl
  remainder-Agrees (some (q, r)) h =
      (record { a = r; d = u; x = r; left = g.left; right = g.right }, refl, (h q r refl).1, b)

  -- The end of a comparison, after `set… al`, `movzb` and `push rax`.
  compared-Leaves :
      (c : Bool) {r : Option Machine}
      → (let y = (v - v % 256 + (if c then 1 else 0)) % 256 in
          r
          ≡ some
              (state (record { a = y; d = u; x = g.x; left = v; right = u }) frame (y ∷ stack) mem))
      → Leaves frame stack (if c then 1 else 0) mem r
  compared-Leaves c e = (
    record { a = if c then 1 else 0; d = u; x = g.x; left = v; right = u },
    e
        ∙ ap
            (λ y.
              some (
                state (record { a = y; d = u; x = g.x; left = v; right = u }) frame (y ∷ stack)
                  mem))
            (low_byte v c),
    ground arith,
    b,
  )

-- The end of the code of an operator, on its operands.
pub operation-Agrees :
    (w : Layout) (k : BinaryKind) (g : Registers) (frame v u : ℕ) (stack : List ℕ) (mem : Memory)
    → v < word_mod
    → u < word_mod
    → IsBytes mem
    → Agrees frame stack (operate k v u >>= λ y. some (y, mem)) (
        exec w
          (pop rdi ∷ pop rax ∷ operation k ++ push rax ∷ [])
          (state g frame (u ∷ v ∷ stack) mem))
unfolding operate exec step
operation-Agrees w BinaryKind.add g frame v u stack mem lv lu b = (
  record { a = add_word v u; d = u; x = g.x; left = g.left; right = g.right },
  refl,
  add_word-lt v u,
  b,
)
operation-Agrees w BinaryKind.sub g frame v u stack mem lv lu b = (
  record { a = sub_word v u; d = u; x = g.x; left = g.left; right = g.right },
  refl,
  sub_word-lt v u,
  b,
)
operation-Agrees w BinaryKind.mul g frame v u stack mem lv lu b = (
  record { a = mul_word v u; d = u; x = g.x; left = g.left; right = g.right },
  refl,
  mul_word-lt v u,
  b,
)
operation-Agrees w BinaryKind.and g frame v u stack mem lv lu b = (
  record { a = and_word v u; d = u; x = g.x; left = g.left; right = g.right },
  refl,
  and_word-lt v u,
  b,
)
operation-Agrees w BinaryKind.or g frame v u stack mem lv lu b = (
  record { a = or_word v u; d = u; x = g.x; left = g.left; right = g.right },
  refl,
  or_word-lt v u,
  b,
)
operation-Agrees w BinaryKind.eq g frame v u stack mem lv lu b =
    compared-Leaves w g frame v u stack mem b (holds equal v u) refl
operation-Agrees w BinaryKind.ne g frame v u stack mem lv lu b =
    compared-Leaves w g frame v u stack mem b (holds not_equal v u) refl
operation-Agrees w BinaryKind.lt g frame v u stack mem lv lu b =
    compared-Leaves w g frame v u stack mem b (holds less v u) refl
operation-Agrees w BinaryKind.le g frame v u stack mem lv lu b =
    compared-Leaves w g frame v u stack mem b (holds less_equal v u) refl
operation-Agrees w BinaryKind.div g frame v u stack mem lv lu b = rw (idiv_words-sign_word v u lv) (
    quotient-Agrees w g frame v u stack mem b (divide_words v u)
      λ q r e. divide_words-lt v u q r lv e)
operation-Agrees w BinaryKind.modulo g frame v u stack mem lv lu b =
    rw (idiv_words-sign_word v u lv) (
      remainder-Agrees w g frame v u stack mem b (divide_words v u)
        λ q r e. divide_words-lt v u q r lv e)
