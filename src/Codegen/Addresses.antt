-- ===== src/Codegen/Addresses.antt =====
-- Runs of the pieces that the code of an expression is made of: the addresses of variables and of
-- members, reads and writes.
use cc.Base.{
  ℕ, suc, ◌%◌, ◌<◌, ◌≡◌, refl, Bool, true, false, ◌||◌, List, [], ◌∷◌, ◌++◌, none, some, arith,
  if◌then◌else◌, Bool-cases, inl, inr, ap, length, take, ltb, append_assoc,
}
use cc.Base.Int.{ℤ}
use cc.Base.Outcome
use cc.Base.Outcome.{Result, ok, err, fault}
use cc.Node.{
  TypeKind, CType, Name, Node, null, lvar, gvarref, literalref, structref, structref_ptr,
  is_struct_ref, has_kind,
}
use cc.Asm.{Line, rax, rdi, push, pop, store}
use cc.Codegen.{copy_name, gen_variable}
use cc.Codegen.Gen.{gen, emit, load_of}
use cc.Codegen.Pieces.{Holds, Holds-bind}
use cc.Codegen.Meaning.{eval, member_address, is_chain, name_text, local_address, read_typed, Value}
use cc.Codegen.Runs.{
  Registers, state, IsBytes, Leaves, Agrees, Agrees-then, load_word-lt, store_word-IsBytes,
}
use cc.Machine.{Layout, Machine, step, exec, exec-append, ◌>>=◌}
use cc.Machine.Word.{
  word_mod, of_int, add_word, Memory, load_word, store_word, add_word-lt, sub_word-lt,
}

copied :
    (b c : Bool) (t : List ℕ)
    → Holds
        (λ u. u ≡ t)
        (elim (if b then none else some t) as (λ _. Result (List ℕ)) [
          | none ↦ err fault
          | some u ↦ if c then ok u else err fault
        ])
copied true c t = tt
copied false true t = refl
copied false false t = tt

module _ (w : Layout) (frame : ℕ) where
  -- Code that does what a meaning says, from every stack, memory and content of the registers.
  abbrev pub Runs : (Memory → Value) → List Line → Type 0
  Runs val ls =
      (g : Registers) (stack : List ℕ) (mem : Memory)
      → IsBytes mem
      → Agrees frame stack (val mem) (exec w ls (state g frame stack mem))

  -- Code that turns an address on the stack into the address of a member.
  abbrev Refers : Node → List Line → Type 0
  Refers s ls =
      (g : Registers) (stack : List ℕ) (mem : Memory) (p : ℕ)
      → p < word_mod
      → IsBytes mem
      → Leaves frame stack (member_address s p mem) mem (exec w ls (state g frame (p ∷ stack) mem))

  -- One run after another, as one run of the joined code.
  pub Agrees-append :
      (stack stack' : List ℕ) (val : Value) (k : ℕ × Memory → Value) (xs ys : List Line)
      (m : Machine)
      → Agrees frame stack val (exec w xs m)
      → ((v : ℕ) (mem : Memory) (g : Registers)
          → v < word_mod
          → IsBytes mem
          → Agrees frame stack' (k (v, mem)) (exec w ys (state g frame (v ∷ stack) mem)))
      → Agrees frame stack' (val >>= k) (exec w (xs ++ ys) m)
  Agrees-append stack stack' val k xs ys m h c =
      rw (exec-append w xs ys m)
        (Agrees-then frame stack stack' val k (exec w xs m) (exec w ys) h c)

  gen-Refers : (s : Node) (i : ℕ) → is_chain s ≡ true → Holds (λ r. Refers s r.0) (gen s i)
  unfolding gen gen_variable member_address exec step
  gen-Refers null i h = λ g stack mem p lt b. (g, refl, lt, b)
  gen-Refers (structref o s) i h =
      Holds-bind (λ r. Refers s r.0) (λ r. Refers (structref o s) r.0) (gen s (suc i)) _
        (gen-Refers s (suc i) h)
        λ r c g stack mem p lt b.
          let q = add_word p (of_int o) in
          c (record g { a = q }) stack mem q (add_word-lt p (of_int o)) b
  gen-Refers (structref_ptr o s) i h =
      Holds-bind (λ r. Refers s r.0) (λ r. Refers (structref_ptr o s) r.0) (gen s (suc i)) _
        (gen-Refers s (suc i) h)
        λ r c g stack mem p lt b.
          let q = add_word (load_word mem p) (of_int o) in
          c (record g { a = q }) stack mem q (add_word-lt (load_word mem p) (of_int o)) b
  gen-Refers _ i h = cc

  -- The code of the references, where there are any.
  member-Refers :
      (s : Node) (i : ℕ)
      → is_chain s ≡ true
      → Holds (λ r. Refers s r.0) (if is_struct_ref s then gen s i else emit [] i)
  unfolding exec member_address
  member-Refers null i h = λ g stack mem p lt b. (g, refl, lt, b)
  member-Refers (structref o s) i h = gen-Refers (structref o s) i h
  member-Refers (structref_ptr o s) i h = gen-Refers (structref_ptr o s) i h
  member-Refers _ i h = cc

  pub local-Runs :
      (o : ℤ) (t : CType) (s : Node)
      → Holds (Runs λ mem. some (local_address frame o, mem)) (gen_variable (lvar o t s))
  unfolding gen_variable exec step
  local-Runs o t s g stack mem b =
      (record g { a = local_address frame o }, refl, sub_word-lt frame (of_int o), b)

  copy_name-text : (n : Name) → Holds (λ t. t ≡ name_text n) (copy_name n)
  unfolding copy_name
  copy_name-text n = copied (ltb (length n.text) n.len) (ltb n.len 64) (take n.len n.text)

  pub global-Runs :
      (n : Name) (s : Node)
      → Holds
          (Runs λ mem. some (w.symbol (name_text n) % word_mod, mem))
          (gen_variable (gvarref n s))
  unfolding gen_variable exec step
  global-Runs n s =
      Holds-bind (λ t. t ≡ name_text n) (Runs λ mem. some (w.symbol (name_text n) % word_mod, mem))
        (copy_name n) _ (copy_name-text n)
        λ t e g stack mem b.
          let p = w.symbol (name_text n) % word_mod in
          (
            record g { a = p },
            ap
                (λ t'. some (
                  state (record g { a = w.symbol t' % word_mod }) frame
                    (w.symbol t' % word_mod ∷ stack) mem))
                e,
            omega arith,
            b,
          )

  pub literal-Runs :
      (n : Name) (k : ℕ)
      → Holds (Runs λ mem. some (w.literal k % word_mod, mem)) (gen_variable (literalref n k))
  unfolding gen_variable exec step
  literal-Runs n k g stack mem b = (record g { a = w.literal k % word_mod }, refl, omega arith, b)

  pub load-Agrees :
      (t : CType) (g : Registers) (stack : List ℕ) (mem : Memory) (p : ℕ)
      → IsBytes mem
      → Leaves frame stack
          (read_typed t mem p)
          mem
          (exec w (pop rax ∷ load_of t ∷ push rax ∷ []) (state g frame (p ∷ stack) mem))
  unfolding exec step
  load-Agrees t g stack mem p b =
      elim (Bool-cases (has_kind t TypeKind.char || has_kind t TypeKind.bool)) [
        | inl e ↦ rw e (record g { a = mem p }, refl, omega (arith, b p), b)
        | inr e ↦ rw e (record g { a = load_word mem p }, refl, load_word-lt mem p b, b)
      ]

  -- A variable's address, and the references behind it.
  pub reference-Holds :
      (Q : List Line × ℕ → Type 0) (v s : Node) (p i : ℕ)
      (f : List Line → List Line × ℕ → Result (List Line × ℕ))
      → is_chain s ≡ true
      → Holds (Runs λ mem. some (p, mem)) (gen_variable v)
      → ((xs ys : List Line) (k : ℕ)
          → Runs (λ mem. some (member_address s p mem, mem)) (xs ++ ys)
          → Holds Q (f xs (ys, k)))
      → Holds Q (
          Outcome.◌>>=◌
            (gen_variable v)
            λ xs. Outcome.◌>>=◌ (if is_struct_ref s then gen s i else emit [] i) (f xs))
  reference-Holds Q v s p i f h address c =
      Holds-bind (Runs λ mem. some (p, mem)) Q (gen_variable v) _ address λ xs a.
        Holds-bind (λ r. Refers s r.0) Q (if is_struct_ref s then gen s i else emit [] i) (f xs)
          (member-Refers s i h)
          λ r m. c xs r.0 r.1 λ g stack mem b.
            Agrees-append stack stack (some (p, mem))
              (λ (q, mem'). some (member_address s q mem', mem')) xs r.0 (state g frame stack mem)
              (a g stack mem b) λ q mem' g' lt b'. m g' stack mem' q lt b'

  -- A node's code runs as the node's meaning.
  abbrev pub Correct : Node → List Line × ℕ → Type 0
  Correct e r = Runs (eval w frame e) r.0

  -- Code that leaves the address of a variable or of its member.
  abbrev pub Targets : Node → ℕ → List Line × ℕ → Type 0
  Targets s p r = Runs (λ mem. some (member_address s p mem, mem)) r.0

  -- An assignment, from the code of the address and that of the value.
  pub assign-Runs :
      (val val' : Memory → Value) (xs ys : List Line)
      → Runs val xs
      → Runs val' ys
      → Runs
          (λ mem. val mem >>= λ (p, mem₁). val' mem₁ >>= λ (v, mem₂). some (v, store_word mem₂ p v))
          (xs ++ ys ++ pop rdi ∷ pop rax ∷ store rdi ∷ push rdi ∷ [])
  unfolding exec step
  assign-Runs val val' xs ys a c g stack mem b =
      let tail = pop rdi ∷ pop rax ∷ store rdi ∷ push rdi ∷ [] in
      rw (append_assoc xs ys tail) (
        Agrees-append stack stack (val mem) _ xs (ys ++ tail) (state g frame stack mem)
          (a g stack mem b)
          λ p mem₁ g₁ lt b₁.
            Agrees-append (p ∷ stack) stack (val' mem₁) _ ys tail (state g₁ frame (p ∷ stack) mem₁)
              (c g₁ (p ∷ stack) mem₁ b₁)
              λ v mem₂ g₂ lt' b₂.
                (record g₂ { a = p; d = v }, refl, lt', store_word-IsBytes mem₂ p v b₂))
