-- ===== src/Codegen/Correct.antt =====
-- The code of an expression does what the expression means.
use cc.Base.{ℕ, suc, ◌%◌, ◌≡◌, refl, true, List, [], ◌∷◌, ◌++◌, some, and-true, append_assoc}
use cc.Base.Int.{pos}
use cc.Node.{
  CType, Node, null, num, binary, assign, lvar, gvarref, literalref, addr, deref, not, cast,
}
use cc.Asm.{Line, rax, rdi, push, pop, load, xor_imm}
use cc.Codegen.{gen_variable, operation}
use cc.Codegen.Gen.{gen, gen_target, load_of}
use cc.Codegen.Pieces.{Holds, Holds-bind}
use cc.Codegen.Meaning.{
  eval, member_address, is_chain, is_expr, name_text, local_address, read_typed,
}
use cc.Codegen.Runs.{state, of_int-lt, load_word-lt, operation-Agrees}
use cc.Machine.{Layout, step, exec}
use cc.Machine.Word.{word_mod, xor_word, load_word, xor_word-lt}
use cc.Codegen.Addresses.{
  Runs, Agrees-append, local-Runs, global-Runs, literal-Runs, load-Agrees, reference-Holds, Correct,
  Targets, assign-Runs,
}

regroup : (a b c d : List Line) → a ++ b ++ c ++ d ≡ a ++ (b ++ (c ++ d))
regroup a b c d = simp append_assoc

mutual
  unfolding gen eval exec step

  pub gen-Correct :
      (w : Layout) (frame : ℕ) (e : Node) (i : ℕ)
      → is_expr e ≡ true
      → Holds (Correct w frame e) (gen e i)
  gen-Correct w frame (num v) i h = λ g stack mem b. (g, refl, of_int-lt v, b)
  gen-Correct w frame (lvar o t s) i h =
      reference-Holds w frame (Correct w frame (lvar o t s)) (lvar o t s) s (local_address frame o)
        (suc i) _ h (local-Runs w frame o t s)
        λ xs ys k r g stack mem b.
          Agrees-append w frame stack stack
            (some (member_address s (local_address frame o) mem, mem))
            (λ (p, mem'). some (read_typed t mem' p, mem')) (xs ++ ys)
            (pop rax ∷ load_of t ∷ push rax ∷ []) (state g frame stack mem) (r g stack mem b)
            λ p mem' g' lt b'. load-Agrees w frame t g' stack mem' p b'
  gen-Correct w frame (gvarref n s) i h =
      reference-Holds w frame (Correct w frame (gvarref n s)) (gvarref n s) s
        (w.symbol (name_text n) % word_mod) (suc i) _ h (global-Runs w frame n s)
        λ xs ys k r g stack mem b.
          Agrees-append w frame stack stack
            (some (member_address s (w.symbol (name_text n) % word_mod) mem, mem))
            (λ (p, mem'). some (load_word mem' p, mem')) (xs ++ ys) (pop rax ∷ load ∷ push rax ∷ [])
            (state g frame stack mem) (r g stack mem b)
            λ p mem' g' lt b'. load-Agrees w frame CType.null g' stack mem' p b'
  gen-Correct w frame (binary k l r) i h =
      let (hl, hr) = and-true (is_expr l) (is_expr r) h in
      Holds-bind (Correct w frame l) (Correct w frame (binary k l r)) (gen l (suc i)) _
        (gen-Correct w frame l (suc i) hl)
        λ q a.
          Holds-bind (Correct w frame r) (Correct w frame (binary k l r)) (gen r q.1) _
            (gen-Correct w frame r q.1 hr)
            λ q' c g stack mem b.
              rw (regroup q.0 q'.0 (pop rdi ∷ pop rax ∷ operation k) (push rax ∷ [])) (
                Agrees-append w frame stack stack (eval w frame l mem) _ q.0 _
                  (state g frame stack mem) (a g stack mem b)
                  λ v mem₁ g₁ lv b₁.
                    Agrees-append w frame (v ∷ stack) stack (eval w frame r mem₁) _ q'.0 _
                      (state g₁ frame (v ∷ stack) mem₁) (c g₁ (v ∷ stack) mem₁ b₁)
                      λ u mem₂ g₂ lu b₂. operation-Agrees w k g₂ frame v u stack mem₂ lv lu b₂)
  gen-Correct w frame (assign (lvar o t s) e) i h =
      let (hs, he) = and-true (is_chain s) (is_expr e) h in
      let p = local_address frame o in
      Holds-bind (Targets w frame s p) (Correct w frame (assign (lvar o t s) e))
        (gen_target (lvar o t s) (suc i)) _
        (reference-Holds w frame (Targets w frame s p) (lvar o t s) s p (suc i) _ hs
          (local-Runs w frame o t s) λ xs ys k r. r)
        λ q r.
          Holds-bind (Correct w frame e) (Correct w frame (assign (lvar o t s) e)) (gen e q.1) _
            (gen-Correct w frame e q.1 he)
            λ q' c.
              assign-Runs w frame (λ mem. some (member_address s p mem, mem)) (eval w frame e) q.0
                q'.0 r c
  gen-Correct w frame (assign (gvarref n s) e) i h =
      let (hs, he) = and-true (is_chain s) (is_expr e) h in
      let p = w.symbol (name_text n) % word_mod in
      Holds-bind (Targets w frame s p) (Correct w frame (assign (gvarref n s) e))
        (gen_target (gvarref n s) (suc i)) _
        (reference-Holds w frame (Targets w frame s p) (gvarref n s) s p (suc i) _ hs
          (global-Runs w frame n s) λ xs ys k r. r)
        λ q r.
          Holds-bind (Correct w frame e) (Correct w frame (assign (gvarref n s) e)) (gen e q.1) _
            (gen-Correct w frame e q.1 he)
            λ q' c.
              assign-Runs w frame (λ mem. some (member_address s p mem, mem)) (eval w frame e) q.0
                q'.0 r c
  gen-Correct w frame (assign (deref a) e) i h =
      let (ha, he) = and-true (is_expr a) (is_expr e) h in
      Holds-bind (Correct w frame a) (Correct w frame (assign (deref a) e)) (gen a (suc i)) _
        (gen-Correct w frame a (suc i) ha)
        λ q r.
          Holds-bind (Correct w frame e) (Correct w frame (assign (deref a) e)) (gen e q.1) _
            (gen-Correct w frame e q.1 he)
            λ q' c. assign-Runs w frame (eval w frame a) (eval w frame e) q.0 q'.0 r c
  gen-Correct w frame (addr (lvar o t null)) i h =
      Holds-bind (Runs w frame λ mem. some (local_address frame o, mem))
        (Correct w frame (addr (lvar o t null))) (gen_variable (lvar o t null)) _
        (local-Runs w frame o t null) λ xs r. r
  gen-Correct w frame (addr (gvarref n null)) i h =
      Holds-bind (Runs w frame λ mem. some (w.symbol (name_text n) % word_mod, mem))
        (Correct w frame (addr (gvarref n null))) (gen_variable (gvarref n null)) _
        (global-Runs w frame n null) λ xs r. r
  gen-Correct w frame (addr (literalref n k)) i h =
      Holds-bind (Runs w frame λ mem. some (w.literal k % word_mod, mem))
        (Correct w frame (addr (literalref n k))) (gen_variable (literalref n k)) _
        (literal-Runs w frame n k) λ xs r. r
  gen-Correct w frame (deref e) i h =
      Holds-bind (Correct w frame e) (Correct w frame (deref e)) (gen e (suc i)) _
        (gen-Correct w frame e (suc i) h)
        λ q a g stack mem b.
          Agrees-append w frame stack stack (eval w frame e mem)
            (λ (p, mem'). some (load_word mem' p, mem')) q.0 (pop rax ∷ load ∷ push rax ∷ [])
            (state g frame stack mem) (a g stack mem b)
            λ p mem' g' lt b'.
              (record g' { a = load_word mem' p }, refl, load_word-lt mem' p b', b')
  gen-Correct w frame (not e) i h =
      Holds-bind (Correct w frame e) (Correct w frame (not e)) (gen e (suc i)) _
        (gen-Correct w frame e (suc i) h)
        λ q a g stack mem b.
          Agrees-append w frame stack stack (eval w frame e mem)
            (λ (v, mem'). some (xor_word v 1, mem')) q.0
            (pop rax ∷ xor_imm rax (pos 1) ∷ push rax ∷ []) (state g frame stack mem)
            (a g stack mem b)
            λ v mem' g' lt b'. (record g' { a = xor_word v 1 }, refl, xor_word-lt v 1, b')
  gen-Correct w frame (cast t e) i h = gen-Correct w frame e (suc i) h
  gen-Correct w frame _ i h = cc
