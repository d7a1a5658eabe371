-- ===== src/Codegen/Fresh.antt =====
-- gen numbers its labels afresh: the code of a tree defines each label once at most, and every label
-- that it jumps to.
use cc.Base.{ℕ, suc, ◌≤◌, ◌<◌, ◌≡◌, List, [], ◌∷◌, ◌++◌, arith, if◌then◌else◌, ◌⊎◌}
use mathlib.Core.Path.{subst}
use cc.Base.Int.{pos}
use cc.Base.Outcome.{Result, ok, ◌>>=◌}
use cc.Node.{
  Node, Nodes, null, num, binary, assign, lvar, gvarref, literalref, structref, structref_ptr,
  return, while, if_only, if_else, for, block, funcall, funcdef, addr, deref, not, cast, gvardef,
  literal, structdef, nil, cons, is_struct_ref,
}
use cc.Asm.{
  Line, Label, rax, rdi, rbp, rsp, push, pop, push_imm, mov_imm, data_section, globl_literal,
  literal_label, byte, text, function, mov, sub_imm,
}
use cc.Codegen.{
  operation, literal_bytes, copy_name, gen_variable, pop_args, store_params, count_nodes,
  variable_space,
}
use cc.Codegen.Gen.{
  gen, gen_target, gen_block, gen_args, emit, is_null, return_lines, align_lines, call_lines,
}
use cc.Codegen.Labels.{index, defined, jumped, Numbered, Plain, Numbered-append, Plain-Numbered}
use cc.Codegen.Pieces.{
  Holds, Holds-bind, Holds-any, Holds-if, PlainOk, gen_variable-Plain, pop_args-Plain,
  store_params-Plain, literal_bytes-Plain, operation-Plain, load_of-Plain, Fresh, Fresh-bind,
  Fresh-if, around, ahead, leaf, widen, behind, Fresh-widen, Fresh-else, Plain-append,
}
use cc.Codegen.Shapes.{while-Numbered, if_else-Numbered, if_only-Numbered, for-Numbered}

module _ (l : Label) where
  Plain-then :
      (i : ℕ) (r : Result (List Line)) (f : List Line → Result (List Line × ℕ))
      → PlainOk l r
      → ((xs : List Line) → Plain l xs → Fresh l i (f xs))
      → Fresh l i (r >>= f)
  Plain-then i r f h k = Holds-bind (Plain l) (λ q. Numbered l i q.1 q.0) r f h k

  any_then {ℓ} :
      {A : Type ℓ} (i : ℕ) (r : Result A) (f : A → Result (List Line × ℕ))
      → ((a : A) → Fresh l i (f a))
      → Fresh l i (r >>= f)
  any_then i r f k =
      Holds-bind (λ _. Unit {0}) (λ q. Numbered l i q.1 q.0) r f (Holds-any r) λ a _. k a

  -- The reference to a variable, with the lines of the reference into its structure.
  reference :
      (i j : ℕ) (v s : Node) (f : List Line → List Line × ℕ → Result (List Line × ℕ))
      → Fresh l j (gen s j)
      → ((xs ys : List Line) (k : ℕ) → Plain l xs → Numbered l j k ys → Fresh l i (f xs (ys, k)))
      → Fresh l i
          (gen_variable v >>= λ xs. (if is_struct_ref s then gen s j else emit [] j) >>= f xs)
  reference i j v s f h k = Plain-then i (gen_variable v) _ (gen_variable-Plain l v) λ xs p.
      Fresh-bind l i j _ (f xs) (Fresh-if l j (is_struct_ref s) (gen s j) h) λ ys m g. k xs ys m p g

-- The code of the arguments, with their number between the lines and the counter.
abbrev FreshArgs : Label → ℕ → List Line × ℕ × ℕ → Type 0
FreshArgs l i r = Numbered l i r.2 r.0

mutual
  unfolding gen

  pub gen-Fresh : (l : Label) (n : Node) (i : ℕ) → Fresh l i (gen n i)
  gen-Fresh l null i = Plain-Numbered l i i [] (omega arith) (omega arith)
  gen-Fresh l (num v) i = leaf l i _ (omega arith)
  gen-Fresh l (lvar o t s) i =
      reference l i (suc i) (lvar o t s) s _ (gen-Fresh l s (suc i))
        λ xs ys k p g. widen l i k _ (around l (suc i) k xs ys _ p g (load_of-Plain l t))
  gen-Fresh l (assign target value) i =
      Fresh-bind l i (suc i) (gen_target target (suc i)) _ (gen_target-Fresh l target (suc i))
        λ xs j h. Fresh-bind l i j (gen value j) _ (gen-Fresh l value j) λ ys k g.
          widen l i k _
            (ahead l (suc i) k (xs ++ ys) _ (Numbered-append l (suc i) j k xs ys h g) (omega arith))
  gen-Fresh l (return e) i =
      Holds-if (λ q. Numbered l i q.1 q.0) (is_null e) _ _
        (leaf l i (mov_imm rax (pos 0) ∷ return_lines) (omega arith))
        (Fresh-bind l i (suc i) (gen e (suc i)) _ (gen-Fresh l e (suc i))
          λ ls j h. widen l i j _ (ahead l (suc i) j ls (pop rax ∷ return_lines) h (omega arith)))
  gen-Fresh l (while test body) i =
      Fresh-bind l i (suc i) (gen test (suc i)) _ (gen-Fresh l test (suc i)) λ t j h.
        Fresh-bind l i j (gen body j) _ (gen-Fresh l body j) λ b k g. while-Numbered l i j k t b h g
  gen-Fresh l (if_else test yes_part no_part) i =
      Fresh-bind l i (suc i) (gen test (suc i)) _ (gen-Fresh l test (suc i)) λ t j h.
        Fresh-bind l i j (gen yes_part j) _ (gen-Fresh l yes_part j) λ a k g.
          Fresh-bind l i k (gen no_part k) _ (gen-Fresh l no_part k)
            λ b m f. if_else-Numbered l i j k m t a b h g f
  gen-Fresh l (if_only test body) i =
      Fresh-bind l i (suc i) (gen test (suc i)) _ (gen-Fresh l test (suc i)) λ t j h.
        Fresh-bind l i j (gen body j) _ (gen-Fresh l body j)
          λ a k g. if_only-Numbered l i j k t a h g
  gen-Fresh l (for init test upd body) i =
      Fresh-bind l i (suc i) (gen init (suc i)) _ (gen-Fresh l init (suc i)) λ a j h.
        Fresh-bind l i j (if is_null test then emit (push_imm (pos 1) ∷ []) j else gen test j) _
          (Fresh-else l j (is_null test) (gen test j) (push_imm (pos 1) ∷ []) (omega arith)
            (gen-Fresh l test j))
          λ t k g. Fresh-bind l i k (gen body k) _ (gen-Fresh l body k) λ b m f.
            Fresh-bind l i m (gen upd m) _ (gen-Fresh l upd m)
              λ u n e. for-Numbered l i j k m n a t b u h g f e
  gen-Fresh l (block children) i =
      Fresh-bind l i (suc i) (gen_block children (suc i)) _ (gen_block-Fresh l children (suc i))
        λ ls j h. widen l i j _ (ahead l (suc i) j ls _ h (omega arith))
  gen-Fresh l (funcall name args) i = any_then l i (copy_name name) _ λ t.
      Holds-bind (FreshArgs l (suc i)) (λ q. Numbered l i q.1 q.0) (gen_args args (suc i)) _
        (gen_args-Fresh l args (suc i))
        λ r h. Plain-then l i (pop_args r.1) _ (pop_args-Plain l r.1) λ pops p. widen l i r.2 _ (
          ahead l (suc i) r.2 (align_lines ++ r.0 ++ pops) (call_lines t)
            (around l (suc i) r.2 align_lines r.0 pops (omega arith) h p) (omega arith))
  gen-Fresh l (funcdef name params body offset) i = any_then l i (copy_name name) _ λ t.
      any_then l i (variable_space (count_nodes params) offset) _ λ space.
        Plain-then l i (store_params 0 params) _ (store_params-Plain l 0 params) λ stores p.
          Fresh-bind l i (suc i) (gen body (suc i)) _ (gen-Fresh l body (suc i)) λ ls j h.
            widen l i j _ (
              around l (suc i) j
                (text ∷ function t ∷ push rbp ∷ mov rbp rsp ∷ sub_imm rsp space ∷ stores) ls
                return_lines (omega arith) h (omega arith))
  gen-Fresh l (addr e) i =
      Plain-then l i (gen_variable e) _ (gen_variable-Plain l e) λ xs p. leaf l i xs p
  gen-Fresh l (deref e) i =
      Fresh-bind l i (suc i) (gen e (suc i)) _ (gen-Fresh l e (suc i))
        λ ls j h. widen l i j _ (ahead l (suc i) j ls _ h (omega arith))
  gen-Fresh l (gvardef name t size) i =
      any_then l i (copy_name name) _ λ n. leaf l i _ (omega arith)
  gen-Fresh l (gvarref name s) i =
      reference l i (suc i) (gvarref name s) s _ (gen-Fresh l s (suc i))
        λ xs ys k p g. widen l i k _ (around l (suc i) k xs ys _ p g (omega arith))
  gen-Fresh l (literal name k) i = any_then l i (copy_name name) _ λ t. leaf l i _ (
      Plain-append l (data_section ∷ globl_literal k ∷ literal_label k ∷ literal_bytes t)
        (byte (pos 0) ∷ []) (omega (arith, literal_bytes-Plain l t)) (omega arith))
  gen-Fresh l (structdef name members size) i = leaf l i [] (omega arith)
  gen-Fresh l (structref o s) i =
      Plain-then l i (gen_variable (structref o s)) _ (gen_variable-Plain l (structref o s)) λ xs p.
        Fresh-bind l i (suc i) (gen s (suc i)) _ (gen-Fresh l s (suc i))
          λ ys j h. widen l i j _ (behind l (suc i) j xs ys p h)
  gen-Fresh l (structref_ptr o s) i =
      Plain-then l i (gen_variable (structref_ptr o s)) _ (gen_variable-Plain l (structref_ptr o s))
        λ xs p.
          Fresh-bind l i (suc i) (gen s (suc i)) _ (gen-Fresh l s (suc i))
            λ ys j h. widen l i j _ (behind l (suc i) j xs ys p h)
  gen-Fresh l (not e) i =
      Fresh-bind l i (suc i) (gen e (suc i)) _ (gen-Fresh l e (suc i))
        λ ls j h. widen l i j _ (ahead l (suc i) j ls _ h (omega arith))
  gen-Fresh l (cast t e) i = Fresh-widen l i (gen e (suc i)) (gen-Fresh l e (suc i))
  gen-Fresh l (literalref name k) i = leaf l i _ (omega arith)
  gen-Fresh l (binary kind lhs rhs) i =
      Fresh-bind l i (suc i) (gen lhs (suc i)) _ (gen-Fresh l lhs (suc i)) λ a j h.
        Fresh-bind l i j (gen rhs j) _ (gen-Fresh l rhs j) λ b k g. widen l i k _ (
          (ahead l (suc i) k (a ++ b ++ pop rdi ∷ pop rax ∷ operation kind) (push rax ∷ [])
            (ahead l (suc i) k (a ++ b) _ (Numbered-append l (suc i) j k a b h g)
              (omega (arith, operation-Plain l kind)))
            (omega arith)))

  gen_target-Fresh : (l : Label) (n : Node) (i : ℕ) → Fresh l i (gen_target n i)
  gen_target-Fresh l (deref e) i = gen-Fresh l e i
  gen_target-Fresh l (lvar o t s) i =
      reference l i i (lvar o t s) s _ (gen-Fresh l s i) λ xs ys k p g. behind l i k xs ys p g
  gen_target-Fresh l (gvarref name s) i =
      reference l i i (gvarref name s) s _ (gen-Fresh l s i) λ xs ys k p g. behind l i k xs ys p g
  gen_target-Fresh l (structref o s) i =
      reference l i i (structref o s) s _ (gen-Fresh l s i) λ xs ys k p g. behind l i k xs ys p g
  gen_target-Fresh l (structref_ptr o s) i =
      reference l i i (structref_ptr o s) s _ (gen-Fresh l s i)
        λ xs ys k p g. behind l i k xs ys p g
  gen_target-Fresh l (literalref name k) i =
      Plain-then l i (gen_variable (literalref name k)) _ (gen_variable-Plain l (literalref name k))
        λ xs p. Plain-Numbered l i i xs (omega arith) p
  gen_target-Fresh l _ i = tt

  gen_block-Fresh : (l : Label) (ns : Nodes) (i : ℕ) → Fresh l i (gen_block ns i)
  gen_block-Fresh l nil i = Plain-Numbered l i i [] (omega arith) (omega arith)
  gen_block-Fresh l (cons e rest) i =
      Holds-if (λ q. Numbered l i q.1 q.0) (is_null e) _ _
        (Plain-Numbered l i i [] (omega arith) (omega arith))
        (Fresh-bind l i i (gen e i) _ (gen-Fresh l e i) λ a j h.
          Fresh-bind l i j (gen_block rest j) _ (gen_block-Fresh l rest j) λ b k g.
            Numbered-append l i j k a (pop rax ∷ b) h
              (behind l j k (pop rax ∷ []) b (omega arith) g))

  gen_args-Fresh : (l : Label) (ns : Nodes) (i : ℕ) → Holds (FreshArgs l i) (gen_args ns i)
  gen_args-Fresh l nil i = Plain-Numbered l i i [] (omega arith) (omega arith)
  gen_args-Fresh l (cons e rest) i =
      Holds-if (FreshArgs l i) (is_null e) _ _ (Plain-Numbered l i i [] (omega arith) (omega arith))
        (Holds-bind (λ q. Numbered l i q.1 q.0) (FreshArgs l i) (gen e i) _ (gen-Fresh l e i)
          λ q h.
            Holds-bind (FreshArgs l q.1) (FreshArgs l i) (gen_args rest q.1) _
              (gen_args-Fresh l rest q.1) λ r g. Numbered-append l i q.1 r.2 q.0 r.0 h g)

-- Where gen gives code for a tree, no label is defined twice in it, a label that is jumped to is
-- defined, and a label that is defined has a number from the counter given up to below the counter
-- returned, which is no smaller.
pub gen-labels :
    (n : Node) (i j : ℕ) (ls : List Line) (l : Label)
    → gen n i ≡ ok (ls, j)
    → (i ≤ j)
      × (defined l ls ≤ 1)
      × ((jumped l ls ≡ 0) ⊎ (defined l ls ≡ 1))
      × ((defined l ls ≡ 0) ⊎ ((i ≤ index l) × (index l < j)))
gen-labels n i j ls l e = conclude (subst (λ r. Fresh l i r) e (gen-Fresh l n i))
  where
    conclude :
        Numbered l i j ls
        → (i ≤ j)
          × (defined l ls ≤ 1)
          × ((jumped l ls ≡ 0) ⊎ (defined l ls ≡ 1))
          × ((defined l ls ≡ 0) ⊎ ((i ≤ index l) × (index l < j)))
    conclude h = ground (arith, h.ordered, h.before, h.after, h.once, h.closed)
