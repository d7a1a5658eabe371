-- ===== src/Codegen/Ends.antt =====
-- gen needs no fuel: where it fails, the source does.
use cc.Base.{ℕ, zero, suc, List, [], arith, if◌then◌else◌}
use cc.Base.Int.{ℤ}
use cc.Base.Outcome.{Result, ◌>>=◌, Fueled, Fueled-bind, Fueled-if}
use cc.Util.{mysubstr}
use cc.Node.{
  Name, Node, Nodes, null, num, binary, assign, lvar, gvarref, literalref, structref, structref_ptr,
  return, while, if_only, if_else, for, block, funcall, funcdef, addr, deref, not, cast, gvardef,
  literal, structdef, nil, cons, is_struct_ref,
}
use cc.Asm.{Line}
use cc.Codegen.{
  copy_name, gen_variable, arg_reg, pop_args, store_params, count_nodes, variable_space,
}
use cc.Codegen.Gen.{gen, gen_target, gen_block, gen_args, emit, is_null}

copy_name-Fueled : (n : Name) → Fueled (copy_name n)
unfolding copy_name mysubstr
copy_name-Fueled n = ground arith

gen_variable-Fueled : (e : Node) → Fueled (gen_variable e)
unfolding gen_variable
gen_variable-Fueled (gvarref n s) = Fueled-bind (copy_name n) _ (copy_name-Fueled n) λ t. tt
gen_variable-Fueled (lvar o t s) = tt
gen_variable-Fueled (literalref n k) = tt
gen_variable-Fueled (structref o s) = tt
gen_variable-Fueled (structref_ptr o s) = tt
gen_variable-Fueled _ = λ e. cc

arg_reg-Fueled : (i : ℕ) → Fueled (arg_reg i)
arg_reg-Fueled (suc (suc (suc (suc (suc (suc i)))))) = λ e. cc
arg_reg-Fueled _ = tt

pop_args-Fueled : (n : ℕ) → Fueled (pop_args n)
unfolding pop_args
pop_args-Fueled zero = tt
pop_args-Fueled (suc i) =
    Fueled-bind (arg_reg i) _ (arg_reg-Fueled i)
      λ r. Fueled-bind (pop_args i) _ (pop_args-Fueled i) λ rest. tt

store_params-Fueled : (i : ℕ) (ps : Nodes) → Fueled (store_params i ps)
unfolding store_params
store_params-Fueled i nil = tt
store_params-Fueled i (cons p ps) =
    Fueled-bind (gen_variable p) _ (gen_variable-Fueled p) λ address.
      Fueled-bind (arg_reg i) _ (arg_reg-Fueled i)
        λ r. Fueled-bind (store_params (suc i) ps) _ (store_params-Fueled (suc i) ps) λ rest. tt

variable_space-Fueled : (n : ℕ) (offset : ℤ) → Fueled (variable_space n offset)
unfolding variable_space
variable_space-Fueled n offset = ground arith

-- The reference to a variable, and what follows it.
reference-Fueled :
    {A : Type 0} (v s : Node) (j : ℕ) (f : List Line → List Line × ℕ → Result A)
    → Fueled (gen s j)
    → ((xs : List Line) (q : List Line × ℕ) → Fueled (f xs q))
    → Fueled (gen_variable v >>= λ xs. (if is_struct_ref s then gen s j else emit [] j) >>= f xs)
reference-Fueled v s j f h k =
    Fueled-bind (gen_variable v) _ (gen_variable-Fueled v)
      λ xs. Fueled-bind _ _ (Fueled-if (is_struct_ref s) (gen s j) (emit [] j) h tt) λ q. k xs q

mutual
  unfolding gen

  pub gen-Fueled : (e : Node) (i : ℕ) → Fueled (gen e i)
  gen-Fueled null i = tt
  gen-Fueled (num v) i = tt
  gen-Fueled (lvar o t s) i =
      reference-Fueled (lvar o t s) s (suc i) _ (gen-Fueled s (suc i)) λ xs q. tt
  gen-Fueled (assign target value) i =
      Fueled-bind (gen_target target (suc i)) _ (gen_target-Fueled target (suc i))
        λ q. Fueled-bind (gen value q.1) _ (gen-Fueled value q.1) λ r. tt
  gen-Fueled (return e) i =
      Fueled-if (is_null e) _ _ tt (Fueled-bind (gen e (suc i)) _ (gen-Fueled e (suc i)) λ q. tt)
  gen-Fueled (while test body) i =
      Fueled-bind (gen test (suc i)) _ (gen-Fueled test (suc i))
        λ q. Fueled-bind (gen body q.1) _ (gen-Fueled body q.1) λ r. tt
  gen-Fueled (if_else test then_part else_part) i =
      Fueled-bind (gen test (suc i)) _ (gen-Fueled test (suc i)) λ q.
        Fueled-bind (gen then_part q.1) _ (gen-Fueled then_part q.1)
          λ r. Fueled-bind (gen else_part r.1) _ (gen-Fueled else_part r.1) λ u. tt
  gen-Fueled (if_only test body) i =
      Fueled-bind (gen test (suc i)) _ (gen-Fueled test (suc i))
        λ q. Fueled-bind (gen body q.1) _ (gen-Fueled body q.1) λ r. tt
  gen-Fueled (for init test upd body) i =
      Fueled-bind (gen init (suc i)) _ (gen-Fueled init (suc i)) λ q.
        Fueled-bind _ _ (Fueled-if (is_null test) _ (gen test q.1) tt (gen-Fueled test q.1)) λ r.
          Fueled-bind (gen body r.1) _ (gen-Fueled body r.1)
            λ u. Fueled-bind (gen upd u.1) _ (gen-Fueled upd u.1) λ v. tt
  gen-Fueled (block children) i =
      Fueled-bind (gen_block children (suc i)) _ (gen_block-Fueled children (suc i)) λ q. tt
  gen-Fueled (funcall name args) i = Fueled-bind (copy_name name) _ (copy_name-Fueled name) λ t.
      Fueled-bind (gen_args args (suc i)) _ (gen_args-Fueled args (suc i))
        λ q. Fueled-bind (pop_args q.1) _ (pop_args-Fueled q.1) λ pops. tt
  gen-Fueled (funcdef name params body offset) i =
      Fueled-bind (copy_name name) _ (copy_name-Fueled name) λ t.
        Fueled-bind (variable_space (count_nodes params) offset) _
          (variable_space-Fueled (count_nodes params) offset)
          λ space.
            Fueled-bind (store_params 0 params) _ (store_params-Fueled 0 params)
              λ stores. Fueled-bind (gen body (suc i)) _ (gen-Fueled body (suc i)) λ q. tt
  gen-Fueled (addr e) i = Fueled-bind (gen_variable e) _ (gen_variable-Fueled e) λ address. tt
  gen-Fueled (deref e) i = Fueled-bind (gen e (suc i)) _ (gen-Fueled e (suc i)) λ q. tt
  gen-Fueled (gvardef name t size) i =
      Fueled-bind (copy_name name) _ (copy_name-Fueled name) λ n. tt
  gen-Fueled (gvarref name s) i =
      reference-Fueled (gvarref name s) s (suc i) _ (gen-Fueled s (suc i)) λ xs q. tt
  gen-Fueled (literal name k) i = Fueled-bind (copy_name name) _ (copy_name-Fueled name) λ t. tt
  gen-Fueled (structdef name members size) i = tt
  gen-Fueled (structref o s) i =
      Fueled-bind (gen_variable (structref o s)) _ (gen_variable-Fueled (structref o s))
        λ address. Fueled-bind (gen s (suc i)) _ (gen-Fueled s (suc i)) λ q. tt
  gen-Fueled (structref_ptr o s) i =
      Fueled-bind (gen_variable (structref_ptr o s)) _ (gen_variable-Fueled (structref_ptr o s))
        λ address. Fueled-bind (gen s (suc i)) _ (gen-Fueled s (suc i)) λ q. tt
  gen-Fueled (not e) i = Fueled-bind (gen e (suc i)) _ (gen-Fueled e (suc i)) λ q. tt
  gen-Fueled (cast t e) i = gen-Fueled e (suc i)
  gen-Fueled (literalref name k) i = tt
  gen-Fueled (binary kind lhs rhs) i =
      Fueled-bind (gen lhs (suc i)) _ (gen-Fueled lhs (suc i))
        λ q. Fueled-bind (gen rhs q.1) _ (gen-Fueled rhs q.1) λ r. tt

  gen_target-Fueled : (e : Node) (i : ℕ) → Fueled (gen_target e i)
  gen_target-Fueled (deref e) i = gen-Fueled e i
  gen_target-Fueled (lvar o t s) i = reference-Fueled (lvar o t s) s i _ (gen-Fueled s i) λ xs q. tt
  gen_target-Fueled (gvarref name s) i =
      reference-Fueled (gvarref name s) s i _ (gen-Fueled s i) λ xs q. tt
  gen_target-Fueled (literalref name k) i =
      Fueled-bind (gen_variable (literalref name k)) _ (gen_variable-Fueled (literalref name k))
        λ address. tt
  gen_target-Fueled (structref o s) i =
      reference-Fueled (structref o s) s i _ (gen-Fueled s i) λ xs q. tt
  gen_target-Fueled (structref_ptr o s) i =
      reference-Fueled (structref_ptr o s) s i _ (gen-Fueled s i) λ xs q. tt
  gen_target-Fueled _ i = λ e. cc

  gen_block-Fueled : (es : Nodes) (i : ℕ) → Fueled (gen_block es i)
  gen_block-Fueled nil i = tt
  gen_block-Fueled (cons e rest) i = Fueled-if (is_null e) _ _ tt (
      Fueled-bind (gen e i) _ (gen-Fueled e i)
        λ q. Fueled-bind (gen_block rest q.1) _ (gen_block-Fueled rest q.1) λ r. tt)

  gen_args-Fueled : (es : Nodes) (i : ℕ) → Fueled (gen_args es i)
  gen_args-Fueled nil i = tt
  gen_args-Fueled (cons e rest) i = Fueled-if (is_null e) _ _ tt (
      Fueled-bind (gen e i) _ (gen-Fueled e i)
        λ q. Fueled-bind (gen_args rest q.1) _ (gen_args-Fueled rest q.1) λ r. tt)
