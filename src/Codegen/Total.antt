-- ===== src/Codegen/Total.antt =====
-- gen gives code for every expression whose names fit its buffer, and that code is right.
use cc.Base.{
  ℕ, suc, ◌≡◌, refl, Bool, true, ◌&&◌, List, [], arith, if◌then◌else◌, ltb, leb, length, take,
  and-true, ap, ◌∙◌,
}
use mathlib.Core.Path.{subst}
use cc.Base.Outcome.{Result, ok, ◌>>=◌}
use cc.Node.{
  Name, Node, null, num, binary, assign, lvar, gvarref, literalref, structref, structref_ptr, addr,
  deref, cast, is_struct_ref,
}
use cc.Asm.{Line}
use cc.Codegen.{copy_name, gen_variable}
use cc.Codegen.Gen.{gen, gen_target, emit}
use cc.Codegen.Pieces.{Holds}
use cc.Codegen.Meaning.{eval, is_chain, is_expr}
use cc.Codegen.Runs.{Registers, state, IsBytes, Agrees}
use cc.Codegen.Addresses.{Correct}
use cc.Codegen.Correct.{gen-Correct}
use cc.Machine.{Layout, exec}
use cc.Machine.Word.{Memory}

-- A name that lies in its text and fits the buffer `t` of gen.
abbrev pub fits : Name → Bool
fits n = ltb n.len 64 && leb n.len (length n.text)

-- The names of an expression's global variables.
abbrev pub names_fit : Node → Bool
names_fit (gvarref n s) = fits n
names_fit (binary k l r) = names_fit l && names_fit r
names_fit (assign l r) = names_fit l && names_fit r
names_fit (addr e) = names_fit e
names_fit (deref e) = names_fit e
names_fit (Node.not e) = names_fit e
names_fit (cast t e) = names_fit e
names_fit _ = true

abbrev Succeeds {ℓ} : {A : Type ℓ} → Result A → Type ℓ
Succeeds {A = A} r = (a : A) × (r ≡ ok a)

Succeeds-bind {ℓ κ} :
    {A : Type ℓ} {B : Type κ} (r : Result A) (f : A → Result B)
    → Succeeds r
    → ((a : A) → Succeeds (f a))
    → Succeeds (r >>= f)
Succeeds-bind r f (a, e) k = let (b, e') = k a in (b, ap (λ q. q >>= f) e ∙ e')

copy_name-Succeeds : (n : Name) → fits n ≡ true → Succeeds (copy_name n)
unfolding copy_name
copy_name-Succeeds n h = (take n.len n.text, ground arith)

gvarref-Succeeds : (n : Name) (s : Node) → fits n ≡ true → Succeeds (gen_variable (gvarref n s))
unfolding gen_variable
gvarref-Succeeds n s h = Succeeds-bind (copy_name n) _ (copy_name-Succeeds n h) λ t. (_, refl)

chain-Succeeds : (s : Node) (i : ℕ) → is_chain s ≡ true → Succeeds (gen s i)
unfolding gen gen_variable
chain-Succeeds null i h = (_, refl)
chain-Succeeds (structref o s) i h =
    Succeeds-bind (gen s (suc i)) _ (chain-Succeeds s (suc i) h) λ r. (_, refl)
chain-Succeeds (structref_ptr o s) i h =
    Succeeds-bind (gen s (suc i)) _ (chain-Succeeds s (suc i) h) λ r. (_, refl)
chain-Succeeds _ i h = cc

member-Succeeds :
    (s : Node) (i : ℕ)
    → is_chain s ≡ true
    → Succeeds (if is_struct_ref s then gen s i else emit [] i)
member-Succeeds null i h = (_, refl)
member-Succeeds (structref o s) i h = chain-Succeeds (structref o s) i h
member-Succeeds (structref_ptr o s) i h = chain-Succeeds (structref_ptr o s) i h
member-Succeeds _ i h = cc

mutual
  unfolding gen gen_variable

  gen-Succeeds : (e : Node) (i : ℕ) → is_expr e ≡ true → names_fit e ≡ true → Succeeds (gen e i)
  gen-Succeeds (num v) i h n = (_, refl)
  gen-Succeeds (lvar o t s) i h n =
      Succeeds-bind (if is_struct_ref s then gen s (suc i) else emit [] (suc i)) _
        (member-Succeeds s (suc i) h) λ r. (_, refl)
  gen-Succeeds (gvarref m s) i h n =
      Succeeds-bind (gen_variable (gvarref m s)) _ (gvarref-Succeeds m s n) λ xs.
        Succeeds-bind (if is_struct_ref s then gen s (suc i) else emit [] (suc i)) _
          (member-Succeeds s (suc i) h) λ r. (_, refl)
  gen-Succeeds (binary k l r) i h n =
      let (hl, hr) = and-true (is_expr l) (is_expr r) h in
      let (nl, nr) = and-true (names_fit l) (names_fit r) n in
      Succeeds-bind (gen l (suc i)) _ (gen-Succeeds l (suc i) hl nl)
        λ q. Succeeds-bind (gen r q.1) _ (gen-Succeeds r q.1 hr nr) λ q'. (_, refl)
  gen-Succeeds (assign (lvar o t s) e) i h n =
      let (hs, he) = and-true (is_chain s) (is_expr e) h in
      Succeeds-bind (gen_target (lvar o t s) (suc i)) _
        (Succeeds-bind (if is_struct_ref s then gen s (suc i) else emit [] (suc i)) _
          (member-Succeeds s (suc i) hs) λ r. (_, refl))
        λ q. Succeeds-bind (gen e q.1) _ (gen-Succeeds e q.1 he n) λ q'. (_, refl)
  gen-Succeeds (assign (gvarref m s) e) i h n =
      let (hs, he) = and-true (is_chain s) (is_expr e) h in
      let (nm, ne) = and-true (fits m) (names_fit e) n in
      Succeeds-bind (gen_target (gvarref m s) (suc i)) _
        (Succeeds-bind (gen_variable (gvarref m s)) _ (gvarref-Succeeds m s nm) λ xs.
          Succeeds-bind (if is_struct_ref s then gen s (suc i) else emit [] (suc i)) _
            (member-Succeeds s (suc i) hs) λ r. (_, refl))
        λ q. Succeeds-bind (gen e q.1) _ (gen-Succeeds e q.1 he ne) λ q'. (_, refl)
  gen-Succeeds (assign (deref a) e) i h n =
      let (ha, he) = and-true (is_expr a) (is_expr e) h in
      let (na, ne) = and-true (names_fit a) (names_fit e) n in
      Succeeds-bind (gen a (suc i)) _ (gen-Succeeds a (suc i) ha na)
        λ q. Succeeds-bind (gen e q.1) _ (gen-Succeeds e q.1 he ne) λ q'. (_, refl)
  gen-Succeeds (addr (lvar o t null)) i h n = (_, refl)
  gen-Succeeds (addr (gvarref m null)) i h n =
      Succeeds-bind (gen_variable (gvarref m null)) _ (gvarref-Succeeds m null n) λ xs. (_, refl)
  gen-Succeeds (addr (literalref m k)) i h n = (_, refl)
  gen-Succeeds (deref e) i h n =
      Succeeds-bind (gen e (suc i)) _ (gen-Succeeds e (suc i) h n) λ q. (_, refl)
  gen-Succeeds (Node.not e) i h n =
      Succeeds-bind (gen e (suc i)) _ (gen-Succeeds e (suc i) h n) λ q. (_, refl)
  gen-Succeeds (cast t e) i h n = gen-Succeeds e (suc i) h n
  gen-Succeeds _ i h n = cc

-- gen compiles every expression whose names fit, from any counter; and wherever the code is run, with
-- any registers, stack and memory of bytes, it leaves the expression's value on the stack, and the
-- memory that the expression's assignments make, with the frame and the stack below unchanged; or it
-- traps, if a division of the expression traps.
pub gen-runs :
    (w : Layout) (e : Node) (i frame : ℕ) (g : Registers) (stack : List ℕ) (mem : Memory)
    → is_expr e ≡ true
    → names_fit e ≡ true
    → IsBytes mem
    → (ls : List Line) × (j : ℕ) × (gen e i ≡ ok (ls, j))
      × Agrees frame stack (eval w frame e mem) (exec w ls (state g frame stack mem))
gen-runs w e i frame g stack mem h n b =
    let (r, made) = gen-Succeeds e i h n in
    let correct = subst (Holds (Correct w frame e)) made (gen-Correct w frame e i h) in
    (r.0, r.1, made, correct g stack mem b)
