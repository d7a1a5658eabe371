-- ===== src/Codegen/Pieces.antt =====
-- The pieces of the generated code, as to labels: those with none, and those around numbered ones.
use cc.Base.{
  ℕ, zero, suc, Bool, true, false, List, [], ◌∷◌, ◌++◌, arith, if◌then◌else◌, inl, inr, ◌||◌,
  Bool-cases,
}
use cc.Base.Outcome.{Result, ok, err, ◌>>=◌}
use cc.Node.{
  TypeKind, CType, BinaryKind, Node, Nodes, lvar, gvarref, literalref, structref, structref_ptr,
  nil, cons, has_kind,
}
use cc.Asm.{Line, Label, rax, push, pop}
use cc.Codegen.{
  Gen, copy_name, gen_variable, arg_reg, pop_args, store_params, literal_bytes, operation,
}
use cc.Codegen.Gen.{emit, load_of}
use cc.Codegen.Labels.{counts, Numbered, Plain, Numbered-append, Numbered-widen, Plain-Numbered}

-- A result's value, if it has one, has a property.
abbrev pub Holds {ℓ κ} : {A : Type ℓ} → (A → Type κ) → Result A → Type κ
Holds P (ok a) = P a
Holds P (err e) = Unit

pub Holds-bind {ℓ κ ℓ' κ'} :
    {A : Type ℓ} {B : Type κ} (P : A → Type ℓ') (Q : B → Type κ') (r : Result A) (f : A → Result B)
    → Holds P r
    → ((a : A) → P a → Holds Q (f a))
    → Holds Q (r >>= f)
Holds-bind P Q (ok a) f h k = k a h
Holds-bind P Q (err e) f h k = tt

pub Holds-if {ℓ κ} :
    {A : Type ℓ} (P : A → Type κ) (b : Bool) (r s : Result A)
    → Holds P r
    → Holds P s
    → Holds P (if b then r else s)
Holds-if P true r s h k = h
Holds-if P false r s h k = k

pub Holds-any {ℓ} : {A : Type ℓ} (r : Result A) → Holds (λ _. Unit {0}) r
Holds-any (ok a) = tt
Holds-any (err e) = tt

module _ (l : Label) where
  abbrev pub PlainOk : Result (List Line) → Type 0
  PlainOk = Holds (Plain l)

  pub Plain-append : (xs ys : List Line) → Plain l xs → Plain l ys → Plain l (xs ++ ys)
  Plain-append xs ys h k = omega counts

  pub gen_variable-Plain : (n : Node) → PlainOk (gen_variable n)
  unfolding gen_variable
  gen_variable-Plain (lvar o t s) = omega arith
  gen_variable-Plain (gvarref n s) =
      Holds-bind (λ _. Unit {0}) (Plain l) (copy_name n) _ (Holds-any (copy_name n))
        λ t _. omega arith
  gen_variable-Plain (literalref n k) = omega arith
  gen_variable-Plain (structref_ptr o s) = omega arith
  gen_variable-Plain (structref o s) = omega arith
  gen_variable-Plain _ = tt

  pub pop_args-Plain : (n : ℕ) → PlainOk (pop_args n)
  unfolding pop_args
  pop_args-Plain zero = omega arith
  pop_args-Plain (suc n) =
      Holds-bind (λ _. Unit {0}) (Plain l) (arg_reg n) _ (Holds-any (arg_reg n))
        λ r _.
          Holds-bind (Plain l) (Plain l) (pop_args n) _ (pop_args-Plain n) λ rest h. omega arith

  pub store_params-Plain : (i : ℕ) (ps : Nodes) → PlainOk (store_params i ps)
  unfolding store_params
  store_params-Plain i nil = omega arith
  store_params-Plain i (cons p ps) =
      Holds-bind (Plain l) (Plain l) (gen_variable p) _ (gen_variable-Plain p) λ address a.
        Holds-bind (λ _. Unit {0}) (Plain l) (arg_reg i) _ (Holds-any (arg_reg i))
          λ r _.
            Holds-bind (Plain l) (Plain l) (store_params (suc i) ps) _
              (store_params-Plain (suc i) ps) λ rest h. omega counts

  pub literal_bytes-Plain : (t : List ℕ) → Plain l (literal_bytes t)
  unfolding literal_bytes
  literal_bytes-Plain [] = omega arith
  literal_bytes-Plain (c ∷ []) = omega arith
  literal_bytes-Plain (c ∷ d ∷ t) =
      ground (arith, literal_bytes-Plain t, literal_bytes-Plain (d ∷ t))

  pub operation-Plain : (k : BinaryKind) → Plain l (operation k)
  operation-Plain BinaryKind.add = omega arith
  operation-Plain _ = omega arith

  pub load_of-Plain : (t : CType) → Plain l (pop rax ∷ load_of t ∷ push rax ∷ [])
  load_of-Plain t = elim (Bool-cases (has_kind t TypeKind.char || has_kind t TypeKind.bool)) [
    | inl e ↦ rw e (omega arith)
    | inr e ↦ rw e (omega arith)
  ]

  abbrev pub Fresh : ℕ → Gen → Type 0
  Fresh i = Holds (λ r. Numbered l i r.1 r.0)

  pub Fresh-bind :
      (i i' : ℕ) (r : Gen) (f : List Line × ℕ → Gen)
      → Fresh i' r
      → ((ls : List Line) (j : ℕ) → Numbered l i' j ls → Fresh i (f (ls, j)))
      → Fresh i (r >>= f)
  Fresh-bind i i' r f h k =
      Holds-bind (λ q. Numbered l i' q.1 q.0) (λ q. Numbered l i q.1 q.0) r f h λ q g. k q.0 q.1 g

  pub Fresh-if : (i : ℕ) (b : Bool) (r : Gen) → Fresh i r → Fresh i (if b then r else emit [] i)
  Fresh-if i true r h = h
  Fresh-if i false r h = Plain-Numbered l i i [] (omega arith) (omega arith)

  -- Plain lines before and behind numbered ones.
  pub around :
      (i j : ℕ) (xs ys zs : List Line)
      → Plain l xs
      → Numbered l i j ys
      → Plain l zs
      → Numbered l i j (xs ++ ys ++ zs)
  around i j xs ys zs h g k =
      Numbered-append l i j j (xs ++ ys) zs
        (Numbered-append l i i j xs ys (Plain-Numbered l i i xs (omega arith) h) g)
        (Plain-Numbered l j j zs (omega arith) k)

  pub ahead :
      (i j : ℕ) (ys zs : List Line) → Numbered l i j ys → Plain l zs → Numbered l i j (ys ++ zs)
  ahead i j ys zs g k = Numbered-append l i j j ys zs g (Plain-Numbered l j j zs (omega arith) k)

  pub leaf : (i : ℕ) (ls : List Line) → Plain l ls → Numbered l i (suc i) ls
  leaf i ls h = Plain-Numbered l i (suc i) ls (omega arith) h

  pub widen : (i j : ℕ) (ls : List Line) → Numbered l (suc i) j ls → Numbered l i j ls
  widen i j ls h = Numbered-widen l i (suc i) j ls (omega arith) h

  pub behind :
      (i j : ℕ) (xs ys : List Line) → Plain l xs → Numbered l i j ys → Numbered l i j (xs ++ ys)
  behind i j xs ys h g = Numbered-append l i i j xs ys (Plain-Numbered l i i xs (omega arith) h) g

  pub Fresh-widen : (i : ℕ) (r : Gen) → Fresh (suc i) r → Fresh i r
  Fresh-widen i (ok (ls, j)) h = widen i j ls h
  Fresh-widen i (err e) h = tt

  pub Fresh-else :
      (i : ℕ) (b : Bool) (r : Gen) (ls : List Line)
      → Plain l ls
      → Fresh i r
      → Fresh i (if b then emit ls i else r)
  Fresh-else i true r ls p h = Plain-Numbered l i i ls (omega arith) p
  Fresh-else i false r ls p h = h
