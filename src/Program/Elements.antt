-- ===== src/Program/Elements.antt =====
-- parser.c and codegen.c on an element of an array of several dimensions.
use mathlib.Core.List.{reverse, reverse_aux, reverse-reverse}
use native.Mathlib.Nat.{mul-pos, mul-le-mul_right}
use cc.Base.{
  ℕ, suc, ◌+◌, ◌*◌, ◌%◌, ◌^◌, ◌≤◌, ◌<◌, ◌≡◌, refl, false, List, [], ◌∷◌, ◌++◌, All, some, codes,
  length, arith, ap, sym, ◌∙◌, lt→ltb,
}
use cc.Base.Int.{ℤ, pos}
use cc.Base.CInt.{mul_int, to_int}
use cc.Base.Outcome.{ok}
use cc.Token.{Token}
use cc.Node.{CType, TypeKind, type, Node, BinaryKind, num, binary, deref, addr}
use cc.Types.{count_arrays, get_element_size, get_size}
use cc.Codegen.Meaning.{eval}
use cc.Machine.{Layout}
use cc.Machine.Word.{Memory}
use cc.Parser
use cc.Parser.{Parser, pure, lift}
use cc.Parser.Declare.{array_of}
use cc.Parser.Declarator.{is_punct}
use cc.Parser.Stmt.{run}
use cc.Parser.Primary.{array_sizes, multiply, index_sum, index_step}
use cc.Parser.Levels.{on}
use cc.Program.Indices.{
  Index, InBounds, InBounds-sizes, sizes_of, count_of, row_major, row_major-lt, index_tokens,
  index_node, index_node-Has, index_sum-node, count-lt,
}

-- The type of an array with the sizes, as declared_lvar makes it.
abbrev pub array_type : List Index → CType → CType
array_type [] t = t
array_type (i ∷ is) t = array_type is (array_of i.size t)

count_arrays-array_type :
    (is : List Index) (k : TypeKind) (text : List ℕ) (len : ℕ) (t : CType) (n : ℕ)
    → count_arrays (array_type is (type k text len t n))
      ≡ length is + count_arrays (type k text len t n)
count_arrays-array_type [] k text len t n = omega arith
count_arrays-array_type (i ∷ is) k text len t n =
    count_arrays-array_type is TypeKind.array [] 0 (type k text len t n) i.size ∙ omega arith

to_int-small : (n : ℕ) → n < 2 ^ 31 → to_int n ≡ pos n
to_int-small n h =
    let word : n % 2 ^ 32 ≡ n = omega arith in rw word (rw (lt→ltb n (2 ^ 31) h) refl)

-- The outermost size, which was declared last, comes first.
array_sizes-array_type :
    (is : List Index) (m : ℕ) (t : CType) (ns : List ℤ)
    → All (λ j. j.size < 2 ^ 31) is
    → array_sizes m t ≡ ok ns
    → array_sizes (length is + m) (array_type is t) ≡ ok (reverse_aux (sizes_of is) ns)
array_sizes-array_type [] m t ns h e = rw (zero_plus m) e
  where
    zero_plus : (m : ℕ) → 0 + m ≡ m
    zero_plus m = omega arith
array_sizes-array_type (i ∷ is) m t ns (lt, h) e =
    let fuel : length (i ∷ is) + m ≡ length is + suc m = omega arith in
    rw fuel (
      array_sizes-array_type is (suc m) (array_of i.size t) (pos i.size ∷ ns) h
        (rw e (rw (to_int-small i.size lt) refl)))

mul_int-small : (a b : ℕ) → a * b < 2 ^ 31 → mul_int (pos a) (pos b) ≡ ok (pos (a * b))
mul_int-small a b h = let none : a * 0 + 0 * b ≡ 0 = omega arith in rw none (ground arith)

multiply-reverse :
    (is : List Index) (ns : List ℤ)
    → All (λ j. 0 < j.size) is
    → count_of is < 2 ^ 31
    → multiply (pos 1) (reverse_aux (sizes_of is) ns) ≡ multiply (pos (count_of is)) ns
multiply-reverse [] ns h lt = refl
multiply-reverse (i ∷ is) ns (p, h) lt =
    multiply-reverse is (pos i.size ∷ ns) h (count-lt i is p lt)
    ∙ rw (mul_int-small (count_of is) i.size lt) refl

count-pos : (is : List Index) → All (λ j. 0 < j.size) is → 0 < count_of is
count-pos [] h = omega arith
count-pos (i ∷ is) (p, h) = mul-pos (count-pos is h) p

sizes-small :
    (is : List Index)
    → All (λ j. 0 < j.size) is
    → count_of is < 2 ^ 31
    → All (λ j. j.size < 2 ^ 31) is
sizes-small [] h lt = tt
sizes-small (i ∷ is) (p, h) lt = (
  omega (arith, mul-le-mul_right {m = 1} {n = count_of is} i.size (count-pos is h)),
  sizes-small is h (count-lt i is p lt),
)

-- The bytes from an element to the next: eight, but one in an array of characters in one dimension.
abbrev pub stride : List Index → TypeKind → ℕ
stride [] TypeKind.char = 1
stride is k = 8

get_size-type :
    (k : TypeKind) (text : List ℕ) (len : ℕ) (t : CType) (n : ℕ)
    → get_size (type k text len t n) ≡ ok (stride [] k)
unfolding get_size
get_size-type TypeKind.int text len t n = refl
get_size-type TypeKind.ptr text len t n = refl
get_size-type TypeKind.array text len t n = refl
get_size-type TypeKind.char text len t n = refl
get_size-type TypeKind.bool text len t n = refl
get_size-type TypeKind.struct text len t n = refl
get_size-type TypeKind.void text len t n = refl

stride-cons : (j : Index) (is : List Index) (k : TypeKind) → stride (j ∷ is) k ≡ 8
stride-cons j is TypeKind.char = refl
stride-cons j is TypeKind.int = refl
stride-cons j is TypeKind.ptr = refl
stride-cons j is TypeKind.array = refl
stride-cons j is TypeKind.bool = refl
stride-cons j is TypeKind.struct = refl
stride-cons j is TypeKind.void = refl

stride-array : (is : List Index) → stride is TypeKind.array ≡ 8
stride-array [] = refl
stride-array (j ∷ is) = refl

-- A type with an element's size.
abbrev IsArray : ℕ → CType → Type 0
IsArray size t = (n : ℕ) × (t' : CType) × (t ≡ array_of n t') × (get_element_size t ≡ ok size)

array_type-IsArray :
    (is : List Index) (i : Index) (k : TypeKind) (text : List ℕ) (len : ℕ) (t : CType) (n : ℕ)
    → IsArray (stride is k) (array_type (i ∷ is) (type k text len t n))
unfolding get_element_size
array_type-IsArray [] i k text len t n =
    (i.size, type k text len t n, refl, get_size-type k text len t n)
array_type-IsArray (j ∷ is) i k text len t n =
    let (m, t', same, size) =
      array_type-IsArray is j TypeKind.array [] 0 (type k text len t n) i.size in
    (m, t', same, size ∙ ap ok (stride-array is ∙ sym (stride-cons j is k)))

-- What index_step makes of the parts.
index_step-array :
    (rec : Parser.Expr.Rec) (m : ℕ) (t : CType) (node index : Node) (s s' : Parser) (ns : List ℤ)
    (total : ℤ) (size : ℕ)
    → array_sizes (count_arrays (array_of m t)) (array_of m t) ≡ ok ns
    → multiply (pos 1) ns ≡ ok total
    → index_sum rec (reverse ns) total (num (pos 0)) s ≡ ok (index, s')
    → get_element_size (array_of m t) ≡ ok size
    → index_step rec (array_of m t) node s
      ≡ ok (
        deref (binary BinaryKind.add (addr node) (binary BinaryKind.mul (num (pos size)) index)),
        s',
      )
unfolding index_step Parser.◌>>=◌ lift pure
index_step-array rec m t node index s s' ns total size e e' e'' k =
    rw e (rw e' (rw e'' (rw k refl)))

-- The same by the type.
index_step-IsArray :
    (rec : Parser.Expr.Rec) (size : ℕ) (t : CType) (node index : Node) (s s' : Parser) (ns : List ℤ)
    (total : ℤ)
    → IsArray size t
    → array_sizes (count_arrays t) t ≡ ok ns
    → multiply (pos 1) ns ≡ ok total
    → index_sum rec (reverse ns) total (num (pos 0)) s ≡ ok (index, s')
    → index_step rec t node s
      ≡ ok (
        deref (binary BinaryKind.add (addr node) (binary BinaryKind.mul (num (pos size)) index)),
        s',
      )
index_step-IsArray rec size t node index s s' ns total (m, t', same, k) e e' e'' =
    rw same
      (index_step-array rec m t' node index s s' ns total size (rw same at e) e' e'' (rw same at k))

-- For an array of a type that is no array, with the sizes declared, of less than 2 to the 31 elements, let
-- the indices behind its first bracket be arithmetic expressions that are each less than the size of their dimension, spelled
-- with a space behind each token and the other brackets between them, before a token that is no `[`. Then
-- they are read, with fuel for the tokens, as what is at the array's address and a multiple of the stride:
-- eight bytes, or one in an array of characters in one dimension. The value of the factor is the number of
-- the element, the last index moving fastest, which is less than the number of elements.
pub index_step-row_major :
    (w : Layout) (frame : ℕ) (mem : Memory) (k : TypeKind) (name : List ℕ) (len : ℕ) (u : CType)
    (m : ℕ) (i : Index) (is : List Index) (rest : List ℕ) (f : ℕ) (s : Parser) (node : Node)
    (t : Token) (ts : List Token)
    → count_arrays (type k name len u m) ≡ 0
    → All InBounds (i ∷ is)
    → count_of (i ∷ is) < 2 ^ 31
    → is_punct (codes "[") t ≡ false
    → 16 * length (index_tokens i is rest) ≤ f
    → (n : Node) × (index_step
          (run f)
          (array_type (i ∷ is) (type k name len u m))
          node
          (on s (index_tokens i is rest ++ t ∷ ts))
        ≡ ok (
          deref (
              binary BinaryKind.add
                (addr node)
                (binary BinaryKind.mul (num (pos (stride is k))) n)),
          on s (t ∷ ts),
        ))
      × (eval w frame n mem ≡ some (row_major (i ∷ is), mem))
      × (row_major (i ∷ is) < count_of (i ∷ is))
unfolding eval
index_step-row_major w frame mem k name len u m i is rest f s node t ts none h lt e le =
    let all = i ∷ is in
    let sizes = InBounds-sizes all h in
    let base = type k name len u m in
    let n = index_node all (num (pos 0)) in
    let here = on s (index_tokens i is rest ++ t ∷ ts) in
    let count : count_arrays (array_type all base) ≡ length all + 0 =
      count_arrays-array_type all k name len u m ∙ ap (λ (c : ℕ). length all + c) none in
    let listed : array_sizes (count_arrays (array_type all base)) (array_type all base)
        ≡ ok (reverse (sizes_of all)) =
      rw count (array_sizes-array_type all 0 base [] (sizes-small all sizes lt) refl) in
    let read : index_sum (run f) (reverse (reverse (sizes_of all))) (pos (count_of all))
          (num (pos 0)) here
        ≡ ok (n, on s (t ∷ ts)) =
      rw (reverse-reverse (sizes_of all))
        (index_sum-node is i rest f s (num (pos 0)) t ts sizes lt e le) in
    (
      n,
      index_step-IsArray (run f) (stride is k) (array_type all base) node n here (on s (t ∷ ts))
          (reverse (sizes_of all)) (pos (count_of all)) (array_type-IsArray is i k name len u m)
          listed (multiply-reverse all [] sizes lt) read,
      index_node-Has w frame mem all (num (pos 0)) 0 refl h (omega arith)
          ∙ ap (λ (v : ℕ). some (v, mem)) (omega arith),
      row_major-lt all h,
    )
