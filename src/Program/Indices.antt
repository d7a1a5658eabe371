-- ===== src/Program/Indices.antt =====
-- parser.c and codegen.c on the indices of an array of several dimensions.
use native.Mathlib.Nat.{mul-div_cancel, mul-le-mul_left, mul-le-mul_right, suc-mul, mul_comm}
use cc.Base.{
  ℕ, suc, ◌+◌, ◌*◌, ◌%◌, ◌^◌, ◌≤◌, ◌<◌, ◌≡◌, refl, false, List, [], ◌∷◌, ◌++◌, All, some, codes,
  length, arith, length-append, append_assoc, ap, ◌∙◌, lt→ltb, ◌==◌,
}
use cc.Base.Int.{ℤ, pos}
use cc.Base.CInt.{div_int}
use cc.Base.Outcome.{ok}
use cc.Token.{Token, new_token, reserved}
use cc.Node.{Node, BinaryKind, num, binary}
use cc.Codegen.Meaning.{eval, operate}
use cc.Cursor.{consume, expect}
use cc.Machine.{Layout}
use cc.Machine.Word.{add_word, mul_word, Memory}
use cc.Parser
use cc.Parser.{Parser, pure, lift, reads, consumes, expects}
use cc.Parser.Declarator.{is_punct}
use cc.Parser.Stmt.{run}
use cc.Parser.Primary.{index_sum}
use cc.Parser.Print.{Expr, tree, spell, print}
use cc.Parser.Levels.{on}
use cc.Parser.Roundtrip.{run-equality}
use cc.Program.Arithmetic.{value, tree-Has, Has}

-- An index of a dimension, with its value.
pub record Index : Type 0 where
  pub size : ℕ
  pub expr : Expr
  pub at : ℕ

abbrev pub InBounds : Index → Type 0
InBounds i = (i.at < i.size) × (value i.expr ≡ some i.at)

abbrev pub sizes_of : List Index → List ℤ
sizes_of [] = []
sizes_of (i ∷ is) = pos i.size ∷ sizes_of is

-- The number of elements.
abbrev pub count_of : List Index → ℕ
count_of [] = 1
count_of (i ∷ is) = count_of is * i.size

-- The number of the element, the last index moving fastest.
abbrev pub row_major : List Index → ℕ
row_major [] = 0
row_major (i ∷ is) = i.at * count_of is + row_major is

-- A bracket, in front of a text.
abbrev bracket : ℕ → List ℕ → Token
bracket c rest = new_token reserved (c ∷ rest) 1

-- The text of the indices behind the first bracket, and the rest.
abbrev pub index_text : Index → List Index → List ℕ → List ℕ
index_text i [] rest = spell 4 i.expr (b']' ∷ rest)
index_text i (j ∷ is) rest = spell 4 i.expr (b']' ∷ b'[' ∷ index_text j is rest)

-- The tokens of that text, without those of the rest.
abbrev pub index_tokens : Index → List Index → List ℕ → List Token
index_tokens i [] rest = print 4 i.expr (b']' ∷ rest) ++ bracket b']' rest ∷ []
index_tokens i (j ∷ is) rest =
    let later = index_text j is rest in
    print 4 i.expr (b']' ∷ b'[' ∷ later)
    ++ bracket b']' (b'[' ∷ later) ∷ bracket b'[' later ∷ index_tokens j is rest

abbrev pub index_node : List Index → Node → Node
index_node [] node = node
index_node (i ∷ is) node =
    index_node is
      (binary BinaryKind.add node (binary BinaryKind.mul (tree i.expr) (num (pos (count_of is)))))

-- The elements up to an index.
at-count :
    (i : Index) (is : List Index)
    → i.at < i.size
    → i.at * count_of is + count_of is ≤ count_of (i ∷ is)
at-count i is lt = omega (
  arith,
  mul-le-mul_right {m = suc i.at} {n = i.size} (count_of is) lt,
  suc-mul i.at (count_of is),
  mul_comm i.size (count_of is),
)

pub row_major-lt : (is : List Index) → All InBounds is → row_major is < count_of is
row_major-lt [] h = omega arith
row_major-lt (i ∷ is) ((lt, _), h) = omega (arith, row_major-lt is h, at-count i is lt)

word-small : (n : ℕ) → n ≤ 2 ^ 31 → n % 2 ^ 64 ≡ n
word-small n h = omega arith

module _ (w : Layout) (frame : ℕ) (mem : Memory) where
  scaled-Has :
      (e : Expr) (v n : ℕ)
      → value e ≡ some v
      → n ≤ 2 ^ 31
      → v * n ≤ 2 ^ 31
      → Has w frame mem (binary BinaryKind.mul (tree e) (num (pos n))) (some (v * n))
  unfolding eval operate mul_word
  scaled-Has e v n h le le' =
      rw (tree-Has w frame mem e) (rw h (rw (word-small n le) (rw (word-small (v * n) le') refl)))

  sum-Has :
      (l r : Node) (v u : ℕ)
      → Has w frame mem l (some v)
      → Has w frame mem r (some u)
      → v + u ≤ 2 ^ 31
      → Has w frame mem (binary BinaryKind.add l r) (some (v + u))
  unfolding eval operate add_word
  sum-Has l r v u h k le = rw h (rw k (rw (word-small (v + u) le) refl))

  pub index_node-Has :
      (is : List Index) (node : Node) (before : ℕ)
      → Has w frame mem node (some before)
      → All InBounds is
      → before + count_of is ≤ 2 ^ 31
      → Has w frame mem (index_node is node) (some (before + row_major is))
  index_node-Has [] node before h b le = h ∙ ap (λ (v : ℕ). some (v, mem)) (omega arith)
  index_node-Has (i ∷ is) node before h ((lt, v), b) le =
      let part = i.at * count_of is in
      let room = at-count i is lt in
      index_node-Has is _ (before + part)
        (sum-Has node (binary BinaryKind.mul (tree i.expr) (num (pos (count_of is)))) before part h
          (scaled-Has i.expr i.at (count_of is) v (omega (arith, room)) (omega (arith, room)))
          (omega (arith, room)))
        b (omega (arith, room))
      ∙ ap (λ (v : ℕ). some (v, mem)) (omega arith)

pub count-lt :
    (i : Index) (is : List Index) → 0 < i.size → count_of (i ∷ is) < 2 ^ 31 → count_of is < 2 ^ 31
count-lt i is h lt = omega (arith, mul-le-mul_left {m = 1} {n = i.size} (count_of is) h)

div_int-count :
    (i : Index) (is : List Index)
    → 0 < i.size
    → count_of (i ∷ is) < 2 ^ 31
    → div_int (pos (count_of (i ∷ is))) (pos i.size) ≡ ok (pos (count_of is))
div_int-count i is h lt =
    let exact = mul-div_cancel (count_of is) h in
    let nonzero : (i.size + 0 == 0) ≡ false = ground arith in
    rw nonzero (rw exact (rw (lt→ltb (count_of is) (2 ^ 31) (count-lt i is h lt)) refl))

pub index_sum-node :
    (is : List Index) (i : Index) (rest : List ℕ) (f : ℕ) (s : Parser) (node : Node) (t : Token)
    (ts : List Token)
    → All (λ j. 0 < j.size) (i ∷ is)
    → count_of (i ∷ is) < 2 ^ 31
    → is_punct (codes "[") t ≡ false
    → 16 * length (index_tokens i is rest) ≤ f
    → index_sum
        (run f)
        (sizes_of (i ∷ is))
        (pos (count_of (i ∷ is)))
        node
        (on s (index_tokens i is rest ++ t ∷ ts))
      ≡ ok (index_node (i ∷ is) node, on s (t ∷ ts))
unfolding index_sum Parser.◌>>=◌ lift consumes expects reads consume expect pure
index_sum-node [] i rest f s node t ts (p, h) lt n le =
    let close = bracket b']' rest in
    let index = print 4 i.expr (b']' ∷ rest) in
    let read =
      run-equality i.expr (b']' ∷ rest) f s close (t ∷ ts) refl
        (omega (arith, length-append index (close ∷ []))) in
    rw (div_int-count i [] p lt)
      (rw (append_assoc index (close ∷ []) (t ∷ ts)) (rw read (rw n refl)))
index_sum-node (j ∷ is) i rest f s node t ts (p, h) lt n le =
    let text = index_text j is rest in
    let close = bracket b']' (b'[' ∷ text) in
    let later = bracket b'[' text ∷ index_tokens j is rest in
    let index = print 4 i.expr (b']' ∷ b'[' ∷ text) in
    let size = length-append index (close ∷ later) in
    let read =
      run-equality i.expr (b']' ∷ b'[' ∷ text) f s close (later ++ t ∷ ts) refl
        (omega (arith, size)) in
    rw (div_int-count i (j ∷ is) p lt) (
      rw (append_assoc index (close ∷ later) (t ∷ ts)) (
        rw read (
          index_sum-node is j rest f s
            (binary BinaryKind.add node
              (binary BinaryKind.mul (tree i.expr) (num (pos (count_of (j ∷ is))))))
            t ts h (count-lt i (j ∷ is) p lt) n (omega (arith, size)))))

pub InBounds-sizes : (is : List Index) → All InBounds is → All (λ j. 0 < j.size) is
InBounds-sizes [] h = tt
InBounds-sizes (i ∷ is) ((lt, _), h) = (omega arith, InBounds-sizes is h)
