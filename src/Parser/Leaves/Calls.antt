-- ===== src/Parser/Leaves/Calls.antt =====
-- The calls of the expression parser with fuel, and the rules for its choices.
use cc.Base.{ℕ, ◌+◌, ◌-◌, ◌*◌, ◌≤◌, ◌<◌, List, [], ◌∷◌, Option, none, some, arith, All}
use cc.Base.Outcome
use cc.Base.Outcome.{Result, ok, err, Failure}
use cc.Token.{TokenKind}
use cc.Parser.{Parser, Parse, pure, ◌>>=◌, consumes, consumes_kind}
use cc.Parser.Declare.{first_kind}
use cc.Parser.Expr.{Call, Rec, first_op}
use cc.Parser.Leaves.{Leaves, Ends}
use cc.Parser.Leaves.Reading.{Leaves-consumes, Leaves-consumes_kind}

-- A bound of the calls under a call that take no token in between.
abbrev pub rank : Call → ℕ
rank Call.unary = 1
rank Call.mul = 2
rank (Call.mul_ptr t) = 2
rank Call.add = 3
rank (Call.args name before) = 4
rank Call.relational = 4
rank Call.equality = 5
rank Call.assign = 6
rank Call.stmt = 8
rank (Call.block_rest before) = 9
rank _ = 0

pub rank_le : (c : Call) → rank c ≤ 9
rank_le c = ground arith

-- The calls are right with enough fuel for the tokens and their rank, and a statement takes a token.
pub record Fine (f : ℕ) (rec : Rec) : Type 0 where
  pub call : (n : ℕ) (c : Call) → 16 * n + rank c < f → Leaves n n (rec c)
  pub stmt : (n : ℕ) → 16 * n + 8 < f → Leaves n (n - 1) (rec Call.stmt)

-- A call from fewer tokens than there is fuel for.
pub Fine-any :
    {f : ℕ} {rec : Rec} → Fine f rec → (n : ℕ) (c : Call) → 16 * n + 9 < f → Leaves n n (rec c)
Fine-any h n c lt = h.call n c (omega (arith, rank_le c))

module _ {A B C : Type 0} where
  Ends-assoc :
      (k : ℕ) (r : Result (A × Parser)) (f : A → Parse B) (g : B → Parse C)
      → Ends k (Outcome.◌>>=◌ r λ (a, s). Outcome.◌>>=◌ (f a s) λ (b, s'). g b s')
      → Ends k (Outcome.◌>>=◌ (Outcome.◌>>=◌ r λ (a, s). f a s) λ (b, s'). g b s')
  Ends-assoc k (ok (a, s)) f g h = h
  Ends-assoc k (err e) f g h = h

  pub Leaves-assoc :
      {n k : ℕ} (m : Parse A) (f : A → Parse B) (g : B → Parse C)
      → Leaves n k (m >>= λ a. f a >>= g)
      → Leaves n k ((m >>= f) >>= g)
  unfolding ◌>>=◌
  Leaves-assoc {n} {k} m f g l = record { at = λ s h. Ends-assoc k (m s) f g (l.at s h) }

pub Leaves-given :
    {A B : Type 0} {n k : ℕ} (a : A) (g : A → Parse B)
    → Leaves n k (g a)
    → Leaves n k (pure a >>= g)
unfolding ◌>>=◌ pure
Leaves-given a g l = record { at = λ s h. l.at s h }

module _ {A B : Type 0} where
  -- An operator is taken, or none of them is there.
  pub Leaves-first_op :
      {n k : ℕ} (table : List (List ℕ × A)) (g : Option A → Parse B)
      → (1 ≤ n → (a : A) → Leaves (n - 1) k (g (some a)))
      → Leaves n k (g none)
      → Leaves n k (first_op table >>= g)
  unfolding first_op
  Leaves-first_op [] g taken ended = Leaves-given none g ended
  Leaves-first_op ((op, a) ∷ rest) g taken ended = Leaves-assoc (consumes op) _ g (
      Leaves-consumes op _ (λ h. Leaves-given (some a) g (taken h a))
        λ h. Leaves-first_op rest g taken ended)

  -- One of the keywords is taken.
  pub Leaves-first_kind :
      {n k : ℕ} (table : List (TokenKind × A)) (g : Option A → Parse B)
      → All (λ (kind, a). 1 ≤ n → Leaves (n - 1) k (g (some a))) table
      → Leaves n k (g none)
      → Leaves n k (first_kind table >>= g)
  unfolding first_kind
  Leaves-first_kind [] g taken ended = Leaves-given none g ended
  Leaves-first_kind ((kind, a) ∷ rest) g (here, taken) ended =
      Leaves-assoc (consumes_kind kind) _ g (
        Leaves-consumes_kind kind _ (λ h. Leaves-given (some a) g (here h))
          λ h. Leaves-first_kind rest g taken ended)
