-- ===== src/Parser/Leaves.antt =====
-- How many tokens an action leaves: the rules for the actions that the parser is made of.
pub mod Reading
pub mod Declare
pub mod Define
pub mod Calls
pub mod Expr
pub mod Member
pub mod Primary
pub mod Stmt
pub mod Program
use cc.Base.{
  ℕ, zero, suc, ◌+◌, ◌-◌, ◌≤◌, ◌≡◌, ◌≢◌, refl, Bool, true, false, ◌&&◌, List, [], ◌∷◌, Option, none,
  some, arith, if◌then◌else◌, length, ap,
}
use cc.Base.Int.{ℤ}
use cc.Base.Outcome
use cc.Base.Outcome.{Result, ok, err, Failure, fault, exits, Message, out_of_fuel}
pub use cc.Base.Outcome.{Fueled, Fueled-bind}
use cc.Token.{Token, TokenKind, reserved, indent, num, same_kind}
use cc.Node.{Name}
use cc.Cursor
use cc.Cursor.{consume, consume_kind, consume_indent, expect, expect_number, is_op}
use cc.Util.{mysubstr}
use cc.Parser.{
  Parser, Parse, pure, lift, gets, reads, modify, ◌>>=◌, fails, consumes, consumes_kind,
  consumes_indent, expects, expects_number, pointed, peek, reports, copy_into, tokens_left,
}

abbrev pub Ends : {A : Type 0} → ℕ → Result (A × Parser) → Type 0
Ends k (ok (a, s)) = length s.tokens ≤ k
Ends k (err e) = e ≢ out_of_fuel

-- From `n` tokens at most, `m` leaves at most `k`, or fails, but not for want of fuel.
pub record Leaves {A : Type 0} (n k : ℕ) (m : Parse A) : Type 0 where
  pub at : (s : Parser) → length s.tokens ≤ n → Ends k (m s)

module _ {A : Type 0} where
  pub Leaves-pure : {n k : ℕ} (a : A) → n ≤ k → Leaves n k (pure a)
  unfolding pure
  Leaves-pure a le = record { at = λ s h. omega arith }

  pub Leaves-fails : {n k : ℕ} (e : Failure) → e ≢ out_of_fuel → Leaves n k (fails {A = A} e)
  unfolding fails
  Leaves-fails e ne = record { at = λ s h. ne }

  Ends-lift :
      (n : ℕ) (r : Result A) (s : Parser) → Fueled r → length s.tokens ≤ n → Ends n (lift r s)
  unfolding lift
  Ends-lift n (ok a) s f h = h
  Ends-lift n (err e) s f h = f

  pub Leaves-lift : {n : ℕ} (r : Result A) → Fueled r → Leaves n n (lift r)
  Leaves-lift {n} r f = record { at = λ s h. Ends-lift n r s f h }

  pub Leaves-gets : {n : ℕ} (f : Parser → A) → Leaves n n (gets f)
  unfolding gets
  Leaves-gets f = record { at = λ s h. h }

  pub Leaves-pointed : {n : ℕ} (o : Option A) → Leaves n n (pointed o)
  unfolding pointed
  Leaves-pointed none = Leaves-fails fault (λ e. cc)
  Leaves-pointed (some a) = Leaves-pure a (omega arith)

  Ends-le : (j k : ℕ) (r : Result (A × Parser)) → j ≤ k → Ends j r → Ends k r
  Ends-le j k (ok (a, s)) le h = omega arith
  Ends-le j k (err e) le h = h

  pub Leaves-le : {n j k : ℕ} (m : Parse A) → Leaves n j m → j ≤ k → Leaves n k m
  Leaves-le {n} {j} {k} m l le = record { at = λ s h. Ends-le j k (m s) le (l.at s h) }

  -- From fewer tokens than the rule allows.
  pub Leaves-from : {n j k : ℕ} (m : Parse A) → n ≤ j → Leaves j k m → Leaves n k m
  Leaves-from m le l = record { at = λ s h. l.at s (omega arith) }

pub Leaves-modify : {n : ℕ} (f : Parser → Parser) → Leaves n n (modify f)
unfolding modify
Leaves-modify f = record { at = λ s h. h }

module _ {A B : Type 0} where
  Ends-bind :
      (j k : ℕ) (r : Result (A × Parser)) (f : A → Parse B)
      → Ends j r
      → ((a : A) → Leaves j k (f a))
      → Ends k (Outcome.◌>>=◌ r λ (a, s). f a s)
  Ends-bind j k (ok (a, s)) f h l = (l a).at s h
  Ends-bind j k (err e) f h l = h

  pub Leaves-bind :
      {n j k : ℕ} (m : Parse A) (f : A → Parse B)
      → Leaves n j m
      → ((a : A) → Leaves j k (f a))
      → Leaves n k (m >>= f)
  unfolding ◌>>=◌
  Leaves-bind {n} {j} {k} m f l r = record { at = λ s h. Ends-bind j k (m s) f (l.at s h) r }

pub Leaves-if :
    {A : Type 0} {n k : ℕ} (b : Bool) (x y : Parse A)
    → Leaves n k x
    → Leaves n k y
    → Leaves n k (if b then x else y)
Leaves-if true x y h l = h
Leaves-if false x y h l = l

-- A split on an option.
pub Leaves-split :
    {A B : Type 0} {n k : ℕ} (m : Option A → Parse B)
    → Leaves n k (m none)
    → ((a : A) → Leaves n k (m (some a)))
    → (o : Option A) → Leaves n k (m o)
Leaves-split m h l none = h
Leaves-split m h l (some a) = l a

-- One action that keeps the number, and the rest.
pub Leaves-then :
    {A B : Type 0} {n k : ℕ} (m : Parse A) (f : A → Parse B)
    → Leaves n n m
    → ((a : A) → Leaves n k (f a))
    → Leaves n k (m >>= f)
Leaves-then m f = Leaves-bind m f

pub copy_into-Fueled : (size : ℕ) (n : Name) → Fueled (copy_into size n)
unfolding copy_into mysubstr
copy_into-Fueled size n = ground arith

pub Leaves-reports :
    {A : Type 0} {n k : ℕ} (size : ℕ) (message : List ℕ → Message) (name : Name)
    → Leaves n k (reports {A = A} size message name)
unfolding reports
Leaves-reports size message name =
    Leaves-bind (lift (copy_into size name)) _ (Leaves-lift _ (copy_into-Fueled size name))
      λ t. Leaves-fails (exits (message t)) (λ e. cc)
