-- ===== src/Base/Outcome.antt =====
-- How a run of the compiler ends: with a value, with a message and `exit(1)`, by a read or write
-- outside an object (a null pointer among them), or, in the model alone, for want of fuel.
use Prim.Native.Nat.{ℕ}
use mathlib.Core.Path.{◌≡◌, refl}
use mathlib.Core.Logic.{◌≢◌}
use mathlib.Core.List.{List}
use mathlib.Core.Bool.{Bool, true, false}
use cc.Base.Tests.{if◌then◌else◌}

-- The calls of `error` and `error_at` in the modelled code, by their texts.
pub data Message : Type 0 where
  comment_not_closed : Message
  expected_quote : Message
  expected : List ℕ → Message
  not_number : Message
  not_a_variable : Message
  not_defined : List ℕ → Message
  not_self_pointer : List ℕ → Message
  not_a_type : List ℕ → Message
  not_implemented : Message
  cannot_open : List ℕ → Message

pub data Failure : Type 0 where
  exits : Message → Failure
  fault : Failure
  out_of_fuel : Failure

pub data Result {ℓ} (A : Type ℓ) : Type ℓ where
  err : Failure → Result A
  ok : A → Result A

pub ok_if {ℓ} :
    {A : Type ℓ} (c : Bool) (a b : A) → (if c then ok a else ok b) ≡ ok (if c then a else b)
ok_if true a b = refl
ok_if false a b = refl

-- What follows a step that succeeded; a failure ends the run.
infixl 1 ◌>>=◌
abbrev pub ◌>>=◌ {ℓ κ} : {A : Type ℓ} {B : Type κ} (r : Result A) (next : A → Result B) → Result B
err failure >>= next = err failure
ok value >>= next = next value

-- A result that no want of fuel made.
abbrev pub Fueled {ℓ} : {A : Type ℓ} → Result A → Type 0
Fueled (ok a) = Unit
Fueled (err e) = e ≢ out_of_fuel

pub Fueled-bind {ℓ κ} :
    {A : Type ℓ} {B : Type κ} (r : Result A) (f : A → Result B)
    → Fueled r
    → ((a : A) → Fueled (f a))
    → Fueled (r >>= f)
Fueled-bind (ok a) f h k = k a
Fueled-bind (err e) f h k = h

pub Fueled-if {ℓ} :
    {A : Type ℓ} (b : Bool) (x y : Result A) → Fueled x → Fueled y → Fueled (if b then x else y)
Fueled-if true x y h k = h
Fueled-if false x y h k = k
