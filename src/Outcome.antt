-- ===== src/Outcome.antt =====
-- zcbor/zcbor.py: how a Python call ends. A call returns, raises one of the exceptions that the code
-- raises or lets through, or runs out of the fuel that stands for Python's call stack.
pub mod Tells
use mathlib.Core.Path.{subst}
use zcbor.Prelude.{◌≡◌, refl, ◌≢◌, Bool, true, false, Option, none, some, if◌then◌else◌}

-- The exceptions that the code tells apart: `CddlParsingError`, `CddlValidationError`, those that
-- escape its handlers, and those of `cbor2` that it catches.
pub data Exception : Type 0 where
  parsing_error validation_error stop_iteration assertion_error : Exception
  key_error index_error value_error type_error attribute_error decode_error : Exception

pub data Result {ℓ} (A : Type ℓ) : Type ℓ where
  ok : A → Result A
  raised : Exception → Result A
  out_of_fuel : Result A

infixl 5 ◌>>=◌ ◌>>◌
abbrev pub ◌>>=◌ {ℓ κ} : {A : Type ℓ} {B : Type κ} → Result A → (A → Result B) → Result B
ok a >>= f = f a
raised e >>= f = raised e
out_of_fuel >>= f = out_of_fuel

abbrev pub ◌>>◌ {ℓ} : {B : Type ℓ} → Result (Unit {0}) → Result B → Result B
m >> k = m >>= λ _. k

-- `if not test: raise e`.
abbrev pub require : Exception → Bool → Result (Unit {0})
require e true = ok tt
require e false = raised e

-- `except CddlValidationError`: the handler runs for that exception and no other.
abbrev pub catch_validation {ℓ} : {A : Type ℓ} → Result A → (Unit {0} → Result A) → Result A
catch_validation (ok a) k = ok a
catch_validation (raised Exception.validation_error) k = k tt
catch_validation (raised e) k = raised e
catch_validation out_of_fuel k = out_of_fuel

-- A value that is missing is an exception.
abbrev pub or_raise {ℓ} : {A : Type ℓ} → Exception → Option A → Result A
or_raise e none = raised e
or_raise e (some a) = ok a

-- Python's short-circuit `and` and `or`.
abbrev pub and_also : Result Bool → (Unit {0} → Result Bool) → Result Bool
and_also m k = m >>= λ b. if b then k tt else ok false

abbrev pub or_else : Result Bool → (Unit {0} → Result Bool) → Result Bool
or_else m k = m >>= λ b. if b then ok true else k tt

-- The call ends within its fuel, and `P` holds of what it returns, if it returns.
pub data Ensures {ℓ κ} {A : Type ℓ} (P : A → Type κ) : Result A → Type (ℓ ⊔ κ) where
  returns : {a : A} → P a → Ensures P (ok a)
  raises : (e : Exception) → Ensures P (raised e)

-- The call ends within its fuel.
abbrev pub Ends {ℓ} : {A : Type ℓ} → Result A → Type ℓ
Ends r = Ensures (λ _. Unit {0}) r

module _ {ℓ κ} {A : Type ℓ} {P : A → Type κ} where
  pub Ensures-ok : {r : Result A} {a : A} → Ensures P r → r ≡ ok a → P a
  Ensures-ok (returns h) e = subst P (cc) h
  Ensures-ok (raises x) e = cc

  pub Ensures-ne : {r : Result A} → Ensures P r → r ≢ out_of_fuel
  Ensures-ne (returns h) = cc
  Ensures-ne (raises x) = cc

  pub Ensures-bind {ℓ' κ'} :
      {B : Type ℓ'} {Q : B → Type κ'} {r : Result A} {f : A → Result B}
      → Ensures P r
      → ((a : A) → P a → Ensures Q (f a))
      → Ensures Q (r >>= f)
  Ensures-bind (returns {a} h) k = k a h
  Ensures-bind (raises x) k = raises x

  pub Ensures-weaken {κ'} :
      {Q : A → Type κ'} {r : Result A} → Ensures P r → ((a : A) → P a → Q a) → Ensures Q r
  Ensures-weaken (returns {a} h) k = returns (k a h)
  Ensures-weaken (raises x) k = raises x

  pub Ensures-if :
      (b : Bool) {x y : Result A}
      → (b ≡ true → Ensures P x)
      → (b ≡ false → Ensures P y)
      → Ensures P (if b then x else y)
  Ensures-if true hx hy = hx refl
  Ensures-if false hx hy = hy refl

pub Ends-require : (e : Exception) (b : Bool) → Ensures (λ _. b ≡ true) (require e b)
Ends-require e true = returns refl
Ends-require e false = raises e

-- A value that is there.
pub or_raise-Ensures {ℓ} :
    {A : Type ℓ} (e : Exception) (o : Option A) → Ensures (λ a. o ≡ some a) (or_raise e o)
or_raise-Ensures e none = raises e
or_raise-Ensures e (some a) = returns refl

-- What a call that ends returns is what it is equal to.
pub Ensures-self {ℓ} : {A : Type ℓ} {r : Result A} → Ends r → Ensures (λ a. r ≡ ok a) r
Ensures-self (returns h) = returns refl
Ensures-self (raises x) = raises x

-- A call that returns has returned from its first part.
pub first_returns {ℓ κ} :
    {X : Type ℓ} {Y : Type κ} {y : Y} (call : Result X) (rest : X → Result Y)
    → (call >>= rest) ≡ ok y
    → (x : X) × (call ≡ ok x) × (rest x ≡ ok y)
first_returns out_of_fuel rest h = cc
first_returns (raised x) rest h = cc
first_returns (ok x) rest h = (x, refl, h)

-- A check that passed.
pub required : (e : Exception) (b : Bool) → require e b ≡ ok tt → b ≡ true
required e true h = refl
required e false h = cc
