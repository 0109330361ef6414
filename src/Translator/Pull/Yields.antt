-- ===== src/Translator/Pull/Yields.antt =====
-- zcbor/zcbor.py, class DataTranslator: a postcondition on calls that read from an iterator.
use zcbor.Prelude.{Bool, ◌≡◌, refl, List, ◌++◌, true, false, if◌then◌else◌}
use zcbor.Outcome.{Result, Exception, Ensures, returns, raises}
use zcbor.Data.{Obj}
use zcbor.Translator.Pull.{Pull, gave, threw, after, ◌>>=◌, lift, settled, catch, attempt}

-- The call ends within its fuel, and `P` holds of what it returns, if it returns.
pub data Yields {A : Type 0} (P : A → Type 0) : Pull A → Type 0 where
  gives : {a : A} → P a → (m : Bool) → Yields P (gave a m)
  throws : (e : Exception) (m : Bool) → Yields P (threw e m)

pub Yields-after :
    {A : Type 0} {P : A → Type 0} (b : Bool) {m : Pull A} → Yields P m → Yields P (after b m)
Yields-after b (gives h m) = gives h _
Yields-after b (throws e m) = throws e _

module _ {A : Type 0} {P : A → Type 0} where
  pub Yields-bind :
      {B : Type 0} {Q : B → Type 0} {m : Pull A} {f : A → Pull B}
      → Yields P m
      → ((a : A) → P a → Yields Q (f a))
      → Yields Q (m >>= f)
  Yields-bind (gives {a} h m) k = Yields-after m (k a h)
  Yields-bind (throws e m) k = throws e m

  pub Yields-weaken :
      {Q : A → Type 0} {m : Pull A} → Yields P m → ((a : A) → P a → Q a) → Yields Q m
  Yields-weaken (gives {a} h m) k = gives (k a h) m
  Yields-weaken (throws e m) k = throws e m

  pub Yields-lift : {r : Result A} → Ensures P r → Yields P (lift r)
  Yields-lift (returns h) = gives h _
  Yields-lift (raises e) = throws e _

  pub Ensures-settled : {m : Pull A} → Yields P m → Ensures P (settled m)
  Ensures-settled (gives h m) = returns h
  Ensures-settled (throws e m) = raises e

  pub Yields-if :
      (b : Bool) {x y : Pull A}
      → (b ≡ true → Yields P x)
      → (b ≡ false → Yields P y)
      → Yields P (if b then x else y)
  Yields-if true hx hy = hx refl
  Yields-if false hx hy = hy refl

  pub Yields-catch :
      {m : Pull A} (k : Unit {0} → Pull A) → Yields P m → Yields P (k tt) → Yields P (catch m k)
  Yields-catch k (gives h m) hk = gives h m
  Yields-catch k (throws Exception.validation_error m) hk = Yields-after m hk
  Yields-catch k (throws e m) hk = throws e m

pub Yields-attempt :
    {A B : Type 0} {P : A → Type 0} {Q : B → Type 0} {m : Pull A} {k : A → Pull B}
    (handler : Unit {0} → Pull B)
    → Yields P m
    → ((a : A) → P a → Yields Q (k a))
    → Yields Q (handler tt)
    → Yields Q (attempt m k handler)
Yields-attempt handler (gives {a} h m) hk hh = Yields-after m (hk a h)
Yields-attempt handler (throws Exception.validation_error m) hk hh = Yields-after m hh
Yields-attempt handler (throws e m) hk hh = throws e m

-- `P` holds of the run of objects that a call took from its iterator.
abbrev pub Consumes : (List Obj → Type 0) → List Obj → List Obj → Type 0
Consumes P it rest = (xs : List Obj) × (it ≡ xs ++ rest) × P xs
