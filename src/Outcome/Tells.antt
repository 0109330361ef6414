-- ===== src/Outcome/Tells.antt =====
-- Tests that may raise: what their answers say.
use zcbor.Prelude.{◌≡◌, refl, ◌⊎◌, inl, inr, Bool, true, false}
use zcbor.Outcome.{Result, ok, raised, out_of_fuel, ◌>>=◌, or_else, and_also}

-- `True` says that `P` holds, and `False` that it does not.
pub record Tells (P : Type 0) (r : Result Bool) : Type 0 where
  pub yes_holds : r ≡ ok true → P
  pub no_fails : r ≡ ok false → P → ⊥

pub Tells-bool : (b : Bool) → Tells (b ≡ true) (ok b)
Tells-bool b = record { yes_holds = λ h. cc; no_fails = λ h p. absurd (clash b h p) }
  where
    clash : (b : Bool) → ◌≡◌ {A = Result Bool} (ok b) (ok false) → b ≡ true → ⊥
    clash true h p = cc
    clash false h p = cc

pub Tells-false : {P : Type 0} → (P → ⊥) → Tells P (ok false)
Tells-false f = record { yes_holds = λ h. cc; no_fails = λ h. f }

pub Tells-fuel : {P : Type 0} → Tells P out_of_fuel
Tells-fuel = record { yes_holds = λ h. cc; no_fails = λ h. cc }

pub Tells-iff : {P Q : Type 0} {r : Result Bool} → Tells P r → (P → Q) → (Q → P) → Tells Q r
Tells-iff t f g = record {
  yes_holds = λ h. f (t.yes_holds h);
  no_fails = λ h q. t.no_fails h (g q);
}

pub Tells-or :
    {P Q : Type 0} {m : Result Bool} {k : Unit {0} → Result Bool}
    → Tells P m
    → ((u : Unit {0}) → Tells Q (k u))
    → Tells (P ⊎ Q) (or_else m k)
Tells-or {m = ok true} s t = record { yes_holds = λ h. inl (s.yes_holds refl); no_fails = λ h. cc }
Tells-or {m = ok false} s t = record {
  yes_holds = λ h. inr ((t tt).yes_holds h);
  no_fails = λ h p. elim p [ inl x ↦ s.no_fails refl x | inr y ↦ (t tt).no_fails h y ];
}
Tells-or {m = raised e} s t = record { yes_holds = λ h. cc; no_fails = λ h. cc }
Tells-or {m = out_of_fuel} s t = record { yes_holds = λ h. cc; no_fails = λ h. cc }

-- The second test may count on the first.
pub Tells-and :
    {P Q : Type 0} {m : Result Bool} {k : Unit {0} → Result Bool}
    → Tells P m
    → ((u : Unit {0}) → P → Tells Q (k u))
    → Tells (P × Q) (and_also m k)
Tells-and {m = ok true} s t =
    let second = t tt (s.yes_holds refl) in
    record {
      yes_holds = λ h. (s.yes_holds refl, second.yes_holds h);
      no_fails = λ h p. second.no_fails h p.1;
    }
Tells-and {m = ok false} s t = record { yes_holds = λ h. cc; no_fails = λ h p. s.no_fails refl p.0 }
Tells-and {m = raised e} s t = record { yes_holds = λ h. cc; no_fails = λ h. cc }
Tells-and {m = out_of_fuel} s t = record { yes_holds = λ h. cc; no_fails = λ h. cc }

-- A test of what a call returns.
pub Tells-bind :
    {A : Type 0} (P : A → Type 0) (r : Result A) {k : A → Result Bool}
    → ((a : A) → Tells (P a) (k a))
    → Tells ((a : A) × (r ≡ ok a) × P a) (r >>= k)
Tells-bind {A = A} P (ok x) t = record {
  yes_holds = λ h. (x, refl, (t x).yes_holds h);
  no_fails = λ h p. let e : p.0 ≡ x = same p.0 p.1 in (t x).no_fails h (rw e at p.2);
}
  where
    same : (a : A) → ok x ≡ ok a → a ≡ x
    same a h = cc
Tells-bind P (raised e) t = record { yes_holds = λ h. cc; no_fails = λ h. cc }
Tells-bind P out_of_fuel t = record { yes_holds = λ h. cc; no_fails = λ h. cc }
