-- ===== src/Flags/Related.antt =====
-- zcbor/zcbor.py, class CodeGenerator: how the texts of `_num_map_search_flags` go with the numbers that are in
-- their place.
use zcbor.Prelude.{
  ℕ, ◌==◌, ◌≡◌, refl, String, str_eq, Bool, true, false, Option, none, some, List, [], ◌∷◌, map,
}
use zcbor.Outcome.{Result, ok, raised, out_of_fuel, Exception, require, or_raise, ◌>>=◌}
use zcbor.Elem.{Elem, Cddl, reference, find, resolve}
use zcbor.Texts.{decimal}
use zcbor.Flags.{Flags, expressions, each_empty}
use zcbor.Expressions.Shown.{
  Shows, number, EachShows, none_shown, one_shown, shown, shown-Shows, is_empty-shown,
}
use zcbor.Flags.Limits.{numbers, is_limited}

-- Two calls end in the same way, and what they return is related.
pub data Alike {A B : Type 0} (R : A → B → Type 0) : Result A → Result B → Type 0 where
  both : {a : A} {b : B} → R a b → Alike R (ok a) (ok b)
  both_raise : (e : Exception) → Alike R (raised e) (raised e)
  both_spent : Alike R out_of_fuel out_of_fuel

pub Alike-bind :
    {A B C D : Type 0} {R : A → B → Type 0} {S : C → D → Type 0} {r : Result A} {s : Result B}
    {f : A → Result C} {g : B → Result D}
    → Alike R r s
    → ((a : A) (b : B) → R a b → Alike S (f a) (g b))
    → Alike S (r >>= f) (s >>= g)
Alike-bind (both {a} {b} h) k = k a b h
Alike-bind (both_raise e) k = both_raise e
Alike-bind both_spent k = both_spent

pub Alike-self : {A : Type 0} (r : Result A) → Alike (λ a b. a ≡ b) r r
Alike-self (ok a) = both refl
Alike-self (raised e) = both_raise e
Alike-self out_of_fuel = both_spent

-- The flags as they are added up.
pub record Adds (t : Flags String) (n : Flags ℕ) : Type 0 where
  pub this : Shows t.this n.this
  pub nested : Shows t.nested n.nested
  pub multi_decode : t.multi_decode ≡ n.multi_decode
  pub unions : t.unions ≡ n.unions

-- The flags as they are returned.
unfoldable pub show_all : Flags ℕ → Flags String
show_all n = record {
  this = shown n.this;
  nested = shown n.nested;
  multi_decode = n.multi_decode;
  unions = n.unions;
}

pub record Returned (t : Flags String) (n : Flags ℕ) : Type 0 where
  pub this : t.this ≡ shown n.this
  pub nested : t.nested ≡ shown n.nested
  pub multi_decode : t.multi_decode ≡ n.multi_decode
  pub unions : t.unions ≡ n.unions

pub data EachReturned : List (Flags String) → List (Flags ℕ) → Type 0 where
  none_returned : EachReturned [] []
  one_returned :
      {r : Flags String} {rs : List (Flags String)} {q : Flags ℕ} {qs : List (Flags ℕ)}
      → Returned r q
      → EachReturned rs qs
      → EachReturned (r ∷ rs) (q ∷ qs)

pub two_shown :
    {s t : String} {m n : ℕ} → Shows s m → Shows t n → EachShows (s ∷ t ∷ []) (m ∷ n ∷ [])
two_shown p q = one_shown p (one_shown q none_shown)

pub one_literal : Shows (decimal 1) 1
one_literal = number refl

pub is_empty-Returned :
    {r : Flags String} {q : Flags ℕ} → Returned r q → str_eq r.this "" ≡ (q.this == 0)
is_empty-Returned {q = q} h = rw (h.this) (is_empty-shown q.this)

pub these-EachShows :
    {rs : List (Flags String)} {qs : List (Flags ℕ)}
    → EachReturned rs qs
    → EachShows (map (λ r. r.this) rs) (map (λ q. q.this) qs)
these-EachShows none_returned = none_shown
these-EachShows (one_returned h hs) = one_shown (shown-Shows h.this) (these-EachShows hs)

pub nested-EachShows :
    {rs : List (Flags String)} {qs : List (Flags ℕ)}
    → EachReturned rs qs
    → EachShows (map (λ r. r.nested) rs) (map (λ q. q.nested) qs)
nested-EachShows none_returned = none_shown
nested-EachShows (one_returned h hs) = one_shown (shown-Shows h.nested) (nested-EachShows hs)

pub deepest-same :
    {rs : List (Flags String)} {qs : List (Flags ℕ)}
    → EachReturned rs qs
    → map (λ r. r.multi_decode) rs ≡ map (λ q. q.multi_decode) qs
deepest-same none_returned = refl
deepest-same (one_returned h hs) = cc (h.multi_decode, deepest-same hs)

pub unions-same :
    {rs : List (Flags String)} {qs : List (Flags ℕ)}
    → EachReturned rs qs
    → map (λ r. r.unions) rs ≡ map (λ q. q.unions) qs
unions-same none_returned = refl
unions-same (one_returned h hs) = cc (h.unions, unions-same hs)

pub same_check :
    {R : Flags String → Flags ℕ → Type 0} {b d : Bool} (t : Flags String) (n : Flags ℕ)
    → b ≡ d
    → R t n
    → Alike R
        (require Exception.assertion_error b >>= λ _. ok t)
        (require Exception.assertion_error d >>= λ _. ok n)
same_check {R} {b} {d} t n e h = rw (e) (checked d)
  where
    checked :
        (d : Bool)
        → Alike R
            (require Exception.assertion_error d >>= λ _. ok t)
            (require Exception.assertion_error d >>= λ _. ok n)
    checked true = both h
    checked false = both_raise Exception.assertion_error

pub all_empty-same :
    {rs : List (Flags String)} {qs : List (Flags ℕ)}
    → EachReturned rs qs
    → each_empty expressions rs ≡ each_empty numbers qs
all_empty-same none_returned = refl
all_empty-same (one_returned h hs) = rw (is_empty-Returned h, all_empty-same hs) refl

pub resolve-Alike :
    (cddl : Cddl) (e : Elem)
    → ((name : String) (d : Elem) → find name cddl.types ≡ some d → is_limited d ≡ true)
    → Alike (λ d d'. (d ≡ d') × (is_limited d ≡ true)) (resolve cddl e) (resolve cddl e)
unfolding resolve
resolve-Alike cddl e l = found (find (reference e) cddl.types) (l (reference e))
  where
    found :
        (o : Option Elem)
        → ((d : Elem) → o ≡ some d → is_limited d ≡ true)
        → Alike
            (λ d d'. (d ≡ d') × (is_limited d ≡ true))
            (or_raise Exception.key_error o)
            (or_raise Exception.key_error o)
    found none h = both_raise Exception.key_error
    found (some d) h = both (refl, h d refl)
