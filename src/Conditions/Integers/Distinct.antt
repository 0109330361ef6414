-- ===== src/Conditions/Integers/Distinct.antt =====
-- zcbor/zcbor.py, class CddlXcoder: what `all_children_disambiguated` promises to the C enumeration that
-- is made of the integers.
use mathlib.Core.Path.{subst}
use zcbor.Prelude.{
  ℕ, ℤ, ◌≤ℤ◌, ◌≤◌, ◌≡◌, ◌≢◌, refl, ap, ◌∙◌, eqb_ℤ, length, any_of, map, All, Bool, true, false,
  Bool-cases, inl, inr, Option, none, some, List, [], ◌∷◌, arith,
}
use zcbor.Outcome.{first_returns, ok}
use zcbor.Elem.{Elem, Cddl, children}
use zcbor.Conditions.Integers.{
  same_val, to_set, all_within, disambiguates, int_vals, all_children_disambiguated,
}

-- No two of the integers are equal.
abbrev pub IsDistinct : List ℤ → Type 0
IsDistinct [] = Unit
IsDistinct (n ∷ ns) = All (λ m. n ≢ m) ns × IsDistinct ns

length-to_set : (vs : List (Option ℤ)) → length (to_set vs) ≤ length vs
length-to_set [] = omega arith
length-to_set (v ∷ vs) = ground (arith, length-to_set vs)

ints_of :
    (lo hi : ℤ) (vs : List (Option ℤ))
    → all_within lo hi vs ≡ true
    → (ns : List ℤ) × (vs ≡ map some ns) × All (λ n. (lo ≤ℤ n) × (n ≤ℤ hi)) ns
ints_of lo hi [] h = ([], refl, tt)
ints_of lo hi (none ∷ vs) h = cc
ints_of lo hi (some v ∷ vs) h =
    let (ns, p, within) = ints_of lo hi vs (ground arith) in
    (v ∷ ns, ap (λ xs. some v ∷ xs) p, ((ground arith, ground arith), within))

eqb_refl : (n : ℤ) → eqb_ℤ n n ≡ true
eqb_refl n = ground arith

differs :
    (n : ℤ) (ns : List ℤ) → any_of (same_val (some n)) (map some ns) ≡ false → All (λ m. n ≢ m) ns
differs n [] h = tt
differs n (m ∷ ns) h = (
  (λ e. let same : eqb_ℤ n m ≡ true = rw e (eqb_refl m) in ground arith),
  differs n ns (ground arith),
)

to_set-IsDistinct :
    (ns : List ℤ) → length (to_set (map some ns)) ≡ length (map some ns) → IsDistinct ns
to_set-IsDistinct [] h = tt
to_set-IsDistinct (n ∷ ns) h = elim (Bool-cases (any_of (same_val (some n)) (map some ns))) [
  | inl again ↦ absurd (ground (arith, length-to_set (map some ns)))
  | inr fresh ↦ (differs n ns fresh, to_set-IsDistinct ns (ground arith))
]

disambiguates-IsDistinct :
    (lo hi : ℤ) (vs : List (Option ℤ))
    → disambiguates lo hi vs ≡ ok true
    → (ns : List ℤ) × (vs ≡ map some ns) × IsDistinct ns × All (λ n. (lo ≤ℤ n) × (n ≤ℤ hi)) ns
unfolding disambiguates
disambiguates-IsDistinct lo hi [] h = cc
disambiguates-IsDistinct lo hi (v ∷ vs) h =
    let (ns, p, within) = ints_of lo hi (v ∷ vs) (ground arith) in
    (
      ns,
      p,
      to_set-IsDistinct ns (subst (λ l. length (to_set l) ≡ length l) p (ground arith)),
      within,
    )

-- Where `all_children_disambiguated` returns true, `int_val` of every member of the element is an
-- integer, these are pairwise different, and they lie between the limits.
pub all_children_disambiguated-IsDistinct :
    (cddl : Cddl) (named : Elem → Bool) (unordered_maps : Bool) (f : ℕ) (e : Elem) (lo hi : ℤ)
    → all_children_disambiguated cddl named unordered_maps f e lo hi ≡ ok true
    → (ns : List ℤ) × (int_vals cddl named unordered_maps f (children e) ≡ ok (map some ns))
      × IsDistinct ns
      × All (λ n. (lo ≤ℤ n) × (n ≤ℤ hi)) ns
unfolding all_children_disambiguated
all_children_disambiguated-IsDistinct cddl named u f e lo hi h =
    let (vs, found, good) =
      first_returns (int_vals cddl named u f (children e)) (disambiguates lo hi) h in
    let (ns, p, distinct, within) = disambiguates-IsDistinct lo hi vs good in
    (ns, found ∙ ap ok p, distinct, within)
