-- ===== src/Expressions/Products.antt =====
-- zcbor/zcbor.py, class CodeGenerator: the texts that `_num_map_search_flags` multiplies and encloses, where they
-- are the digits of numbers.
use native.Mathlib.Nat.{mul-zero, zero-mul, mul-le-mul_right}
use zcbor.Prelude.{
  ℕ, ◌*◌, ◌==◌, ◌≤◌, ◌≡◌, refl, sym, ap, ◌∙◌, ◌⊎◌, inl, inr, Bool-cases, String, true, false, List,
  [], ◌∷◌, map, if◌then◌else◌, arith,
}
use zcbor.Counts.{prod}
use zcbor.Texts.{decimal}
use zcbor.Texts.Exact.{isdigit-decimal}
use zcbor.Expressions.{is_nothing, without_ones, product_text, s_mult, in_brackets}
use zcbor.Expressions.Shown.{
  Shows, nothing, number, is_nothing-Shows, is_one-decimal, all_digits-decimal, map-int_of, shown,
  shown-Shows,
}

-- The numbers but 1.
not_one : List ℕ → List ℕ
not_one [] = []
not_one (n ∷ ns) = let rest = not_one ns in if n == 1 then rest else n ∷ rest

without_ones-decimal : (ns : List ℕ) → without_ones (map decimal ns) ≡ map decimal (not_one ns)
unfolding without_ones not_one
without_ones-decimal [] = refl
without_ones-decimal (n ∷ ns) =
    rw (without_ones, is_one-decimal n, without_ones-decimal ns)
      (elim (Bool-cases (n == 1)) [ inl p ↦ rw (p) refl | inr p ↦ rw (p) refl ])

prod-not_one : (ns : List ℕ) → prod (not_one ns) ≡ prod ns
unfolding not_one
prod-not_one [] = refl
prod-not_one (n ∷ ns) = elim (Bool-cases (n == 1)) [
  | inl p ↦ let e : n ≡ 1 = ground arith in rw (e, prod-not_one ns) (omega arith)
  | inr p ↦ rw (p, prod-not_one ns) refl
]

product_some : (m n : ℕ) → m == 0 ≡ false → n == 0 ≡ false → m * (n * 1) == 0 ≡ false
product_some m n h i =
    let low : 1 ≤ m = ground arith in
    let l : 1 * (n * 1) ≤ m * (n * 1) = mul-le-mul_right (n * 1) low in ground (arith, l)

-- A product is never "0".
pub s_mult-shown :
    {s t : String} {m n : ℕ}
    → Shows s m
    → Shows t n
    → s_mult (s ∷ t ∷ []) ≡ shown (prod (m ∷ n ∷ []))
unfolding s_mult shown
s_mult-shown {s} {t} {m} {n} p q = elim (Bool-cases (is_nothing s)) [
  | inl a ↦ let e : m ≡ 0 = zero_shown p a in rw (a, e, zero-mul (n * 1)) refl
  | inr a ↦ elim (Bool-cases (is_nothing t)) [
    | inl b ↦ let e : n ≡ 0 = zero_shown q b in rw (a, b, e, mul-zero m) refl
    | inr b ↦
        let ns : List ℕ = m ∷ n ∷ [] in
        let ds : s ∷ t ∷ [] ≡ map decimal ns = cc (positive_shown p a, positive_shown q b) in
        let mult : s_mult (s ∷ t ∷ []) ≡ product_text (without_ones (s ∷ t ∷ [])) =
          rw (s_mult, a, b) refl in
        mult
        ∙ ap (λ it. product_text (without_ones it)) ds
        ∙ product ns
        ∙ sym (rw (product_some m n (some_shown p a) (some_shown q b)) refl)
  ]
]
  where
    none_differs : is_nothing "" ≡ false → ⊥
    none_differs h = cc

    zero_shown : {s : String} {n : ℕ} → Shows s n → is_nothing s ≡ true → n ≡ 0
    zero_shown p h = let e = is_nothing-Shows p in ground arith

    positive_shown : {s : String} {n : ℕ} → Shows s n → is_nothing s ≡ false → s ≡ decimal n
    positive_shown (nothing p q) h = absurd (none_differs (rw p at h))
    positive_shown (number p) h = p

    some_shown : {s : String} {n : ℕ} → Shows s n → is_nothing s ≡ false → n == 0 ≡ false
    some_shown p h = sym (is_nothing-Shows p) ∙ h

    product : (ns : List ℕ) → product_text (without_ones (map decimal ns)) ≡ decimal (prod ns)
    product ns =
        rw
          (
            without_ones-decimal ns,
            all_digits-decimal (not_one ns),
            map-int_of (not_one ns),
            prod-not_one ns,
          )
          refl

pub s_mult-Shows :
    {s t : String} {m n : ℕ}
    → Shows s m
    → Shows t n
    → Shows (s_mult (s ∷ t ∷ [])) (prod (m ∷ n ∷ []))
s_mult-Shows p q = shown-Shows (s_mult-shown p q)

pub enclosed-shown :
    {s : String} {n : ℕ}
    → Shows s n
    → (if is_nothing s then "" else in_brackets s) ≡ shown (if n == 0 then 0 else n)
unfolding shown
enclosed-shown {s} {n} p = rw (is_nothing-Shows p) (go p (Bool-cases (n == 0)))
  where
    go :
        Shows s n
        → (n == 0 ≡ true) ⊎ (n == 0 ≡ false)
        → (if n == 0 then "" else in_brackets s) ≡ shown (if n == 0 then 0 else n)
    go p (inl z) = rw (z) refl
    go (nothing a b) (inr z) = absurd (ground arith)
    go (number a) (inr z) = rw (z, a, isdigit-decimal n, z) refl
