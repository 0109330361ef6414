-- ===== src/Expressions/Shown.antt =====
-- zcbor/zcbor.py, class CodeGenerator: the texts that `_num_map_search_flags` adds, compares and rounds, where
-- they are the digits of numbers.
use text.Mathlib.TextEquality.{eq_iff}
use text.Mathlib.TextPositions.{eq_refl}
use zcbor.Prelude.{
  ℕ, ◌*◌, ◌==◌, ◌≡◌, refl, ap, ◌⊎◌, inl, inr, Bool-cases, String, str_eq, true, false, List, [],
  ◌∷◌, map, if◌then◌else◌, arith,
}
use zcbor.Sizes.{divide_round_up}
use zcbor.Counts.{sum}
use zcbor.Texts.{decimal, digits_only, isdigit, int_of}
use zcbor.Texts.Exact.{decimal_inj, digits_only-decimal, int_of-decimal, isdigit-decimal}
use zcbor.Expressions.{
  is_nothing, s_filter, all_digits, s_sum, highest, max_text, s_max, is_bracket, lstrip, front,
  rstrip, strip, s_round_bits_to_nearest_byte,
}

decimal_zero : decimal 0 ≡ "0"
unfolding decimal
decimal_zero = refl

decimal_one : decimal 1 ≡ "1"
unfolding decimal
decimal_one = refl

pub is_empty-decimal : (n : ℕ) → str_eq (decimal n) "" ≡ false
unfolding isdigit
is_empty-decimal n = not_empty (decimal n) (isdigit-decimal n)
  where
    no_digit : isdigit "" ≡ true → ⊥
    no_digit h = cc

    not_empty : (s : String) → isdigit s ≡ true → str_eq s "" ≡ false
    not_empty s h = elim (Bool-cases (str_eq s "")) [
      | inl p ↦ let e : s ≡ "" = ground (arith, eq_iff s "") in absurd (no_digit (rw e at h))
      | inr p ↦ p
    ]

eq-decimal : (m n : ℕ) → str_eq (decimal m) (decimal n) ≡ (m == n)
eq-decimal m n = elim (Bool-cases (m == n)) [
  | inl p ↦ let e : m ≡ n = ground arith in rw (p, e) (eq_refl (decimal n))
  | inr p ↦ rw (p) (elim (Bool-cases (str_eq (decimal m) (decimal n))) [
    | inl q ↦
        let e : m ≡ n = decimal_inj m n (ground (arith, eq_iff (decimal m) (decimal n))) in
        absurd (ground arith)
    | inr q ↦ q
  ])
]

pub is_nothing-decimal : (n : ℕ) → is_nothing (decimal n) ≡ (n == 0)
is_nothing-decimal n = rw (is_empty-decimal n, ← decimal_zero) (eq-decimal n 0)

-- Digits are not stripped.
lstrip-digits : (s : String) → digits_only s ≡ true → lstrip s ≡ s
unfolding lstrip
lstrip-digits String.[] h = refl
lstrip-digits (String.◌∷◌ c s) h = let p : is_bracket c ≡ false = ground arith in rw (p) refl

rstrip-digits : (s : String) → digits_only s ≡ true → rstrip s ≡ s
unfolding rstrip
rstrip-digits String.[] h = refl
rstrip-digits (String.◌∷◌ c s) h =
    let p : is_bracket c ≡ false = ground arith in
    rw (rstrip, rstrip-digits s (ground arith)) (kept s p)
  where
    kept : (s : String) → is_bracket c ≡ false → front c s ≡ String.◌∷◌ c s
    kept String.[] p = rw (p) refl
    kept (String.◌∷◌ d s) p = refl

strip-decimal : (n : ℕ) → strip (decimal n) ≡ decimal n
strip-decimal n =
    let d = digits_only-decimal n in rw (lstrip-digits (decimal n) d) (rstrip-digits (decimal n) d)

pub is_one-decimal : (n : ℕ) → str_eq (strip (decimal n)) "1" ≡ (n == 1)
is_one-decimal n = rw (strip-decimal n, ← decimal_one) (eq-decimal n 1)

-- A text that shows a number: nothing is shown as the empty text, or as "0".
pub data Shows : String → ℕ → Type 0 where
  nothing : {s : String} {n : ℕ} → s ≡ "" → n ≡ 0 → Shows s n
  number : {s : String} {n : ℕ} → s ≡ decimal n → Shows s n

pub data EachShows : List String → List ℕ → Type 0 where
  none_shown : EachShows [] []
  one_shown :
      {s : String} {it : List String} {n : ℕ} {ns : List ℕ}
      → Shows s n
      → EachShows it ns
      → EachShows (s ∷ it) (n ∷ ns)

pub is_nothing-Shows : {s : String} {n : ℕ} → Shows s n → is_nothing s ≡ (n == 0)
is_nothing-Shows (nothing p q) = rw (p, q) refl
is_nothing-Shows {n = n} (number p) = rw (p) (is_nothing-decimal n)

-- The numbers but 0.
positive : List ℕ → List ℕ
positive [] = []
positive (n ∷ ns) = let rest = positive ns in if n == 0 then rest else n ∷ rest

s_filter-positive :
    {it : List String} {ns : List ℕ} → EachShows it ns → s_filter it ≡ map decimal (positive ns)
unfolding s_filter positive
s_filter-positive none_shown = refl
s_filter-positive (one_shown {s} {it} {n} {ns} p ps) =
    rw (s_filter, is_nothing-Shows p, s_filter-positive ps) (kept (Bool-cases (n == 0)) p)
  where
    kept :
        (n == 0 ≡ true) ⊎ (n == 0 ≡ false)
        → Shows s n
        → (if n == 0 then map decimal (positive ns) else s ∷ map decimal (positive ns))
          ≡ map decimal (if n == 0 then positive ns else n ∷ positive ns)
    kept (inl q) p = rw (q) refl
    kept (inr q) (nothing a b) = absurd (ground arith)
    kept (inr q) (number a) = rw (q, a) refl

sum-positive : (ns : List ℕ) → sum (positive ns) ≡ sum ns
unfolding positive
sum-positive [] = refl
sum-positive (n ∷ ns) = ground (arith, sum-positive ns)

highest-positive : (ns : List ℕ) → highest (positive ns) ≡ highest ns
unfolding positive
highest-positive [] = refl
highest-positive (n ∷ ns) = ground (arith, highest-positive ns)

pub all_digits-decimal : (ns : List ℕ) → all_digits (map decimal ns) ≡ true
all_digits-decimal [] = refl
all_digits-decimal (n ∷ ns) = rw (isdigit-decimal n) (all_digits-decimal ns)

pub map-int_of : (ns : List ℕ) → map int_of (map decimal ns) ≡ ns
map-int_of [] = refl
map-int_of (n ∷ ns) = rw (int_of-decimal n, map-int_of ns) refl

pub s_sum-Shows : {it : List String} {ns : List ℕ} → EachShows it ns → Shows (s_sum it) (sum ns)
unfolding s_sum
s_sum-Shows {it} {ns} h = number (
    rw
      (
        s_filter-positive h,
        all_digits-decimal (positive ns),
        map-int_of (positive ns),
        sum-positive ns,
      )
      refl)

max_text-decimal : (ns : List ℕ) → Shows (max_text (map decimal ns)) (highest ns)
max_text-decimal [] = nothing refl refl
max_text-decimal (n ∷ []) = number (ap decimal (omega arith))
max_text-decimal (m ∷ n ∷ ns) = number (
    rw
      (
        isdigit-decimal m,
        isdigit-decimal n,
        all_digits-decimal ns,
        int_of-decimal m,
        int_of-decimal n,
        map-int_of ns,
      )
      refl)

pub s_max-Shows : {it : List String} {ns : List ℕ} → EachShows it ns → Shows (s_max it) (highest ns)
unfolding s_max
s_max-Shows {it} {ns} h =
    rw (s_filter-positive h, ← highest-positive ns) (max_text-decimal (positive ns))

pub round-Shows :
    {s : String} {n : ℕ}
    → Shows s n
    → Shows (s_round_bits_to_nearest_byte s) (divide_round_up n 8 * 8)
unfolding s_round_bits_to_nearest_byte divide_round_up
round-Shows (nothing p q) = nothing (rw (p) refl) (rw (q) refl)
round-Shows {n = n} (number p) = elim (Bool-cases (n == 0)) [
  | inl z ↦
      let e : n ≡ 0 = ground arith in
      nothing (rw (s_round_bits_to_nearest_byte, p, is_nothing-decimal n, z) refl) (rw (e) refl)
  | inr z ↦ number (
      rw
        (
          s_round_bits_to_nearest_byte,
          p,
          is_nothing-decimal n,
          z,
          isdigit-decimal n,
          int_of-decimal n,
        )
        refl)
]

-- The text that is returned for a number.
unfoldable pub shown : ℕ → String
shown n = if n == 0 then "" else decimal n

pub shown_zero : "" ≡ shown 0
unfolding shown
shown_zero = refl

pub shown-Shows : {s : String} {n : ℕ} → s ≡ shown n → Shows s n
unfolding shown
shown-Shows {s} {n} h = elim (Bool-cases (n == 0)) [
  | inl z ↦ nothing (rw z at h) (ground arith)
  | inr z ↦ number (rw z at h)
]

pub is_empty-shown : (n : ℕ) → str_eq (shown n) "" ≡ (n == 0)
unfolding shown
is_empty-shown n = elim (Bool-cases (n == 0)) [
  | inl z ↦ rw (z) refl
  | inr z ↦ rw (z) (is_empty-decimal n)
]
