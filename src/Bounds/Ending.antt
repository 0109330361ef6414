-- ===== src/Bounds/Ending.antt =====
-- zcbor/zcbor.py, class CddlParser: how `type_and_range` and the methods that it calls end.
use zcbor.Prelude.{
  leb_ℤ, max, abs, any_of, str_eq, String, ℕ, suc, ◌≡◌, refl, ℤ, pos, Bool, true, false, not, ◌&&◌,
  ◌||◌, Option, none, some,
}
use zcbor.Outcome.{
  Result, ok, Exception, require, ◌>>=◌, ◌>>◌, Ensures, returns, raises, Ends, Ensures-bind,
  Ensures-if, Ends-require,
}
use zcbor.Number.{Number, number_lt, number_eq}
use zcbor.Elem.{Kind, Attrs, Value, has_value}
use zcbor.Sizes.{uint8_max, uint16_max, uint32_max, uint64_max, sizeof}
use zcbor.Conditions.{is_integer, is_uint, is_string}
use zcbor.Bounds.{
  is_float, is_untyped, is_negative, is_above, no_bound, is_zero, at_most, size_at_most,
  check_byte_count, bytes_of, most_of, set_min_size, set_max_size, set_min_value, set_max_size_by,
  set_max_value, enforce_sizeable, set_size_range, add_modifier,
}
use zcbor.Bounds.Range.{
  size_of, size_of_abs, set_literal, literal_bounds, type_and_number, range_sizes, set_range,
  type_and_range,
}
use zcbor.Bounds.Nesting.{counted, bytes_of-Ends, min_size_Ends, set_min_value-Ends}

forget {ℓ κ} : {A : Type ℓ} {P : A → Type κ} {r : Result A} → Ensures P r → Ends r
forget (returns h) = returns tt
forget (raises e) = raises e

-- `set_max_size` ends where the call ends that it makes for an element without a maximum.
max_size_Ends :
    (g : Number → Attrs → Result Attrs) (a : Attrs) (t : ℤ)
    → (no_bound a.max_value ≡ true → Ends (g (most_of t) a))
    → Ends (set_max_size_by g t a)
unfolding set_max_size_by
max_size_Ends g a t h =
    go (size_at_most a.max_size t) (is_uint a.kind) (not (is_zero t)) (no_bound a.max_value) h
  where
    go :
        (b u z o : Bool)
        → (o ≡ true → Ends (g (most_of t) a))
        → Ends {A = Attrs} (elim b [
          | true ↦ ok a
          | false ↦
              check_byte_count a.kind t
              >> ((elim (u && z && o) [ true ↦ g (most_of t) a | false ↦ ok a ]) >>= λ c.
                  ok (record c { max_size = some t }))
        ])
    go true u z o h = returns tt
    go false true true true h =
        Ensures-bind (counted a.kind t) (λ _ _. Ensures-bind (h refl) (λ _ _. returns tt))
    go false true true false h = Ensures-bind (counted a.kind t) (λ _ _. returns tt)
    go false true false o h = Ensures-bind (counted a.kind t) (λ _ _. returns tt)
    go false false z o h = Ensures-bind (counted a.kind t) (λ _ _. returns tt)

-- The maximum is set before the size, so that this call is never made.
set_max_value-Ends :
    (f : ℕ) (x : Number) (i : Bool) (a : Attrs) → Ends (set_max_value (suc f) x i a)
unfolding set_max_value
set_max_value-Ends f x i a =
    go (record a { max_value = some x; max_value_inclusive = i }) refl (at_most a.max_value x)
      (is_integer a.kind)
  where
    go :
        (own : Attrs)
        → own.max_value ≡ some x
        → (b k : Bool)
        → Ends {A = Attrs} (elim b [
          | true ↦ ok a
          | false ↦ elim k [
            | true ↦ bytes_of x >>= λ s. set_max_size_by (λ v c. set_max_value f v true c) s own
            | false ↦ ok own
          ]
        ])
    go own set true k = returns tt
    go own set false false = returns tt
    go own set false true =
        Ensures-bind (bytes_of-Ends x)
          (λ t _. max_size_Ends (λ v c. set_max_value f v true c) own t (λ e. absurd (cc)))

set_min_size-Ends : (s : Option ℤ) (a : Attrs) → Ends (set_min_size s a)
unfolding set_min_size
set_min_size-Ends none a = returns tt
set_min_size-Ends (some s) a =
    min_size_Ends (λ v c. set_min_value 3 v true c) a s
      (λ n _ _. set_min_value-Ends (Number.int (pos _)) true a)

set_max_size-Ends : (s : Option ℤ) (a : Attrs) → Ends (set_max_size s a)
unfolding set_max_size
set_max_size-Ends none a = returns tt
set_max_size-Ends (some s) a =
    max_size_Ends (λ v c. set_max_value 3 v true c) a s
      (λ _. set_max_value-Ends 2 (most_of s) true a)

guard_Ends {ℓ} :
    {A : Type ℓ} (e : Exception) (b : Bool) {k : Result A} → Ends k → Ends (require e b >> k)
guard_Ends e true h = h
guard_Ends e false h = raises e

enforce_sizeable-Ends : (v : Value) (a : Attrs) → Ends (enforce_sizeable v a)
unfolding enforce_sizeable
enforce_sizeable-Ends v a =
    guard_Ends Exception.parsing_error (is_string a.kind || is_integer a.kind || is_float a.kind)
      (forget (Ends-require Exception.parsing_error (not (has_value v) || is_float a.kind)))

set_size_range-Ends : (v : Value) (s t : Option ℤ) (a : Attrs) → Ends (set_size_range v s t a)
unfolding set_size_range
set_size_range-Ends v s t a = Ensures-bind (enforce_sizeable-Ends v a) (λ _ _.
    guard_Ends Exception.parsing_error (not (is_negative s || is_negative t || is_above s t))
      (Ensures-bind (set_min_size-Ends s a) (λ b _. set_max_size-Ends t b)))

sizeof-Ends : (n : ℤ) → Ends (sizeof n)
unfolding sizeof
sizeof-Ends n =
    Ensures-if (leb_ℤ n (pos 23)) (λ _. returns tt)
      (λ _.
        Ensures-if (leb_ℤ n (pos uint8_max)) (λ _. returns tt)
          (λ _.
            Ensures-if (leb_ℤ n (pos uint16_max)) (λ _. returns tt)
              (λ _.
                Ensures-if (leb_ℤ n (pos uint32_max)) (λ _. returns tt)
                  (λ _.
                    Ensures-if (leb_ℤ n (pos uint64_max)) (λ _. returns tt)
                      (λ _. raises Exception.value_error)))))

size_of-Ends : (n : Number) → Ends (size_of n)
unfolding size_of
size_of-Ends (Number.int n) = sizeof-Ends n
size_of-Ends (Number.float x) = raises Exception.attribute_error

size_of_abs-Ends : (n : Number) → Ends (size_of_abs n)
unfolding size_of_abs
size_of_abs-Ends (Number.int n) = sizeof-Ends (pos (abs n))
size_of_abs-Ends (Number.float x) = raises Exception.attribute_error

range_sizes-Ends :
    (k : Kind) (lo hi : Number) (v : Value) (a : Attrs) → Ends (range_sizes k lo hi v a)
unfolding range_sizes
range_sizes-Ends Kind.uint lo hi v a = Ensures-bind (size_of-Ends lo) (λ s _.
    Ensures-bind (size_of-Ends hi) (λ t _. set_size_range-Ends v (some (pos s)) (some (pos t)) a))
range_sizes-Ends Kind.nint lo hi v a = Ensures-bind (size_of_abs-Ends hi) (λ s _.
    Ensures-bind (size_of_abs-Ends lo)
      (λ t _. set_size_range-Ends v (some (pos s)) (some (pos t)) a))
range_sizes-Ends Kind.int lo hi v a = Ensures-bind (size_of-Ends lo) (λ s _.
    Ensures-bind (size_of-Ends hi) (λ t _.
      Ensures-bind (set_size_range-Ends v (some (pos s)) (some (pos t)) a) (λ b _.
        Ensures-bind (size_of_abs-Ends hi) (λ s' _.
          Ensures-bind (size_of_abs-Ends lo)
            (λ t' _. set_size_range-Ends v none (some (pos (max s' t'))) b)))))
range_sizes-Ends k lo hi v a = returns tt

add_modifier-Ends : (m : String) (a : Attrs) → Ends (add_modifier m a)
unfolding add_modifier
add_modifier-Ends m a =
    Ensures-if (any_of (str_eq m) a.modifiers) (λ _. raises Exception.parsing_error)
      (λ _. returns tt)

set_range-Ends :
    (k : Kind) (lo hi : Number) (i : Bool) (v : Value) (a : Attrs) → Ends (set_range k lo hi i v a)
unfolding set_range
set_range-Ends k lo hi i v a =
    Ensures-bind (set_min_value-Ends lo true (record a { kind = k })) (λ b _.
      Ensures-bind (set_max_value-Ends 2 hi i b)
        (λ c _. Ensures-bind (range_sizes-Ends k lo hi v c) (λ d _. add_modifier-Ends "range" d)))

set_literal-Ends : (n : Number) (a : Attrs) → Ends (set_literal n a)
unfolding set_literal
set_literal-Ends n a = Ensures-bind (size_of-Ends n) (λ s _.
    Ensures-bind (set_min_value-Ends n true (record a { size = some (pos s) }))
      (λ b _. set_max_value-Ends 2 n true b))

literal_bounds-Ends : (k : Kind) (n : Number) (a : Attrs) → Ends (literal_bounds k n a)
unfolding literal_bounds
literal_bounds-Ends Kind.uint n a = set_literal-Ends n a
literal_bounds-Ends Kind.nint n a = Ensures-bind (set_literal-Ends n a) (λ _ _. returns tt)
literal_bounds-Ends k n a = returns tt

type_and_number-Ends :
    (k : Kind) (n : Number) (v : Value) (a : Attrs) → Ends (type_and_number k n v a)
unfolding type_and_number
type_and_number-Ends k n v a = guard_Ends Exception.parsing_error (is_untyped a.kind) (
    guard_Ends Exception.parsing_error (not (has_value v)) (
      Ensures-bind (add_modifier-Ends "value" (record a { kind = k }))
        (λ b _. Ensures-bind (literal_bounds-Ends k n b) (λ _ _. returns tt))))

-- `type_and_range` ends, for any element, type and bounds: the fuel for the nested calls is enough.
pub type_and_range-Ends :
    (k : Kind) (lo hi : Number) (inclusive : Bool) (v : Value) (a : Attrs)
    → Ends (type_and_range k lo hi inclusive v a)
unfolding type_and_range
type_and_range-Ends k lo hi i v a = guard_Ends Exception.value_error (is_integer k || is_float k) (
    guard_Ends Exception.parsing_error (not (number_lt hi lo)) (
      Ensures-if (number_eq lo hi)
        (λ _. guard_Ends Exception.parsing_error i (type_and_number-Ends k lo v a))
        (λ _. Ensures-bind (set_range-Ends k lo hi i v a) (λ _ _. returns tt))))
