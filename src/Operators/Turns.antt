-- ===== src/Operators/Turns.antt =====
-- zcbor/zcbor.py, class CddlParser: `.le` and `.size` of an element, in the one order and in the other.
use native.Mathlib.Nat.{pow-le-pow_right}
use zcbor.Prelude.{
  ℕ, ◌-◌, ◌+◌, ◌^◌, ◌<◌, ◌≤◌, ◌≡◌, refl, ap, ◌∙◌, abs, pos, leb, Bool, Option, not, ◌&&◌, true,
  false, none, some, [], ◌∷◌, arith,
}
use zcbor.Outcome.{Result, ok, ◌>>=◌}
use zcbor.Number.{Number, number_le}
use zcbor.Elem.{Kind, Attrs, Elem, elem, no_value, number, absent, Slot, Cddl, attrs}
use zcbor.Bounds.{
  nesting, set_max_value, set_max_size_by, set_size, set_size_of, most_of, enforce_sizeable,
  check_byte_count, at_most, is_zero, bytes_of,
}
use zcbor.Bounds.Bits.{bytes, bytes_le}
use zcbor.Operators.{
  set_upper, extract_ineq_val, extract_unambiguous_val, unpack_value, unpack_from, unpack_groups,
  enforce_no_modifier,
}
use zcbor.Operators.Process.{Escapes, set_size_op, process_one, process_all}

-- A literal number, and a "UINT" with a greatest value or without.
abbrev pub literal : Attrs → ℕ → Elem
literal o n =
    elem (record o { kind = Kind.uint; modifiers = "value" ∷ [] }) (number (Number.int (pos n)))
      absent absent absent

abbrev pub uint_up_to : Attrs → Option Number → Attrs
uint_up_to a high = record a { kind = Kind.uint; max_value = high; max_size = none }

-- What `.le` makes of it.
abbrev bounded : Attrs → ℕ → Attrs
bounded a m = record a {
  max_value = some (Number.int (pos m));
  max_value_inclusive = true;
  max_size = some (pos (bytes m));
}

-- What `.size` makes of it.
abbrev sized : Attrs → ℕ → Attrs
sized a s = record a { max_value = some (most_of (pos s)); size = some (pos s) }

-- `self.max_value`.
abbrev pub greatest : Elem → Result (Option Number)
greatest e = ok (attrs e).max_value

below_all : (m s : ℕ) → s ≤ 8 → m + 1 < 256 ^ s → m < 2 ^ 64
below_all m s l h = let wider : 256 ^ s ≤ 256 ^ 8 = pow-le-pow_right (omega arith) l in omega arith

not_most :
    (m s : ℕ) → m + 1 < 256 ^ s → at_most (some (most_of (pos s))) (Number.int (pos m)) ≡ false
unfolding number_le most_of
not_most m s h = let e : abs (pos s) ≡ s = omega arith in rw (e) (ground arith)

check_byte_count-few : (s : ℕ) → s ≤ 8 → check_byte_count Kind.uint (pos s) ≡ ok tt
unfolding check_byte_count
check_byte_count-few s h =
    let low : leb 0 (s + 0) ≡ true = ground arith in
    let high : leb (s + 0) 8 ≡ true = ground arith in rw (low, high) refl

and_false : (b : Bool) → (b && false) ≡ false
and_false true = refl
and_false false = refl

set_max_value-some :
    (a : Attrs) (high : Option Number) (m : ℕ)
    → at_most high (Number.int (pos m)) ≡ false
    → m < 2 ^ 64
    → set_max_value nesting (Number.int (pos m)) true (uint_up_to a high)
      ≡ ok (bounded (uint_up_to a high) m)
unfolding set_max_value set_max_size_by bytes_of
set_max_value-some a high m q h =
    rw
      (
        set_max_value,
        q,
        check_byte_count-few (bytes m) (bytes_le m 8 (omega arith)),
        and_false (not (is_zero (pos (bytes m)))),
      )
      refl

module _ (cddl : Cddl) (escapes : Escapes) (f : ℕ) (o : Attrs) (k c d : Slot) where
  set_upper-literal :
      (m : ℕ) (a : Attrs) (high : Option Number)
      → set_upper cddl true (literal o m) (elem (uint_up_to a high) no_value k c d) ≡ (
          set_max_value nesting (Number.int (pos m)) true (uint_up_to a high) >>= λ b.
          ok (elem b no_value k c d))
  unfolding set_upper extract_ineq_val extract_unambiguous_val unpack_value unpack_from
      unpack_groups enforce_no_modifier
  set_upper-literal m a high = refl

  set_size_op-literal :
      (s : ℕ) (a : Attrs)
      → s ≤ 8
      → set_size_op cddl escapes (literal o s) (elem (record a { kind = Kind.uint }) no_value k c d)
        ≡ ok (elem (sized (record a { kind = Kind.uint }) s) no_value k c d)
  unfolding set_size_op extract_unambiguous_val unpack_value unpack_from unpack_groups
      enforce_no_modifier set_size enforce_sizeable set_size_of most_of
  set_size_op-literal s a h = rw (check_byte_count-few s h) refl

  le_then_size :
      (a : Attrs) (m s : ℕ)
      → m < 2 ^ 64
      → s ≤ 8
      → process_all cddl escapes f
          ((".le", literal o m) ∷ (".size", literal o s) ∷ [])
          (elem (uint_up_to a none) no_value k c d)
        ≡ ok (elem (sized (bounded (uint_up_to a none) m) s) no_value k c d)
  unfolding process_all process_one
  le_then_size a m s h l =
      rw (set_upper-literal m a none, set_max_value-some a none m refl h)
        (rw (set_size_op-literal s (bounded (uint_up_to a none) m) l) refl)

  size_then_le :
      (a : Attrs) (m s : ℕ)
      → m < 2 ^ 64
      → s ≤ 8
      → m + 1 < 256 ^ s
      → process_all cddl escapes f
          ((".size", literal o s) ∷ (".le", literal o m) ∷ [])
          (elem (uint_up_to a none) no_value k c d)
        ≡ ok (elem (bounded (sized (uint_up_to a none) s) m) no_value k c d)
  unfolding process_all process_one number_le most_of
  size_then_le a m s h l below =
      let b : Attrs = record a { size = some (pos s) } in
      let high : Option Number = some (most_of (pos s)) in
      let wide : at_most high (Number.int (pos m)) ≡ false = not_most m s below in
      rw (set_size_op-literal s (uint_up_to a none) l) (
        ap (λ r. r >>= λ x. ok x)
          (set_upper-literal m b high
            ∙ ap (λ r. r >>= λ x. ok (elem x no_value k c d)) (set_max_value-some b high m wide h)))

-- For a "UINT" without greatest value, value and sizes, `.le m` and `.size s` with literal operands, where m is
-- below the greatest number of s bytes, leave the greatest value m if `.size` is processed first, and
-- the greatest number of s bytes if `.le` is.
pub turns_differ :
    (cddl : Cddl) (escapes : Escapes) (f : ℕ) (o a : Attrs) (k c d : Slot) (m s : ℕ)
    → s ≤ 8
    → m + 1 < 256 ^ s
    → (process_all cddl escapes f
            ((".size", literal o s) ∷ (".le", literal o m) ∷ [])
            (elem (uint_up_to a none) no_value k c d)
          >>= greatest)
        ≡ ok (some (Number.int (pos m)))
      × (process_all cddl escapes f
            ((".le", literal o m) ∷ (".size", literal o s) ∷ [])
            (elem (uint_up_to a none) no_value k c d)
          >>= greatest)
        ≡ ok (some (Number.int (pos (256 ^ s - 1))))
unfolding most_of
turns_differ cddl escapes f o a k c d m s l below =
    let h : m < 2 ^ 64 = below_all m s l below in
    (
      rw (size_then_le cddl escapes f o k c d a m s h l below) refl,
      rw (le_then_size cddl escapes f o k c d a m s h l)
          (ap (λ n. ok (some (Number.int (pos (256 ^ n - 1))))) (omega arith)),
    )
