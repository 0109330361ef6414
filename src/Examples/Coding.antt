-- ===== src/Examples/Coding.antt =====
-- Widths and unions of sample elements.
use zcbor.Prelude.{
  ℕ, ℤ, pos, negsuc, ◌^◌, ◌≡◌, ◌≤ℤ◌, ◌≤◌, ◌↔◌, All, map, refl, true, false, some, List, arith,
}
use zcbor.Outcome.{ok, raised, Exception}
use zcbor.Number.{Number}
use zcbor.Elem.{Kind, Elem, number, no_value, members, no_elems, elems, children}
use zcbor.Sizes.{sizeof}
use zcbor.Sizes.Widths.{sizeof-raised_iff, sizeof-IsWidth}
use zcbor.BitSize.{bit_size, Holds}
use zcbor.BitSize.Fits.{IsWidth, bit_size-Holds}
use zcbor.Conditions.Integers.{int_vals, all_children_disambiguated}
use zcbor.Conditions.Integers.Distinct.{IsDistinct, all_children_disambiguated-IsDistinct}
use zcbor.Examples.Sample.{bare, leaf_of, range_attrs, cddl}

two_bytes : sizeof (pos 1000) ≡ ok 2
unfolding sizeof
two_bytes = refl

sizeof-IsWidth_example : zcbor.Sizes.Widths.IsWidth 1000 2
sizeof-IsWidth_example = sizeof-IsWidth 1000 2 two_bytes

sizeof-raised_iff_example :
    (sizeof (pos (2 ^ 64)) ≡ raised Exception.value_error) ↔ (2 ^ 64 ≤ 2 ^ 64)
sizeof-raised_iff_example = sizeof-raised_iff (2 ^ 64)

narrow : bit_size 8 (leaf_of range_attrs no_value) ≡ ok (some 8)
unfolding bit_size
narrow = refl

bit_size-Holds_example :
    (w : ℕ) × (bit_size 8 (leaf_of range_attrs no_value) ≡ ok (some w))
    × IsWidth w
    × Holds false w (negsuc 2)
bit_size-Holds_example =
    bit_size-Holds 8 (leaf_of range_attrs no_value) (negsuc 4) (pos 9) (negsuc 2) refl
      (record {
        integer = refl;
        low = refl;
        high = refl;
        low_fits = (omega arith, omega arith);
        high_fits = (omega arith, omega arith);
      })
      (omega arith) (omega arith)

-- `1 / 2 / -3`.
abbrev choice : Elem
choice = leaf_of (bare Kind.union) (
    members (
      elems (leaf_of (bare Kind.uint) (number (Number.int (pos 1)))) (
        elems (leaf_of (bare Kind.uint) (number (Number.int (pos 2))))
          (elems (leaf_of (bare Kind.nint) (number (Number.int (negsuc 2)))) no_elems))))

told_apart :
    all_children_disambiguated cddl (λ _. false) false 3 choice (negsuc 9) (pos 9) ≡ ok true
unfolding all_children_disambiguated zcbor.Unambiguous.is_unambiguous
told_apart = refl

all_children_disambiguated-IsDistinct_example :
    (ns : List ℤ) × (int_vals cddl (λ _. false) false 3 (children choice) ≡ ok (map some ns))
    × IsDistinct ns
    × All (λ n. (negsuc 9 ≤ℤ n) × (n ≤ℤ pos 9)) ns
all_children_disambiguated-IsDistinct_example =
    all_children_disambiguated-IsDistinct cddl (λ _. false) false 3 choice (negsuc 9) (pos 9)
      told_apart
