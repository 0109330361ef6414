-- ===== src/Examples/Operating.antt =====
-- The control operators at sample elements: `two = 2`, `seven = 7`, `byte = uint .bits flags`.
use zcbor.Prelude.{ℕ, ◌≤◌, ◌≡◌, refl, ◌↔◌, pos, String, true, false, Option, some, none, [], ◌∷◌}
use zcbor.Outcome.{ok, Ensures, ◌>>=◌}
use zcbor.Number.{Number}
use zcbor.Elem.{
  Kind, Attrs, Elem, elem, no_value, number, text, members, no_elems, elems, absent, present, Cddl,
}
use zcbor.Operators.{unpack_value, set_lower, set_upper, set_default}
use zcbor.Operators.Marks.{
  between, Allows, Within, set_quantifier, set_quantifier-Allows, zero_limit_opens,
}
use zcbor.Operators.Spec.{StandsFor}
use zcbor.Operators.Unpack.{unpack_value-StandsFor}
use zcbor.Operators.Default.{HasDefault, set_default-HasDefault}
use zcbor.Operators.Order.{bounds_commute}
use zcbor.Examples.Sample.{bare, leaf_of}

abbrev literal : ℕ → Elem
literal n =
    leaf_of (record (bare Kind.uint) { modifiers = "value" ∷ [] }) (number (Number.int (pos n)))

abbrev names : Cddl
names = record { types = ("two", literal 2) ∷ ("seven", literal 7) ∷ []; control_groups = [] }

abbrev named : String → Elem
named name = leaf_of (bare Kind.other) (text name)

-- `(seven)`.
abbrev seven_group : Elem
seven_group = leaf_of (bare Kind.group) (members (elems (named "seven") no_elems))

seven_unpacked : unpack_value names seven_group ≡ ok (literal 7)
unfolding unpack_value zcbor.Operators.unpack_from zcbor.Operators.unpack_groups
    zcbor.Operators.enforce_no_modifier zcbor.Elem.resolve zcbor.Elem.find
seven_unpacked = refl

unpack_value-StandsFor_example :
    Ensures (StandsFor names seven_group) (unpack_value names seven_group)
unpack_value-StandsFor_example = unpack_value-StandsFor names seven_group

-- `? 0..9 .default seven`.
abbrev with_default : Elem
with_default =
    elem (record (bare Kind.uint) { min_qty = 0 }) no_value absent absent (present (literal 7))

default_set :
    set_default names 9 seven_group (leaf_of (record (bare Kind.uint) { min_qty = 0 }) no_value)
    ≡ ok with_default
unfolding set_default zcbor.Operators.default_of zcbor.Operators.extract_unambiguous_val
    unpack_value zcbor.Operators.unpack_from zcbor.Operators.unpack_groups
    zcbor.Operators.enforce_no_modifier zcbor.Elem.resolve zcbor.Elem.find
default_set = refl

set_default-HasDefault_example :
    HasDefault names 9 seven_group
      (leaf_of (record (bare Kind.uint) { min_qty = 0 }) no_value)
      with_default
set_default-HasDefault_example =
    set_default-HasDefault names 9 seven_group
      (leaf_of (record (bare Kind.uint) { min_qty = 0 }) no_value) with_default default_set

-- `? (2 / seven) .default seven`.
abbrev optional_choice : Elem
optional_choice =
    leaf_of (record (bare Kind.union) { min_qty = 0 })
      (members (elems (literal 2) (elems (named "seven") no_elems)))

choice_set :
    set_default names 9 seven_group optional_choice
    ≡ ok (
        elem
          (record (bare Kind.union) { min_qty = 0 })
          (members (elems (literal 2) (elems (named "seven") no_elems)))
          absent
          absent
          (present (named "seven")))
unfolding set_default zcbor.Operators.default_of unpack_value zcbor.Operators.unpack_from
    zcbor.Operators.unpack_groups zcbor.Operators.enforce_no_modifier zcbor.Elem.resolve
    zcbor.Elem.find zcbor.Operators.find_matching_child zcbor.Operators.first_match
    zcbor.Unambiguous.is_unambiguous zcbor.Operators.match_elem zcbor.Operators.value_eq
    zcbor.Number.number_eq
choice_set = refl

-- `uint .gt two .le 7`.
abbrev plain : Elem
plain = leaf_of (bare Kind.uint) no_value

abbrev bounded : Elem
bounded =
    leaf_of
      (record (bare Kind.uint) {
        min_value = some (Number.int (pos 2));
        max_value = some (Number.int (pos 7));
        min_value_inclusive = false;
        min_size = some (pos 1);
        max_size = some (pos 1);
      })
      no_value

two_then_seven :
    (set_lower names false (named "two") plain >>= set_upper names true (literal 7)) ≡ ok bounded
unfolding set_lower set_upper zcbor.Operators.extract_ineq_val
    zcbor.Operators.extract_unambiguous_val unpack_value zcbor.Operators.unpack_from
    zcbor.Operators.unpack_groups zcbor.Operators.enforce_no_modifier zcbor.Elem.resolve
    zcbor.Elem.find zcbor.Bounds.set_min_value zcbor.Bounds.bytes_of zcbor.Bounds.set_min_size_by
    zcbor.Bounds.check_byte_count zcbor.Sizes.divide_round_up zcbor.Sizes.bit_length
    zcbor.Number.number_le zcbor.Bounds.least_of zcbor.Bounds.set_max_size_by
    zcbor.Bounds.set_max_value zcbor.Number.float_le zcbor.Number.units zcbor.Sizes.bits_in
    zcbor.Bounds.most_of
two_then_seven = refl

bounds_commute_example :
    ((set_lower names false (named "two") plain >>= set_upper names true (literal 7)) ≡ ok bounded)
    ↔ ((set_upper names true (literal 7) plain >>= set_lower names false (named "two"))
        ≡ ok bounded)
bounds_commute_example = bounds_commute names false true (named "two") (literal 7) plain bounded

-- `2*5` and `0*0`, before the type.
abbrev quantified : ℕ → Option ℕ → Attrs
quantified low high = record (bare Kind.untyped) {
  min_qty = low;
  max_qty = high;
  modifiers = "quantifier" ∷ [];
}

two_to_five : set_quantifier (between 2 (some 5)) (bare Kind.untyped) ≡ ok (quantified 2 (some 5))
unfolding set_quantifier zcbor.Bounds.add_modifier
two_to_five = refl

set_quantifier-Allows_example : Allows (between 2 (some 5)) 4 ↔ Within (quantified 2 (some 5)) 4
set_quantifier-Allows_example =
    set_quantifier-Allows (between 2 (some 5)) (bare Kind.untyped) (quantified 2 (some 5)) 4
      (λ z. z) two_to_five

zero_to_zero : set_quantifier (between 0 (some 0)) (bare Kind.untyped) ≡ ok (quantified 0 none)
unfolding set_quantifier zcbor.Bounds.add_modifier
zero_to_zero = refl

zero_limit_opens_example : Within (quantified 0 none) 4 ↔ (0 ≤ 4)
zero_limit_opens_example = zero_limit_opens 0 4 (bare Kind.untyped) (quantified 0 none) zero_to_zero
