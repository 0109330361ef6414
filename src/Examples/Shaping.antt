-- ===== src/Examples/Shaping.antt =====
-- `post_validate` and `flatten` at sample elements.
use zcbor.Prelude.{ℕ, ◌≡◌, ◌↔◌, ◌⊎◌, refl, String, Bool, true, false, is_some, some, [], ◌∷◌}
use zcbor.Outcome.{ok}
use zcbor.Elem.{Kind, Elem, no_value, text, members, no_elems, elems, Cddl, find}
use zcbor.Counts.Spec.{Has, Each}
use zcbor.PostValidate.{post_validate, post_validate_control_group}
use zcbor.PostValidate.Spec.{AllSound}
use zcbor.PostValidate.Sound.{post_validate-AllSound}
use zcbor.Flatten.{elems_of, flatten}
use zcbor.Flatten.Spec.{IsQuantified, Ready, ready, ready_members, none_left, one_ready}
use zcbor.Flatten.Counted.{flatten-SameCounts}
use zcbor.Examples.Sample.{bare, leaf_of, digit_attrs, digit, count_ref, pair_list, cddl}

pair_passes : post_validate cddl 9 pair_list ≡ ok tt
unfolding post_validate zcbor.PostValidate.validate_own zcbor.PostValidate.check_members
    zcbor.PostValidate.valid_flags zcbor.PostValidate.is_valid_map_elem zcbor.PostValidate.has_key
    zcbor.Elem.resolve find zcbor.PostValidate.check_keys zcbor.PostValidate.check_reference
    zcbor.PostValidate.check_any zcbor.PostValidate.any_is_last zcbor.PostValidate.check_union
    zcbor.PostValidate.check_default
pair_passes = refl

post_validate-AllSound_example : AllSound cddl pair_list
post_validate-AllSound_example = post_validate-AllSound cddl 9 pair_list pair_passes

abbrev of_any : Cddl
of_any = record { types = ("foo", leaf_of (bare Kind.any) no_value) ∷ []; control_groups = [] }

-- `foo / 0..9` passes where foo is "any".
any_by_name :
    post_validate of_any 9 (
      leaf_of
        (bare Kind.union)
        (members (elems (leaf_of (bare Kind.other) (text "foo")) (elems digit no_elems))))
    ≡ ok tt
unfolding post_validate zcbor.PostValidate.validate_own zcbor.PostValidate.check_members
    zcbor.PostValidate.valid_flags zcbor.PostValidate.is_valid_map_elem zcbor.PostValidate.has_key
    zcbor.Elem.resolve find zcbor.PostValidate.check_keys zcbor.PostValidate.check_reference
    zcbor.PostValidate.check_any zcbor.PostValidate.any_is_last zcbor.PostValidate.check_union
    zcbor.PostValidate.check_default zcbor.PostValidate.catches_all zcbor.PostValidate.none_catches
    zcbor.PostValidate.slot_is_any
any_by_name = refl

-- `2*3 (0..9)`.
abbrev some_digits : Elem
some_digits =
    leaf_of
      (record (bare Kind.group) { min_qty = 2; max_qty = some 3; modifiers = "quantifier" ∷ [] })
      (members (elems digit no_elems))

-- `[(0..9, count), 2*3 (0..9)]`.
abbrev grouped : Elem
grouped = leaf_of (bare Kind.list) (
    members (
      elems (leaf_of (bare Kind.group) (members (elems digit (elems count_ref no_elems))))
        (elems some_digits no_elems)))

-- `[0..9, count, 2*3 0..9]`.
abbrev ungrouped : Elem
ungrouped = leaf_of (bare Kind.list) (
    members (
      elems digit (
        elems count_ref (
          elems
            (leaf_of
              (record digit_attrs { min_qty = 2; max_qty = some 3; modifiers = "quantifier" ∷ [] })
              no_value)
            no_elems))))

abbrev known_type : String → Bool
known_type name = is_some (find name cddl.types)

grouped_flat : flatten known_type false grouped ≡ ok (ungrouped ∷ [])
unfolding flatten zcbor.Flatten.splice zcbor.Flatten.is_open zcbor.Flatten.absorb
    zcbor.Counts.mult_or_none zcbor.Flatten.merge_modifiers zcbor.Flatten.merge_modifier
    zcbor.Bounds.add_modifier
grouped_flat = refl

once : (k : Kind) → IsQuantified (bare k)
once k = record { once_min = λ p. refl; once_max = λ p. refl }

digit-Ready : Ready known_type digit
unfolding zcbor.Flatten.is_open
digit-Ready = ready (record { once_min = λ p. refl; once_max = λ p. refl }) refl (λ p. cc)

-- The socket of the reference is off.
grouped-Ready : Ready known_type grouped
unfolding zcbor.Flatten.is_open
grouped-Ready = ready (once Kind.list) refl (λ p. ready_members (
    one_ready
      (ready (once Kind.group) refl (λ q.
        ready_members
          (one_ready digit-Ready (one_ready (ready (once Kind.other) refl (λ r. cc)) none_left))))
      (one_ready
        (ready (record { once_min = λ q. cc; once_max = λ q. cc }) refl
          (λ q. ready_members (one_ready digit-Ready none_left)))
        none_left)))

flatten-SameCounts_example :
    ((n : ℕ) → Has cddl grouped n ↔ Each cddl (elems_of (ungrouped ∷ [])) n)
    × ((false ≡ true) ⊎ ((x : Elem) × (ungrouped ∷ [] ≡ x ∷ [])))
flatten-SameCounts_example =
    flatten-SameCounts cddl known_type false grouped (ungrouped ∷ []) grouped-Ready grouped_flat
