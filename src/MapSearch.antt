-- ===== src/MapSearch.antt =====
-- zcbor/zcbor.py, class CodeGenerator: which elements stand in maps, and which need the smart search of
-- maps (`is_in_map`, `elem_needs_map_smart_search`), and the choice of union code that looks at maps.
-- The conditions are those of class CddlXcoder, with its own `is_cbor`.
pub mod Spec
pub mod Exact
pub mod Enough
use zcbor.Prelude.{
  ℕ, zero, suc, ltb, ◌==◌, Option, none, some, String, Bool, true, false, not, ◌&&◌, ◌||◌,
  if◌then◌else◌,
}
use zcbor.Outcome.{Result, ok, raised, out_of_fuel, Exception, ◌>>=◌, or_else, and_also}
use zcbor.Elem.{
  Kind, Elem, Elems, no_elems, elems, Slot, absent, present, Cddl, attrs, key, cbor, kind, children,
  reference, is_present, resolve,
}
use zcbor.Unambiguous.{is_other, fixed_qty, is_unambiguous_repeated}
use zcbor.PostValidate.{is_list, is_map, is_parent, is_splice, is_union, is_group_kind, has_several}
use zcbor.Counts.{Range, list_counts}
use zcbor.Conditions.Integers.{is_int_disambiguated, all_children_int_disambiguated}

-- `any(p(child) for child in children)`, which stops at the first `True`.
unfoldable pub some_child : (Elem → Result Bool) → Elems → Result Bool
some_child p no_elems = ok false
some_child p (elems c cs) = or_else (p c) (λ _. some_child p cs)

-- `self.max_qty is None or self.max_qty > 1`.
abbrev pub is_repeatable : Option ℕ → Bool
is_repeatable none = true
is_repeatable (some n) = ltb 1 n

abbrev pub is_one : Option ℕ → Bool
is_one none = false
is_one (some n) = n == 1

-- `list_counts() != (1, 1)`.
abbrev pub is_not_one : Range → Bool
is_not_one (low, high) = not (is_one low && is_one high)

module _ (cddl : Cddl) where
  -- `None` counts as `False`.
  unfoldable pub is_in_map : ℕ → Elem → Result Bool
  is_in_map zero e = out_of_fuel
  is_in_map (suc f) e = or_else (ok (is_present (key e))) (λ _.
      or_else (and_also (ok (is_splice (kind e))) (λ _. some_child (is_in_map f) (children e)))
        (λ _. and_also (ok (is_other (kind e))) (λ _. resolve cddl e >>= is_in_map f)))

  -- `self.key and not self.key.is_unambiguous_repeated()`, with fuel for that call.
  unfoldable pub has_open_key : ℕ → Slot → Result Bool
  has_open_key g absent = ok false
  has_open_key g (present k) = is_unambiguous_repeated cddl g k >>= λ b. ok (not b)

  -- `is_entry` tells the names in `entry_type_names`; `g` is the fuel of `is_unambiguous_repeated`.
  module _ (unordered_maps : Bool) (is_entry : String → Bool) (g : ℕ) where
    unfoldable pub is_searched : Bool → Elem → Result Bool
    is_searched in_map e =
        and_also (ok (in_map && unordered_maps))
          (λ _. or_else (ok (is_repeatable (attrs e).max_qty)) (λ _. has_open_key g (key e)))

    unfoldable pub elem_needs_map_smart_search : ℕ → Bool → Elem → Result Bool
    elem_needs_map_smart_search zero in_map e = out_of_fuel
    elem_needs_map_smart_search (suc f) in_map e = or_else (is_searched in_map e) (λ _.
        or_else
          (and_also (ok (is_other (kind e) && (not (is_entry (reference e)) || in_map)))
            (λ _. resolve cddl e >>= elem_needs_map_smart_search f in_map))
          (λ _.
            or_else
              (and_also (ok (is_parent (kind e))) (λ _.
                some_child
                  (elem_needs_map_smart_search f
                    (not (is_list (kind e)) && (in_map || is_map (kind e))))
                  (children e)))
              (λ _. elim (cbor e) [
                | absent ↦ ok false
                | present c ↦ elem_needs_map_smart_search f false c
              ])))

  unfoldable pub is_multiple_elem_group : ℕ → Elem → Result Bool
  is_multiple_elem_group zero e = out_of_fuel
  is_multiple_elem_group (suc f) e =
      or_else
        (and_also (ok (is_union (kind e)))
          (λ _. some_child (is_multiple_elem_group f) (children e)))
        (λ _.
          or_else (ok (is_group_kind (kind e) && has_several (children e) && not (fixed_qty e)))
            (λ _. and_also (ok (is_other (kind e))) (λ _. resolve cddl e >>= λ t.
              list_counts cddl f t >>= λ r.
              or_else (ok (is_not_one r && not (fixed_qty e))) (λ _. is_multiple_elem_group f t))))

  -- `named` stands for `self in self.my_types.values()`.
  module _ (named : Elem → Bool) (unordered_maps : Bool) where
    unfoldable pub expect_union_condition : ℕ → Elem → Result Bool
    expect_union_condition f e =
        and_also (is_int_disambiguated cddl named unordered_maps f e)
          (λ _. and_also (ok unordered_maps) (λ _. is_in_map f e) >>= λ b. ok (not b))

    unfoldable pub implicit_union_condition : ℕ → Elem → Result Bool
    implicit_union_condition f e =
        and_also (all_children_int_disambiguated cddl named unordered_maps f e)
          (λ _. and_also (ok unordered_maps) (λ _. is_in_map f e) >>= λ b. ok (not b))
