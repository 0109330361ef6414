-- ===== src/Examples/Searching.antt =====
-- The smart search of maps, at `{count => 0..9, * tstr => 0..9}`.
use zcbor.Number.{Number}
use zcbor.Prelude.{pos, some, ◌≡◌, refl, String, Bool, true, false, arith}
use zcbor.Outcome.{ok, Ends}
use zcbor.Outcome.Tells.{Tells}
use zcbor.Elem.{Kind, Elem, elem, no_value, number, members, no_elems, elems, absent, present}
use zcbor.Rank.{height}
use zcbor.MapSearch.{elem_needs_map_smart_search, is_in_map, is_multiple_elem_group}
use zcbor.MapSearch.Spec.{Needs}
use zcbor.MapSearch.Enough.{elem_needs_map_smart_search-Needs}
use zcbor.Examples.Sample.{bare, leaf_of, digit_attrs, count_ref, cddl, rank, cddl-IsRanked}

abbrev text_key : Elem
text_key = leaf_of (bare Kind.tstr) no_value

-- `{count => 0..9, tstr => 0..9}`.
abbrev keyed : Elem
keyed = leaf_of (bare Kind.map) (
    members (
      elems (elem digit_attrs no_value (present count_ref) absent absent)
        (elems (elem digit_attrs no_value (present text_key) absent absent) no_elems)))

abbrev no_entry : String → Bool
no_entry name = false

-- The keys are not known beforehand.
keyed_needs : elem_needs_map_smart_search cddl true no_entry 9 9 false keyed ≡ ok true
unfolding elem_needs_map_smart_search zcbor.MapSearch.is_searched zcbor.MapSearch.some_child
    zcbor.MapSearch.has_open_key zcbor.Unambiguous.is_unambiguous_repeated zcbor.Elem.find
keyed_needs = refl

ordered_needs : elem_needs_map_smart_search cddl false no_entry 9 9 false keyed ≡ ok false
unfolding elem_needs_map_smart_search zcbor.MapSearch.is_searched zcbor.MapSearch.some_child
ordered_needs = refl

abbrev one_literal : Elem
one_literal = leaf_of (bare Kind.uint) (number (Number.int (pos 1)))

-- `{2*2 1 => 7}`.
abbrev twice : Elem
twice = leaf_of (bare Kind.map) (
    members (
      elems
        (elem (record (bare Kind.uint) { min_qty = 2; max_qty = some 2 })
          (number (Number.int (pos 7))) (present one_literal) absent absent)
        no_elems))

twice_needs : elem_needs_map_smart_search cddl true no_entry 9 9 false twice ≡ ok true
unfolding elem_needs_map_smart_search zcbor.MapSearch.is_searched zcbor.MapSearch.some_child
twice_needs = refl

-- As a key it is known beforehand, and not entered.
key_not_entered :
    elem_needs_map_smart_search cddl true no_entry 9 9 false (
      leaf_of
        (bare Kind.map)
        (members (elems (elem digit_attrs no_value (present twice) absent absent) no_elems)))
    ≡ ok false
unfolding elem_needs_map_smart_search zcbor.MapSearch.is_searched zcbor.MapSearch.some_child
    zcbor.MapSearch.has_open_key zcbor.Unambiguous.is_unambiguous_repeated zcbor.Elem.find
key_not_entered = refl

elem_needs_map_smart_search-Needs_example :
    Ends (elem_needs_map_smart_search cddl true no_entry 9 9 false keyed)
    × Tells
        (Needs cddl true no_entry 9 false keyed)
        (elem_needs_map_smart_search cddl true no_entry 9 9 false keyed)
elem_needs_map_smart_search-Needs_example =
    elem_needs_map_smart_search-Needs rank cddl-IsRanked true no_entry 9 false keyed
      (unfold height in omega arith)
