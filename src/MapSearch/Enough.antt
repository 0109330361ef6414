-- ===== src/MapSearch/Enough.antt =====
-- zcbor/zcbor.py, class CodeGenerator: `elem_needs_map_smart_search` ends where no type refers to itself.
use zcbor.Prelude.{ℕ, zero, suc, ◌≤◌, ◌<◌, ◌&&◌, ◌||◌, String, Bool, false, not, arith}
use zcbor.Outcome.{Result, ok, Ends, returns, Ensures-bind, Ensures-if, or_else, and_also, ◌>>=◌}
use zcbor.Outcome.Tells.{Tells}
use zcbor.Elem.{
  Elem, Elems, no_elems, elems, Slot, absent, present, Cddl, attrs, key, cbor, kind, children,
  reference, resolve,
}
use zcbor.Unambiguous.{is_other}
use zcbor.Unambiguous.Enough.{is_unambiguous_repeated-Ends}
use zcbor.PostValidate.{is_list, is_map, is_parent}
use zcbor.Rank.{
  IsRanked, height, height_elems, height_slot, children-lt, key-lt, cbor-lt, head-le, tail-le,
  slot-eq, resolve-Ensures,
}
use zcbor.MapSearch.{
  some_child, is_repeatable, has_open_key, is_searched, elem_needs_map_smart_search,
}
use zcbor.MapSearch.Spec.{Needs}
use zcbor.MapSearch.Exact.{search-Tells}

or_else-Ends :
    {m : Result Bool} {k : Unit {0} → Result Bool}
    → Ends m
    → ((u : Unit {0}) → Ends (k u))
    → Ends (or_else m k)
or_else-Ends p q = Ensures-bind p (λ b _. Ensures-if b (λ _. returns tt) (λ _. q tt))

and_also-Ends :
    {m : Result Bool} {k : Unit {0} → Result Bool}
    → Ends m
    → ((u : Unit {0}) → Ends (k u))
    → Ends (and_also m k)
and_also-Ends p q = Ensures-bind p (λ b _. Ensures-if b (λ _. q tt) (λ _. returns tt))

test-Ends : (b : Bool) → Ends (ok b)
test-Ends b = returns tt

module _ (rank : String → ℕ) {cddl : Cddl} (ranked : IsRanked rank cddl) where
  module _ (n : ℕ) (p : Elem → Result Bool)
      (below : (e : Elem) → height rank e < n → Ends (p e)) where
    some_child-Ends : (cs : Elems) → height_elems rank cs < n → Ends (some_child p cs)
    unfolding some_child
    some_child-Ends no_elems h = returns tt
    some_child-Ends (elems c cs) h =
        or_else-Ends (below c (omega (arith, head-le rank c cs)))
          (λ _. some_child-Ends cs (omega (arith, tail-le rank c cs)))

    contents-Ends :
        (s : Slot) → height_slot rank s < n → Ends (elim s [ absent ↦ ok false | present c ↦ p c ])
    contents-Ends absent h = returns tt
    contents-Ends (present c) h = below c (omega (arith, slot-eq rank c))

    named-Ends : (e : Elem) → height rank e ≤ n → Ends (resolve cddl e >>= p)
    named-Ends e h =
        Ensures-bind (resolve-Ensures rank ranked e) (λ t r. below t (omega (arith, r.1)))

  module _ (unordered_maps : Bool) (is_entry : String → Bool) (g : ℕ) where
    open_key-Ends : (s : Slot) → height_slot rank s < g → Ends (has_open_key cddl g s)
    unfolding has_open_key
    open_key-Ends absent h = returns tt
    open_key-Ends (present k) h =
        Ensures-bind (is_unambiguous_repeated-Ends rank ranked g k (omega (arith, slot-eq rank k)))
          (λ _ _. returns tt)

    searched-Ends :
        (m : Bool) (e : Elem)
        → height rank e ≤ g
        → Ends (is_searched cddl unordered_maps is_entry g m e)
    unfolding is_searched
    searched-Ends m e h = and_also-Ends (test-Ends (m && unordered_maps)) (λ _.
        or_else-Ends (test-Ends (is_repeatable (attrs e).max_qty))
          (λ _. open_key-Ends (key e) (omega (arith, key-lt rank e))))

    search-Ends :
        (f : ℕ) (m : Bool) (e : Elem)
        → height rank e < f
        → f ≤ g
        → Ends (elem_needs_map_smart_search cddl unordered_maps is_entry g f m e)
    unfolding elem_needs_map_smart_search
    search-Ends zero m e h i = absurd (omega arith)
    search-Ends (suc f) m e h i =
        let search = elem_needs_map_smart_search cddl unordered_maps is_entry g f in
        let inner : Bool = not (is_list (kind e)) && (m || is_map (kind e)) in
        or_else-Ends (searched-Ends m e (omega arith)) (λ _.
          or_else-Ends
            (and_also-Ends (test-Ends (is_other (kind e) && (not (is_entry (reference e)) || m)))
              (λ _.
                named-Ends f (search m) (λ c l. search-Ends f m c l (omega arith)) e (omega arith)))
            (λ _.
              or_else-Ends
                (and_also-Ends (test-Ends (is_parent (kind e))) (λ _.
                  some_child-Ends f (search inner) (λ c l. search-Ends f inner c l (omega arith))
                    (children e) (omega (arith, children-lt rank e))))
                (λ _.
                  contents-Ends f (search false) (λ c l. search-Ends f false c l (omega arith))
                    (cbor e) (omega (arith, cbor-lt rank e)))))

-- With fuel above the height of an element, in a CDDL where no type refers to itself,
-- `elem_needs_map_smart_search` ends. It says yes only where the element is a member of an unordered
-- map that may be repeated or whose key is not known beforehand, or where such a one is reached from
-- it through members, the contents of byte strings and references, and it says no only where none is
-- reached that way. Keys are not entered, nor are references to entry types outside a map.
pub elem_needs_map_smart_search-Needs :
    (rank : String → ℕ) {cddl : Cddl} (ranked : IsRanked rank cddl) (unordered_maps : Bool)
    (is_entry : String → Bool) (f : ℕ) (in_map : Bool) (e : Elem)
    → height rank e < f
    → Ends (elem_needs_map_smart_search cddl unordered_maps is_entry f f in_map e)
      × Tells
          (Needs cddl unordered_maps is_entry f in_map e)
          (elem_needs_map_smart_search cddl unordered_maps is_entry f f in_map e)
elem_needs_map_smart_search-Needs rank {cddl} ranked unordered_maps is_entry f in_map e h = (
  search-Ends rank ranked unordered_maps is_entry f f in_map e h (omega arith),
  search-Tells cddl unordered_maps is_entry f f in_map e,
)
