-- ===== src/Flatten.antt =====
-- zcbor/zcbor.py, class CddlParser: `flatten`, which takes away groups and choices of one member and
-- splices groups into what holds them.
pub mod Spec
pub mod Lists
pub mod Merged
pub mod Absorbed
pub mod Spliced
pub mod Counted
use zcbor.Prelude.{
  ℕ, ◌*◌, ◌==◌, String, str_eq, Bool, true, false, not, ◌&&◌, any_of, Option, none, some, List, [],
  ◌∷◌, ◌++◌, if◌then◌else◌,
}
use zcbor.Outcome.{Result, ok, raised, Exception, ◌>>=◌}
use zcbor.Elem.{
  Kind, Attrs, Elem, elem, Value, no_value, number, text, truth, members, Elems, no_elems, elems,
  Slot, absent, present, attrs, value, key, kind, children, reference,
}
use zcbor.Unambiguous.{is_other}
use zcbor.Bounds.{add_modifier}
use zcbor.Counts.{mult_or_none}
use zcbor.PostValidate.{is_union, is_splice, is_parent, is_group_kind}

abbrev pub elems_of : List Elem → Elems
elems_of [] = no_elems
elems_of (e ∷ es) = elems e (elems_of es)

abbrev pub list_of : Elems → List Elem
list_of no_elems = []
list_of (elems c cs) = c ∷ list_of cs

-- `add_modifier` with `no_duplicates` off.
unfoldable pub put_modifier : String → Attrs → Attrs
put_modifier modifier a =
    if any_of (str_eq modifier) a.modifiers
    then a
    else record a { modifiers = a.modifiers ++ modifier ∷ [] }

-- One round of the loop of `merge_modifiers`.
unfoldable pub merge_modifier : String → Attrs → Result Attrs
merge_modifier modifier a =
    if str_eq modifier "value"
    then ok a
    else if str_eq modifier "tag"
    then ok (put_modifier modifier a)
    else add_modifier modifier a

unfoldable pub merge_modifiers : List String → Attrs → Result Attrs
merge_modifiers [] a = ok a
merge_modifiers (m ∷ ms) a = merge_modifier m a >>= merge_modifiers ms

-- `label if not self.value[0].label`.
abbrev pub label_of : Option String → Option String → Option String
label_of none other = other
label_of (some l) other = if str_eq l "" then other else some l

abbrev pub key_of : Slot → Slot → Slot
key_of absent other = other
key_of (present k) other = present k

-- The only member of a group or a choice takes over what is said of the group.
unfoldable pub absorb : Elem → Elem → Result Elem
absorb (elem g gv gk gc gd) (elem a v k c d) = do
  max_qty ← mult_or_none (a.max_qty ∷ g.max_qty ∷ [])
  b ← merge_modifiers g.modifiers (record a {
    min_qty = a.min_qty * g.min_qty;
    max_qty = max_qty;
    label = label_of a.label g.label;
  })
  ok (elem (record b { is_key = g.is_key; tags = b.tags ++ g.tags }) v (key_of k gk) c gd)

-- `self.min_qty == 1 and self.max_qty == 1`.
abbrev pub is_once : Elem → Bool
is_once e = (attrs e).min_qty == 1 && (elim (attrs e).max_qty [ none ↦ false | some m ↦ m == 1 ])

-- `[]` raises where the code takes the first element.
abbrev pub first : List Elem → Result Slot
first [] = raised Exception.index_error
first (e ∷ es) = ok (present e)

abbrev pub only : Elems → Option Elem
only (elems c no_elems) = some c
only cs = none

-- `known` tells the names in `my_types`.
module _ (known : String → Bool) where
  -- An "OTHER" that is a socket of which no type is there.
  unfoldable pub is_open : Elem → Bool
  is_open e = is_other (kind e) && (attrs e).is_socket && not (known (reference e))

  -- `flatten` after `_flatten`.
  unfoldable pub splice : Bool → Elem → Result (List Elem)
  splice allow_multi e =
      if is_open e then ok [] else (elim (if is_splice (kind e) then only (children e) else none) [
        | some c ↦ (absorb e c >>= λ c'. ok (c' ∷ []))
        | none ↦
            if allow_multi && is_group_kind (kind e) && is_once e
            then ok (list_of (children e))
            else ok (e ∷ [])
      ])

  unfoldable mutual
    pub flatten : Bool → Elem → Result (List Elem)
    flatten allow_multi (elem a v k c d) = do
      v' ← elim (is_parent a.kind) [ true ↦ flatten_value (not (is_union a.kind)) v | false ↦ ok v ]
      k' ← flatten_slot k
      c' ← flatten_slot c
      d' ← flatten_slot d
      splice allow_multi (elem a v' k' c' d')

    pub flatten_value : Bool → Value → Result Value
    flatten_value allow_multi (members cs) = do
      es ← flatten_elems allow_multi cs
      ok (members (elems_of es))
    flatten_value allow_multi no_value = ok no_value
    flatten_value allow_multi (number n) = ok (number n)
    flatten_value allow_multi (text s) = ok (text s)
    flatten_value allow_multi (truth b) = ok (truth b)

    pub flatten_elems : Bool → Elems → Result (List Elem)
    flatten_elems allow_multi no_elems = ok []
    flatten_elems allow_multi (elems c cs) = do
      xs ← flatten allow_multi c
      ys ← flatten_elems allow_multi cs
      ok (xs ++ ys)

    pub flatten_slot : Slot → Result Slot
    flatten_slot absent = ok absent
    flatten_slot (present e) = do es ← flatten false e; first es
