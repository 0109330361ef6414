-- ===== src/MapSearch/Spec.antt =====
-- When a CDDL element needs the smart search of maps, told apart from how zcbor/zcbor.py looks for it.
use zcbor.Prelude.{ℕ, ◌≡◌, ◌⊎◌, String, Bool, true, false, not, ◌&&◌, ◌||◌}
use zcbor.Outcome.{ok}
use zcbor.Elem.{Elem, present, Cddl, attrs, key, cbor, kind, children, reference, resolve}
use zcbor.Unambiguous.{is_other, is_unambiguous_repeated}
use zcbor.Translator.Spec.{Among}
use zcbor.PostValidate.{is_list, is_map, is_parent}
use zcbor.MapSearch.{is_repeatable}

module _ (cddl : Cddl) (unordered_maps : Bool) (is_entry : String → Bool) (g : ℕ) where
  -- A member of an unordered map that may occur more than once, or whose key is not known beforehand.
  abbrev pub IsSearched : Bool → Elem → Type 0
  IsSearched in_map e =
      ((in_map && unordered_maps) ≡ true)
      × ((is_repeatable (attrs e).max_qty ≡ true)
          ⊎ ((k : Elem) × (key e ≡ present k) × (is_unambiguous_repeated cddl g k ≡ ok false)))

  -- Such a member is the element itself, or is reached from it through members, the contents of byte
  -- strings and references. A list ends the map around it, and the contents of a byte string are in no
  -- map. A reference to an entry type is followed only in a map, since entry types are asked about
  -- by themselves, and keys are not entered.
  pub data Needs : Bool → Elem → Type 0 where
    itself : {m : Bool} {e : Elem} → IsSearched m e → Needs m e
    by_name :
        {m : Bool} {e t : Elem}
        → (is_other (kind e) && (not (is_entry (reference e)) || m)) ≡ true
        → resolve cddl e ≡ ok t
        → Needs m t
        → Needs m e
    in_member :
        {m : Bool} {e c : Elem}
        → is_parent (kind e) ≡ true
        → Among c (children e)
        → Needs (not (is_list (kind e)) && (m || is_map (kind e))) c
        → Needs m e
    in_cbor : {m : Bool} {e c : Elem} → cbor e ≡ present c → Needs false c → Needs m e
