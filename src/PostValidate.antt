-- ===== src/PostValidate.antt =====
-- zcbor/zcbor.py, class CddlParser: `has_key`, `post_validate` and `post_validate_control_group`, the
-- checks of a CDDL that has been parsed.
pub mod Spec
pub mod Keys
pub mod Sound
use zcbor.Prelude.{
  ℕ, zero, suc, ◌==◌, leb_ℤ, ℤ, pos, Bool, true, false, not, ◌&&◌, ◌||◌, is_some, Option, none,
  some, List, [], ◌∷◌, any_of, all_of, if◌then◌else◌,
}
use zcbor.Outcome.{
  Result, ok, raised, out_of_fuel, Exception, require, ◌>>=◌, ◌>>◌, or_else, and_also,
}
use zcbor.Number.{Number, number_le}
use zcbor.Elem.{
  Kind, Attrs, Elem, elem, Value, no_value, number, text, truth, members, Elems, no_elems, elems,
  Slot, absent, present, Cddl, attrs, value, key, cbor, kind, children, reference, is_present, find,
  resolve,
}
use zcbor.Unambiguous.{is_other, fixed_qty, every}

abbrev pub default : Elem → Slot
default (elem a v k c d) = d

abbrev pub is_any : Kind → Bool
is_any Kind.any = true
is_any _ = false

abbrev pub is_list : Kind → Bool
is_list Kind.list = true
is_list _ = false

abbrev pub is_map : Kind → Bool
is_map Kind.map = true
is_map _ = false

abbrev pub is_union : Kind → Bool
is_union Kind.union = true
is_union _ = false

abbrev pub is_bstr : Kind → Bool
is_bstr Kind.bstr = true
is_bstr _ = false

-- "GROUP" and "UNION".
abbrev pub is_splice : Kind → Bool
is_splice Kind.group = true
is_splice Kind.union = true
is_splice _ = false

-- "LIST", "MAP", "GROUP" and "UNION".
abbrev pub is_parent : Kind → Bool
is_parent Kind.list = true
is_parent Kind.map = true
is_parent Kind.group = true
is_parent Kind.union = true
is_parent _ = false

abbrev pub has_members : Elems → Bool
has_members no_elems = false
has_members (elems c cs) = true

abbrev pub has_several : Elems → Bool
has_several (elems c (elems d cs)) = true
has_several cs = false

-- `for child in self.value[:-1]`.
unfoldable pub any_is_last : Elems → Bool
any_is_last no_elems = true
any_is_last (elems c no_elems) = true
any_is_last (elems c (elems d cs)) =
    (not (is_any (kind c)) || fixed_qty c) && any_is_last (elems d cs)

unfoldable pub check_any : Elem → Result (Unit {0})
check_any e = require Exception.parsing_error (not (is_list (kind e)) || any_is_last (children e))

unfoldable pub slot_is_any : Slot → Bool
slot_is_any absent = false
slot_is_any (present k) = is_any (kind k)

-- `(not child.key and child.type == "ANY") or (child.key and child.key.type == "ANY")`.
unfoldable pub catches_all : Elem → Bool
catches_all c = (not (is_present (key c)) && is_any (kind c)) || slot_is_any (key c)

unfoldable pub none_catches : Elems → Bool
none_catches no_elems = true
none_catches (elems c cs) = not (catches_all c) && none_catches cs

unfoldable pub check_union : Elem → Result (Unit {0})
check_union e =
    require Exception.parsing_error
      (not (is_union (kind e) && has_several (children e)) || none_catches (children e))

unfoldable pub check_default : Elem → Result (Unit {0})
check_default e =
    require Exception.parsing_error
      (not (is_bstr (kind e)) || not (is_present (cbor e)) || not (is_present (default e)))

module _ (cddl : Cddl) where
  unfoldable pub has_key : ℕ → Elem → Result Bool
  has_key zero e = out_of_fuel
  has_key (suc f) e = or_else (ok (is_present (key e))) (λ _.
      or_else (and_also (ok (is_other (kind e))) (λ _. resolve cddl e >>= has_key f)) (λ _.
        and_also (ok (is_splice (kind e) && has_members (children e)))
          (λ _. every (has_key f) (children e))))

  -- `is_valid_map_elem`, without its error text.
  unfoldable pub is_valid_map_elem : ℕ → Elem → Result Bool
  is_valid_map_elem f e = has_key f e

  -- The flags of the members: `invalid_elems` are those with `false`, `child_keys` the others.
  unfoldable pub valid_flags : ℕ → Elems → Result (List Bool)
  valid_flags f no_elems = ok []
  valid_flags f (elems c cs) = do b ← is_valid_map_elem f c; bs ← valid_flags f cs; ok (b ∷ bs)

  -- The members with a key that refer to a type which is not there: the text of the error for a list
  -- looks each of them up.
  unfoldable pub any_unknown : List Bool → Elems → Bool
  any_unknown (b ∷ bs) (elems c cs) =
      (b && is_other (kind c) && not (is_some (find (reference c) cddl.types))) || any_unknown bs cs
  any_unknown bs cs = false

  unfoldable pub check_keys : Elem → List Bool → Result (Unit {0})
  check_keys e flags = do
    require Exception.parsing_error (not (is_map (kind e) && any_of not flags))
    require Exception.key_error
        (not (is_list (kind e) && any_of (λ b. b) flags) || not (any_unknown flags (children e)))
    require Exception.parsing_error (not (is_list (kind e) && any_of (λ b. b) flags))

  unfoldable pub check_members : ℕ → Elem → Result (Unit {0})
  check_members f e =
      if is_list (kind e) || is_map (kind e)
      then (valid_flags f (children e) >>= check_keys e)
      else ok tt

  unfoldable pub check_reference : Elem → Result (Unit {0})
  check_reference e =
      require Exception.parsing_error
        (not (is_other (kind e)) || is_some (find (reference e) cddl.types))

  -- The validation of the element itself.
  unfoldable pub validate_own : ℕ → Elem → Result (Unit {0})
  validate_own f e = do
    check_members f e
    check_reference e
    check_any e
    check_union e
    check_default e

  -- `post_validate`, with `recurse` over the members, `.cbor`, the key and the default.
  unfoldable mutual
    pub post_validate : ℕ → Elem → Result (Unit {0})
    post_validate f (elem a v k c d) =
        validate_own f (elem a v k c d)
        >> (elim (is_parent a.kind) [ true ↦ post_validate_value f v | false ↦ ok tt ])
        >> post_validate_slot f c
        >> post_validate_slot f k
        >> post_validate_slot f d

    pub post_validate_value : ℕ → Value → Result (Unit {0})
    post_validate_value f (members cs) = post_validate_elems f cs
    post_validate_value f no_value = ok tt
    post_validate_value f (number n) = ok tt
    post_validate_value f (text s) = ok tt
    post_validate_value f (truth b) = ok tt

    pub post_validate_elems : ℕ → Elems → Result (Unit {0})
    post_validate_elems f no_elems = ok tt
    post_validate_elems f (elems c cs) = post_validate f c >> post_validate_elems f cs

    pub post_validate_slot : ℕ → Slot → Result (Unit {0})
    post_validate_slot f absent = ok tt
    post_validate_slot f (present e) = post_validate f e

abbrev pub is_group_kind : Kind → Bool
is_group_kind Kind.group = true
is_group_kind _ = false

abbrev pub is_uint_kind : Kind → Bool
is_uint_kind Kind.uint = true
is_uint_kind _ = false

-- `c.value is not None and not c.value < 0`.
abbrev pub is_natural : Value → Bool
is_natural (number n) = number_le (Number.int (pos 0)) n
is_natural v = false

unfoldable pub literal_members : Elems → Bool
literal_members no_elems = true
literal_members (elems c cs) = (is_uint_kind (kind c) && is_natural (value c)) && literal_members cs

unfoldable pub post_validate_control_group : Elem → Result (Unit {0})
post_validate_control_group e = do
  require Exception.parsing_error (is_group_kind (kind e))
  require Exception.parsing_error (literal_members (children e))
