-- ===== src/Translator/Sound/Checks.antt =====
-- zcbor/zcbor.py, class DataTranslator: the checks of one object end within their fuel.
use zcbor.Prelude.{
  ℕ, pos, negsuc, ◌&&◌, Bool, true, false, none, some, Option, String, List, [], ◌∷◌,
}
use zcbor.Outcome.{
  Exception, Ends, returns, raises, require, Ensures-bind, Ensures-if, or_raise-Ensures,
}
use zcbor.Number.{Number}
use zcbor.Elem.{
  Kind, Elem, Value, number, Elems, no_elems, elems, Cddl, attrs, value, kind, children, has_value,
  find,
}
use zcbor.Data.{Obj, key_tuple, tag}
use zcbor.Translator.Check.{
  check_key, remove_tag, has_tag, is_any, is_indirect, all_found, strip_tags, check_tag, is_untyped,
  has_type, check_type, as_number, is_valued, is_numeric, is_string, is_uint, equals, check_literal,
  above_min, below_max, check_range, bit_of, mask_of, within_mask, check_mask, check_bits, len,
  above_min_size, below_max_size, check_size, check_value,
}

checked : (b : Bool) → Ends (require Exception.validation_error b)
checked true = returns tt
checked false = raises _

all_found-Ends : (tags : List ℕ) (obj : Obj) → Ends (all_found tags obj)
all_found-Ends [] obj = returns tt
all_found-Ends (t ∷ tags) obj = raises _

pub check_key-Ends : (obj : Obj) → Ends (check_key obj)
unfolding check_key
check_key-Ends (key_tuple k v) = raises _
check_key-Ends _ = returns tt

strip_tags-Ends : (k : Kind) (tags : List ℕ) (obj : Obj) → Ends (strip_tags k tags obj)
unfolding strip_tags
strip_tags-Ends k tags (tag t obj) =
    Ensures-if (has_tag t tags) (λ _. strip_tags-Ends k (remove_tag t tags) obj)
      λ _.
        Ensures-if (is_any k) (λ _. strip_tags-Ends k tags obj)
          λ _. Ensures-if (is_indirect k) (λ _. all_found-Ends tags (tag t obj)) (λ _. raises _)
strip_tags-Ends k tags _ = all_found-Ends tags _

pub check_tag-Ends : (e : Elem) (obj : Obj) → Ends (check_tag e obj)
unfolding check_tag
check_tag-Ends e obj = strip_tags-Ends (kind e) (attrs e).tags obj

pub check_type-Ends : (e : Elem) (obj : Obj) → Ends (check_type e obj)
unfolding check_type
check_type-Ends e obj =
    Ensures-if (is_indirect (kind e)) (λ _. returns tt)
      λ _. Ensures-if (is_untyped (kind e)) (λ _. raises _) (λ _. checked (has_type (kind e) obj))

check_literal-Ends : (e : Elem) (obj : Obj) → Ends (check_literal e obj)
unfolding check_literal
check_literal-Ends e obj =
    Ensures-if (is_valued (kind e) && has_value (value e)) (λ _. checked (equals (value e) obj))
      (λ _. returns tt)

check_range-Ends : (e : Elem) (obj : Obj) → Ends (check_range e obj)
unfolding check_range
check_range-Ends e obj =
    Ensures-if (is_numeric (kind e))
      (λ _. Ensures-bind (or_raise-Ensures Exception.type_error (as_number obj)) λ n _.
        Ensures-bind {r = require Exception.validation_error (above_min (attrs e) n)}
          (checked (above_min (attrs e) n)) λ _ _. checked (below_max (attrs e) n))
      (λ _. returns tt)

bit_of-Ends : (v : Value) → Ends (bit_of v)
unfolding bit_of
bit_of-Ends (number (Number.int (pos n))) = returns tt
bit_of-Ends (number (Number.int (negsuc n))) = raises _
bit_of-Ends (number (Number.float x)) = raises _
bit_of-Ends _ = raises _

mask_of-Ends : (bs : Elems) → Ends (mask_of bs)
unfolding mask_of
mask_of-Ends no_elems = returns tt
mask_of-Ends (elems b bs) =
    Ensures-bind (bit_of-Ends (value b)) λ _ _. Ensures-bind (mask_of-Ends bs) λ _ _. returns tt

check_mask-Ends :
    (cddl : Cddl) (group : Option String) (obj : Obj) → Ends (check_mask cddl group obj)
unfolding check_mask
check_mask-Ends cddl none obj = returns tt
check_mask-Ends cddl (some group) obj =
    Ensures-bind (or_raise-Ensures Exception.key_error (find group cddl.control_groups))
      λ g _. Ensures-bind (mask_of-Ends (children g)) λ mask _. checked (within_mask mask obj)

check_bits-Ends : (cddl : Cddl) (e : Elem) (obj : Obj) → Ends (check_bits cddl e obj)
unfolding check_bits
check_bits-Ends cddl e obj =
    Ensures-if (is_uint (kind e)) (λ _. check_mask-Ends cddl (attrs e).bits obj) (λ _. returns tt)

check_size-Ends : (e : Elem) (obj : Obj) → Ends (check_size e obj)
unfolding check_size
check_size-Ends e obj =
    Ensures-if (is_string (kind e))
      (λ _.
        Ensures-bind {r = require Exception.validation_error (above_min_size (attrs e) (len obj))}
          (checked (above_min_size (attrs e) (len obj)))
          λ _ _. checked (below_max_size (attrs e) (len obj)))
      (λ _. returns tt)

pub check_value-Ends : (cddl : Cddl) (e : Elem) (obj : Obj) → Ends (check_value cddl e obj)
unfolding check_value
check_value-Ends cddl e obj = Ensures-bind (check_literal-Ends e obj) λ _ _.
    Ensures-bind (check_range-Ends e obj)
      λ _ _. Ensures-bind (check_bits-Ends cddl e obj) λ _ _. check_size-Ends e obj
