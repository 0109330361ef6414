-- ===== src/Translator/Check.antt =====
-- zcbor/zcbor.py, class DataTranslator: `_check_key`, `_check_tag`, `_check_type`, `_check_value`.
use Prim.Native.Nat.{bit_and}
use Prim.Native.String.{count}
use zcbor.Prelude.{
  ℕ, pos, negsuc, leb_ℤ, ◌+◌, ◌^◌, ◌==◌, String, str_eq, Bool, true, false, ◌&&◌, Option, none,
  some, List, [], ◌∷◌, length, any_of, if◌then◌else◌,
}
use zcbor.Outcome.{Result, ok, raised, Exception, require, or_raise, ◌>>=◌, ◌>>◌}
use zcbor.Number.{Number, number_le, number_lt, number_eq}
use zcbor.Elem.{
  Kind, Attrs, Elem, Value, number, text, truth, Elems, no_elems, elems, Cddl, attrs, value, kind,
  children, has_value, find,
}
use zcbor.Data.{Obj, key_tuple, tag}

unfoldable pub check_key : Obj → Result (Unit {0})
check_key (key_tuple k v) = raised Exception.validation_error
check_key obj = ok tt

-- `tag in tags`, and `tags.remove(tag)`, which removes the first.
abbrev pub has_tag : ℕ → List ℕ → Bool
has_tag t = any_of (λ s. s == t)

abbrev pub remove_tag : ℕ → List ℕ → List ℕ
remove_tag t [] = []
remove_tag t (s ∷ tags) = if s == t then tags else s ∷ remove_tag t tags

-- "OTHER", "GROUP" and "UNION": what is checked further down.
abbrev pub is_indirect : Kind → Bool
is_indirect Kind.other = true
is_indirect Kind.group = true
is_indirect Kind.union = true
is_indirect _ = false

abbrev pub is_any : Kind → Bool
is_any Kind.any = true
is_any _ = false

-- `assert not tags` after the loop.
abbrev pub all_found : List ℕ → Obj → Result Obj
all_found [] obj = ok obj
all_found (t ∷ tags) obj = raised Exception.validation_error

-- The loop of `_check_tag` over the tags still expected.
unfoldable pub strip_tags : Kind → List ℕ → Obj → Result Obj
strip_tags k tags (tag t obj) =
    let expected = strip_tags k (remove_tag t tags) obj in
    let skipped = strip_tags k tags obj in
    if has_tag t tags
    then expected
    else if is_any k
    then skipped
    else if is_indirect k
    then all_found tags (tag t obj)
    else raised Exception.validation_error
strip_tags k tags obj = all_found tags obj

-- The early return, for no tag expected and none present, is what the loop gives too.
unfoldable pub check_tag : Elem → Obj → Result Obj
unfolding strip_tags
check_tag e obj = strip_tags (kind e) (attrs e).tags obj

-- `type(obj) in self._exp_types[...]`.
unfoldable pub has_type : Kind → Obj → Bool
has_type Kind.uint (Obj.int n) = true
has_type Kind.int (Obj.int n) = true
has_type Kind.nint (Obj.int n) = true
has_type Kind.float (Obj.float x) = true
has_type Kind.tstr (Obj.str s) = true
has_type Kind.bstr (Obj.bytes b) = true
has_type Kind.nil Obj.null = true
has_type Kind.undef Obj.undefined = true
has_type Kind.bool (Obj.bool b) = true
has_type Kind.list (Obj.list xs) = true
has_type Kind.list (Obj.tuple xs) = true
has_type Kind.map (Obj.dict m) = true
has_type Kind.any (Obj.tuple xs) = false
has_type Kind.any (Obj.tag t x) = false
has_type Kind.any (Obj.key_tuple k v) = false
has_type Kind.any (Obj.named fs) = false
has_type Kind.any obj = true
has_type k obj = false

abbrev pub is_untyped : Kind → Bool
is_untyped Kind.untyped = true
is_untyped _ = false

unfoldable pub check_type : Elem → Obj → Result (Unit {0})
unfolding has_type
check_type e obj =
    if is_indirect (kind e)
    then ok tt
    else if is_untyped (kind e)
    then raised Exception.key_error
    else require Exception.validation_error (has_type (kind e) obj)

-- What Python compares as a number; a `bool` is 0 or 1.
abbrev pub truth_number : Bool → Number
truth_number b = Number.int (pos (if b then 1 else 0))

abbrev pub as_number : Obj → Option Number
as_number (Obj.int n) = some (Number.int n)
as_number (Obj.float x) = some (Number.float x)
as_number (Obj.bool b) = some (truth_number b)
as_number obj = none

abbrev pub number_equals : Number → Obj → Bool
number_equals n obj = elim (as_number obj) [ none ↦ false | some m ↦ number_eq n m ]

-- `self.value == obj`. A `str` never equals a `bytes`: the encoded copy of a "BSTR" value is not
-- what the code compares.
unfoldable pub equals : Value → Obj → Bool
equals (number n) obj = number_equals n obj
equals (text s) (Obj.str t) = str_eq s t
equals (truth b) obj = number_equals (truth_number b) obj
equals v obj = false

abbrev pub is_valued : Kind → Bool
is_valued Kind.uint = true
is_valued Kind.int = true
is_valued Kind.nint = true
is_valued Kind.float = true
is_valued Kind.tstr = true
is_valued Kind.bstr = true
is_valued Kind.bool = true
is_valued _ = false

abbrev pub is_numeric : Kind → Bool
is_numeric Kind.uint = true
is_numeric Kind.int = true
is_numeric Kind.nint = true
is_numeric Kind.float = true
is_numeric _ = false

abbrev pub is_string : Kind → Bool
is_string Kind.tstr = true
is_string Kind.bstr = true
is_string _ = false

abbrev pub is_uint : Kind → Bool
is_uint Kind.uint = true
is_uint _ = false

unfoldable pub check_literal : Elem → Obj → Result (Unit {0})
unfolding equals
check_literal e obj =
    if is_valued (kind e) && has_value (value e)
    then require Exception.validation_error (equals (value e) obj)
    else ok tt

-- `obj >= self.min_value if self.min_value_inclusive else obj > self.min_value`, if there is one.
unfoldable pub above_min : Attrs → Number → Bool
above_min a n = elim a.min_value [
  | none ↦ true
  | some m ↦ if a.min_value_inclusive then number_le m n else number_lt m n
]

unfoldable pub below_max : Attrs → Number → Bool
below_max a n = elim a.max_value [
  | none ↦ true
  | some m ↦ if a.max_value_inclusive then number_le n m else number_lt n m
]

unfoldable pub check_range : Elem → Obj → Result (Unit {0})
unfolding above_min below_max
check_range e obj =
    if is_numeric (kind e)
    then (do
      n ← or_raise Exception.type_error (as_number obj)
      require Exception.validation_error (above_min (attrs e) n)
      require Exception.validation_error (below_max (attrs e) n))
    else ok tt

-- `1 << b.value`.
unfoldable pub bit_of : Value → Result ℕ
bit_of (number (Number.int (pos n))) = ok (2 ^ n)
bit_of (number (Number.int (negsuc n))) = raised Exception.value_error
bit_of v = raised Exception.type_error

unfoldable pub mask_of : Elems → Result ℕ
unfolding bit_of
mask_of no_elems = ok 0
mask_of (elems b bs) = do m ← bit_of (value b); rest ← mask_of bs; ok (m + rest)

-- `not (obj & ~mask)`: a negative number has bits above every mask.
unfoldable pub within_mask : ℕ → Obj → Bool
within_mask mask (Obj.int (pos n)) = bit_and n mask == n
within_mask mask obj = false

-- The body of `if self.bits`, at the name of the control group.
unfoldable pub check_mask : Cddl → Option String → Obj → Result (Unit {0})
unfolding mask_of within_mask
check_mask cddl none obj = ok tt
check_mask cddl (some group) obj = do
  g ← or_raise Exception.key_error (find group cddl.control_groups)
  mask ← mask_of (children g)
  require Exception.validation_error (within_mask mask obj)

unfoldable pub check_bits : Cddl → Elem → Obj → Result (Unit {0})
unfolding check_mask
check_bits cddl e obj = if is_uint (kind e) then check_mask cddl (attrs e).bits obj else ok tt

-- `len(obj)`.
unfoldable pub len : Obj → ℕ
len (Obj.str s) = count s
len (Obj.bytes b) = length b
len obj = 0

unfoldable pub above_min_size : Attrs → ℕ → Bool
above_min_size a n = elim a.min_size [ none ↦ true | some m ↦ leb_ℤ m (pos n) ]

unfoldable pub below_max_size : Attrs → ℕ → Bool
below_max_size a n = elim a.max_size [ none ↦ true | some m ↦ leb_ℤ (pos n) m ]

unfoldable pub check_size : Elem → Obj → Result (Unit {0})
unfolding above_min_size below_max_size len
check_size e obj =
    if is_string (kind e)
    then (do
      require Exception.validation_error (above_min_size (attrs e) (len obj))
      require Exception.validation_error (below_max_size (attrs e) (len obj)))
    else ok tt

unfoldable pub check_value : Cddl → Elem → Obj → Result (Unit {0})
unfolding check_literal check_range check_bits check_size
check_value cddl e obj = do
  check_literal e obj
  check_range e obj
  check_bits cddl e obj
  check_size e obj
