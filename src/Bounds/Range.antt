-- ===== src/Bounds/Range.antt =====
-- zcbor/zcbor.py, class CddlParser: `type_and_range`, and `set_value` for a number.
use zcbor.Prelude.{ℕ, pos, negsuc, abs, max, Bool, true, not, ◌||◌, none, some, if◌then◌else◌}
use zcbor.Outcome.{Result, ok, raised, Exception, require, ◌>>=◌, ◌>>◌}
use zcbor.Number.{Number, number_lt, number_eq}
use zcbor.Elem.{Kind, Attrs, Value, number, has_value}
use zcbor.Sizes.{sizeof}
use zcbor.Conditions.{is_integer}
use zcbor.Bounds.{
  is_float, is_untyped, add_modifier, set_min_value, set_max_value, set_size_range, nesting,
}

-- `sizeof` of a bound of an integer element; `bit_length` has refused floats before.
unfoldable pub size_of : Number → Result ℕ
size_of (Number.int n) = sizeof n
size_of (Number.float x) = raised Exception.attribute_error

-- `sizeof(abs(...))`.
unfoldable pub size_of_abs : Number → Result ℕ
size_of_abs (Number.int n) = sizeof (pos (abs n))
size_of_abs (Number.float x) = raised Exception.attribute_error

-- `self.size`, `self.min_value` and `self.max_value` for a literal "UINT" or "NINT".
unfoldable pub set_literal : Number → Attrs → Result Attrs
set_literal n a = do
  s ← size_of n
  b ← set_min_value nesting n true (record a { size = some (pos s) })
  set_max_value nesting n true b

unfoldable pub literal_bounds : Kind → Number → Attrs → Result Attrs
literal_bounds Kind.uint n a = set_literal n a
literal_bounds Kind.nint n a =
    set_literal n a >>= λ b. ok (record b { max_value = some (Number.int (negsuc 0)) })
literal_bounds k n a = ok a

-- `type_and_value` with a number, for the types that `type_and_range` gives; `v` is `self.value`.
unfoldable pub type_and_number : Kind → Number → Value → Attrs → Result (Attrs × Value)
type_and_number new_type n v a = do
  require Exception.parsing_error (is_untyped a.kind)
  require Exception.parsing_error (not (has_value v))
  b ← add_modifier "value" (record a { kind = new_type })
  c ← literal_bounds new_type n b
  ok (c, number n)

-- The sizes that a range gives. `new_type in "UINT"` also holds for "INT", a part of that text.
unfoldable pub range_sizes : Kind → Number → Number → Value → Attrs → Result Attrs
range_sizes Kind.uint lo hi v a = do
  s ← size_of lo
  t ← size_of hi
  set_size_range v (some (pos s)) (some (pos t)) a
range_sizes Kind.nint lo hi v a = do
  s ← size_of_abs hi
  t ← size_of_abs lo
  set_size_range v (some (pos s)) (some (pos t)) a
range_sizes Kind.int lo hi v a = do
  s ← size_of lo
  t ← size_of hi
  b ← set_size_range v (some (pos s)) (some (pos t)) a
  s' ← size_of_abs hi
  t' ← size_of_abs lo
  set_size_range v none (some (pos (max s' t'))) b
range_sizes k lo hi v a = ok a

unfoldable pub set_range : Kind → Number → Number → Bool → Value → Attrs → Result Attrs
set_range new_type lo hi inc_end v a = do
  b ← set_min_value nesting lo true (record a { kind = new_type })
  c ← set_max_value nesting hi inc_end b
  d ← range_sizes new_type lo hi v c
  add_modifier "range" d

unfoldable pub type_and_range :
    Kind → Number → Number → Bool → Value → Attrs → Result (Attrs × Value)
type_and_range new_type min_val max_val inc_end v a = do
  require Exception.value_error (is_integer new_type || is_float new_type)
  require Exception.parsing_error (not (number_lt max_val min_val))
  if number_eq min_val max_val
      then (require Exception.parsing_error inc_end >> type_and_number new_type min_val v a)
      else (set_range new_type min_val max_val inc_end v a >>= λ b. ok (b, v))
