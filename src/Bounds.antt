-- ===== src/Bounds.antt =====
-- zcbor/zcbor.py, class CddlParser: the methods that set the bounds and the sizes of an element, up to
-- `type_and_range`.
pub mod Range
pub mod Bits
pub mod Sizes
pub mod Kept
pub mod Uint
pub mod Accepts
pub mod Nesting
pub mod Ending
pub mod Apart
pub mod Order
use zcbor.Prelude.{
  ℕ, zero, suc, ◌-◌, ◌/◌, ◌^◌, leb, leb_ℤ, ltb_ℤ, eqb_ℤ, ◌==◌, ℤ, pos, negsuc, abs, str_eq, any_of,
  ◌++◌, String, Bool, true, false, not, ◌&&◌, ◌||◌, Option, none, some, List, [], ◌∷◌,
  if◌then◌else◌,
}
use zcbor.Outcome.{Result, ok, raised, out_of_fuel, Exception, require, ◌>>=◌, ◌>>◌}
use zcbor.Number.{Number, number_le, number_lt, number_eq}
use zcbor.Elem.{Kind, Attrs, Value, no_value, number, has_value}
use zcbor.Sizes.{sizeof, divide_round_up, bit_length}
use zcbor.Conditions.{is_integer, is_uint, is_string}

abbrev pub is_float : Kind → Bool
is_float Kind.float = true
is_float _ = false

abbrev pub is_untyped : Kind → Bool
is_untyped Kind.untyped = true
is_untyped _ = false

-- `add_modifier` with `no_duplicates`; the modifiers are the keys of the dictionary.
unfoldable pub add_modifier : String → Attrs → Result Attrs
add_modifier modifier a =
    if any_of (str_eq modifier) a.modifiers
    then raised Exception.parsing_error
    else ok (record a { modifiers = a.modifiers ++ (modifier ∷ []) })

unfoldable pub check_byte_count : Kind → ℤ → Result (Unit {0})
check_byte_count k size = do
  require Exception.parsing_error (not (is_integer k) || (leb_ℤ (pos 0) size && leb_ℤ size (pos 8)))
  require Exception.parsing_error
      (not (is_float k) || eqb_ℤ size (pos 2) || eqb_ℤ size (pos 4) || eqb_ℤ size (pos 8))
  require Exception.parsing_error (not (is_string k) || leb_ℤ (pos 0) size)

-- `divide_round_up(value.bit_length(), 8)`; a float has no `bit_length`.
unfoldable pub bytes_of : Number → Result ℤ
bytes_of (Number.int n) = ok (pos (divide_round_up (bit_length n) 8))
bytes_of (Number.float x) = raised Exception.attribute_error

-- `0 if min_size <= 1 else 256 ** (min_size - 1)`.
unfoldable pub least_of : ℤ → Number
least_of (pos s) = Number.int (pos (if leb s 1 then 0 else 256 ^ (s - 1)))
least_of (negsuc s) = Number.int (pos 0)

-- `256**max_size - 1`, for a size that is not negative.
unfoldable pub most_of : ℤ → Number
most_of s = Number.int (pos (256 ^ abs s - 1))

-- Whether a bound of the element is already as tight.
abbrev pub at_least : Option Number → Number → Bool
at_least none v = false
at_least (some m) v = number_le v m

abbrev pub at_most : Option Number → Number → Bool
at_most none v = false
at_most (some m) v = number_le m v

abbrev pub size_at_least : Option ℤ → ℤ → Bool
size_at_least none s = false
size_at_least (some m) s = leb_ℤ s m

abbrev pub size_at_most : Option ℤ → ℤ → Bool
size_at_most none s = false
size_at_most (some m) s = leb_ℤ m s

abbrev pub is_zero : ℤ → Bool
is_zero n = eqb_ℤ n (pos 0)

abbrev pub no_bound : Option Number → Bool
no_bound none = true
no_bound (some n) = false

-- `set_min_size` of a size that is not `None`; `set_value` stands for its call of `set_min_value`.
unfoldable pub set_min_size_by : (Number → Attrs → Result Attrs) → ℤ → Attrs → Result Attrs
set_min_size_by set_value min_size a =
    check_byte_count a.kind min_size >> elim (size_at_least a.min_size min_size) [
      | true ↦ ok a
      | false ↦
          (elim (is_uint a.kind) [ true ↦ set_value (least_of min_size) a | false ↦ ok a ]) >>= λ b.
          ok (record b { min_size = some min_size })
    ]

unfoldable pub set_min_value : ℕ → Number → Bool → Attrs → Result Attrs
set_min_value zero min_value inclusive a = out_of_fuel
set_min_value (suc f) min_value inclusive a = elim (at_least a.min_value min_value) [
  | true ↦ ok a
  | false ↦
      let b : Attrs = record a { min_value = some min_value; min_value_inclusive = inclusive } in
      elim (is_integer a.kind) [
        | true ↦ bytes_of min_value >>= λ s. set_min_size_by (λ v c. set_min_value f v true c) s b
        | false ↦ ok b
      ]
]

-- `set_max_size` of a size that is not `None`; `set_value` stands for its call of `set_max_value`.
unfoldable pub set_max_size_by : (Number → Attrs → Result Attrs) → ℤ → Attrs → Result Attrs
set_max_size_by set_value max_size a = elim (size_at_most a.max_size max_size) [
  | true ↦ ok a
  | false ↦
      check_byte_count a.kind max_size
      >> ((elim (is_uint a.kind && not (is_zero max_size) && no_bound a.max_value) [
        | true ↦ set_value (most_of max_size) a
        | false ↦ ok a
      ])
          >>= λ b. ok (record b { max_size = some max_size }))
]

unfoldable pub set_max_value : ℕ → Number → Bool → Attrs → Result Attrs
set_max_value zero max_value inclusive a = out_of_fuel
set_max_value (suc f) max_value inclusive a = elim (at_most a.max_value max_value) [
  | true ↦ ok a
  | false ↦
      let b : Attrs = record a { max_value = some max_value; max_value_inclusive = inclusive } in
      elim (is_integer a.kind) [
        | true ↦ bytes_of max_value >>= λ s. set_max_size_by (λ v c. set_max_value f v true c) s b
        | false ↦ ok b
      ]
]

-- The nesting of the calls of `set_min_value`, and so of `set_max_value`, is at most 3.
abbrev pub nesting : ℕ
nesting = 3

unfoldable pub set_min_size : Option ℤ → Attrs → Result Attrs
set_min_size none a = ok a
set_min_size (some s) a = set_min_size_by (λ v c. set_min_value nesting v true c) s a

unfoldable pub set_max_size : Option ℤ → Attrs → Result Attrs
set_max_size none a = ok a
set_max_size (some s) a = set_max_size_by (λ v c. set_max_value nesting v true c) s a

-- `v` is `self.value`.
unfoldable pub enforce_sizeable : Value → Attrs → Result (Unit {0})
enforce_sizeable v a = do
  require Exception.parsing_error (is_string a.kind || is_integer a.kind || is_float a.kind)
  require Exception.parsing_error (not (has_value v) || is_float a.kind)

abbrev pub is_negative : Option ℤ → Bool
is_negative none = false
is_negative (some n) = ltb_ℤ n (pos 0)

abbrev pub is_above : Option ℤ → Option ℤ → Bool
is_above (some a) (some b) = ltb_ℤ b a
is_above a b = false

-- `set_size_range` for an end that is included.
unfoldable pub set_size_range : Value → Option ℤ → Option ℤ → Attrs → Result Attrs
set_size_range v min_size max_size a = do
  enforce_sizeable v a
  require Exception.parsing_error
      (not (is_negative min_size || is_negative max_size || is_above min_size max_size))
  b ← set_min_size min_size a
  set_max_size max_size b

-- `set_size`, where the size of an integer has been checked to lie from 0 to 8.
unfoldable pub set_size_of : Kind → ℤ → Value → Attrs → Result Attrs
set_size_of Kind.int s v a = ok (record a {
  max_value = some (Number.int (if is_zero s then negsuc 0 else pos (256 ^ abs s / 2 - 1)));
  min_value = some (Number.int (if is_zero s then pos 0 else negsuc (256 ^ abs s / 2 - 1)));
})
set_size_of Kind.uint s v a = ok (record a { max_value = some (most_of s) })
set_size_of Kind.nint s v a = ok (record a {
  min_value = some (Number.int (if is_zero s then pos 0 else negsuc (256 ^ abs s / 2 - 1)));
})
set_size_of k s v a = set_size_range v (some s) (some s) a

unfoldable pub set_size : ℤ → Value → Attrs → Result Attrs
set_size s v a = do
  enforce_sizeable v a
  check_byte_count a.kind s
  b ← set_size_of a.kind s v a
  ok (record b { size = some s })
