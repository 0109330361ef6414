-- ===== src/BitSize.antt =====
-- zcbor/zcbor.py, class CodeGenerator: the widths of C numbers: `bit_size` for an integer
-- element, `float_type` for a float.
pub mod Fits
use zcbor.Prelude.{
  String, leb_ℤ, eqb_ℤ, ℕ, ◌+◌, ◌-◌, ◌*◌, ◌^◌, ◌<◌, ◌≤◌, ◌≡◌, refl, max, ltb, leb, ◌==◌, ltb_ℤ,
  ◌≤ℤ◌, ◌⊎◌, inl, inr, ℤ, pos, negsuc, Bool, true, false, not, ◌&&◌, ◌||◌, Option, none, some, List,
  [], ◌∷◌, if◌then◌else◌, arith,
}
use zcbor.Outcome.{Result, ok, raised, Exception, require, ◌>>=◌, ◌>>◌}
use zcbor.Number.{Number}
use zcbor.Elem.{Kind, Attrs, Elem, Value, number, attrs, value, kind}

abbrev pub is_uint_kind : Kind → Bool
is_uint_kind Kind.uint = true
is_uint_kind _ = false

abbrev pub is_integer : Kind → Bool
is_integer Kind.uint = true
is_integer Kind.int = true
is_integer Kind.nint = true
is_integer _ = false

abbrev pub is_float_kind : Kind → Bool
is_float_kind Kind.float = true
is_float_kind _ = false

-- `x or default`: 0 counts as absent.
abbrev pub or_default : Option ℤ → ℤ → ℤ
or_default none default = default
or_default (some (pos n)) default = if n == 0 then default else pos n
or_default (some n) default = n

abbrev pub int_of_number : Number → Option ℤ
int_of_number (Number.int n) = some n
int_of_number (Number.float x) = none

-- The bounds and the value of an integer element, which the parser sets to integers.
abbrev pub int_value : Value → Option ℤ
int_value (number n) = int_of_number n
int_value v = none

abbrev pub int_bound : Option Number → Option ℤ
int_bound none = none
int_bound (some n) = int_of_number n

-- `INT_MAX[w]`, `-INT_MIN[w]` and the largest unsigned number, of w bits.
abbrev pub int_max : ℕ → ℕ
int_max w = 2 ^ (w - 1) - 1

abbrev pub int_min : ℕ → ℤ
int_min w = negsuc (2 ^ (w - 1) - 1)

unfoldable pub unsigned_width : ℤ → ℕ
unsigned_width v =
    if ltb_ℤ (pos 0xFFFF_FFFF) v
    then 64
    else if ltb_ℤ (pos 0xFFFF) v
    then 32
    else if ltb_ℤ (pos 0xFF) v
    then 16
    else 8

unfoldable pub signed_width : ℤ → ℕ
signed_width v =
    if ltb_ℤ (pos 0x7FFF_FFFF) v || ltb_ℤ v (negsuc 0x7FFF_FFFF)
    then 64
    else if ltb_ℤ (pos 0x7FFF) v || ltb_ℤ v (negsuc 0x7FFF)
    then 32
    else if ltb_ℤ (pos 0x7F) v || ltb_ℤ v (negsuc 0x7F)
    then 16
    else 8

unfoldable pub width_of : Kind → ℤ → ℕ
unfolding unsigned_width signed_width
width_of k v = if is_uint_kind k then unsigned_width v else signed_width v

abbrev pub is_width : ℕ → Bool
is_width w = w == 8 || w == 16 || w == 32 || w == 64

abbrev pub default_low : Kind → ℕ → ℤ
default_low k default = if is_uint_kind k then pos 0 else int_min default

-- `max(candidates)`, over the value, the maximum and the minimum.
unfoldable pub widest : ℕ → Elem → ℕ
unfolding width_of
widest default e = max (width_of (kind e) (or_default (int_value (value e)) (pos 0))) (
    max (width_of (kind e) (or_default (int_bound (attrs e).max_value) (pos (int_max default)))) (
      width_of (kind e)
        (or_default (int_bound (attrs e).min_value) (default_low (kind e) default))))

unfoldable pub bit_size : ℕ → Elem → Result (Option ℕ)
unfolding widest
bit_size default_bit_size e =
    if is_integer (kind e)
    then (do
      require Exception.assertion_error (is_width default_bit_size)
      ok (some (widest default_bit_size e)))
    else ok none

-- The C integer of `w` bits that the type stands for holds the number.
abbrev pub Holds : Bool → ℕ → ℤ → Type 0
Holds unsigned w n =
    if unsigned
    then (pos 0 ≤ℤ n) × (n ≤ℤ pos (2 ^ w - 1))
    else (int_min w ≤ℤ n) × (n ≤ℤ pos (int_max w))

-- The C type of a floating point number, and `None` for other elements.
unfoldable pub float_type : Elem → Result (Option String)
float_type e =
    if is_float_kind (kind e)
    then (let size = or_default (attrs e).max_size (pos 8) in
        if leb_ℤ size (pos 4)
        then ok (some "float")
        else if eqb_ℤ size (pos 8)
        then ok (some "double")
        else raised Exception.value_error)
    else ok none
