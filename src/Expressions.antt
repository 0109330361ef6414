-- ===== src/Expressions.antt =====
-- zcbor/zcbor.py, class CodeGenerator: the texts of C expressions that `_num_map_search_flags` puts together
-- (`s_filter`, `s_sum`, `s_max`, `s_mult`, `s_round_bits_to_nearest_byte`).
pub mod Shown
pub mod Products
use Prim.Native.Char.{Char, code}
use Prim.Native.String as String
use zcbor.Prelude.{
  ℕ, zero, suc, ◌+◌, ◌*◌, leb, ◌==◌, max, String, str_eq, Bool, true, false, not, ◌&&◌, ◌||◌,
  Option, none, some, List, [], ◌∷◌, map, if◌then◌else◌,
}
use zcbor.Outcome.{
  Result, ok, raised, out_of_fuel, Exception, require, and_also, or_else, ◌>>=◌, ◌>>◌,
}
use zcbor.Elem.{
  Kind, Elem, Elems, no_elems, elems, Slot, absent, present, Cddl, attrs, key, cbor, kind, children,
  resolve,
}
use zcbor.Sizes.{divide_round_up}
use zcbor.Counts.{sum, prod}
use zcbor.Texts.{decimal, isdigit, int_of}
use zcbor.Unambiguous.{is_other}
use zcbor.Quantity.{count_var_condition, present_var_condition}
use zcbor.PostValidate.{is_list, is_map, is_parent, is_union, is_group_kind}

-- `x in ("", "0")`.
abbrev pub is_nothing : String → Bool
is_nothing s = str_eq s "" || str_eq s "0"

unfoldable pub s_filter : List String → List String
s_filter [] = []
s_filter (s ∷ it) = let rest = s_filter it in if is_nothing s then rest else s ∷ rest

abbrev pub all_digits : List String → Bool
all_digits [] = true
all_digits (s ∷ it) = isdigit s && all_digits it

-- `separator.join(it)`.
abbrev pub join : String → List String → String
join separator [] = ""
join separator (s ∷ []) = s
join separator (s ∷ t ∷ it) = String.◌++◌ s (String.◌++◌ separator (join separator (t ∷ it)))

abbrev pub sum_text : List String → String
sum_text it = if all_digits it then decimal (sum (map int_of it)) else join " + " it

unfoldable pub s_sum : List String → String
unfolding s_filter
s_sum it = sum_text (s_filter it)

abbrev pub highest : List ℕ → ℕ
highest [] = 0
highest (n ∷ ns) = max n (highest ns)

-- `s_max` of what is filtered already, as what follows the first text is.
abbrev pub max_text : List String → String
max_text [] = ""
max_text (s ∷ []) = s
max_text (s ∷ t ∷ it) =
    if all_digits (s ∷ t ∷ it)
    then decimal (highest (map int_of (s ∷ t ∷ it)))
    else String.◌++◌ "MAX(" (String.◌++◌ s (String.◌++◌ ", " (String.◌++◌ (max_text (t ∷ it)) ")")))

unfoldable pub s_max : List String → String
unfolding s_filter
s_max it = max_text (s_filter it)

-- `s.strip("()")`.
abbrev pub is_bracket : Char → Bool
is_bracket c = code c == b'(' || code c == b')'

unfoldable pub lstrip : String → String
lstrip String.[] = ""
lstrip (String.◌∷◌ c s) = let rest = lstrip s in if is_bracket c then rest else String.◌∷◌ c s

abbrev pub front : Char → String → String
front c String.[] = if is_bracket c then "" else String.◌∷◌ c ""
front c (String.◌∷◌ d s) = String.◌∷◌ c (String.◌∷◌ d s)

unfoldable pub rstrip : String → String
rstrip String.[] = ""
rstrip (String.◌∷◌ c s) = front c (rstrip s)

abbrev pub strip : String → String
strip s = rstrip (lstrip s)

abbrev pub some_nothing : List String → Bool
some_nothing [] = false
some_nothing (s ∷ it) = is_nothing s || some_nothing it

unfoldable pub without_ones : List String → List String
unfolding lstrip rstrip
without_ones [] = []
without_ones (s ∷ it) =
    let rest = without_ones it in if str_eq (strip s) "1" then rest else s ∷ rest

abbrev pub product_text : List String → String
product_text it = if all_digits it then decimal (prod (map int_of it)) else join " * " it

-- The texts with "+" are put into an f-string, which leaves them as they are.
unfoldable pub s_mult : List String → String
unfolding without_ones
s_mult [] = ""
s_mult (s ∷ it) = if some_nothing (s ∷ it) then "" else product_text (without_ones (s ∷ it))

unfoldable pub s_round_bits_to_nearest_byte : String → String
s_round_bits_to_nearest_byte s =
    if is_nothing s
    then ""
    else if isdigit s
    then decimal (divide_round_up (int_of s) 8 * 8)
    else String.◌++◌ "ZCBOR_ROUND_UP(" (String.◌++◌ s ", 8)")

-- `total_nested if total_nested.isdigit() else f"({total_nested})"`.
abbrev pub in_brackets : String → String
in_brackets s = if isdigit s then s else String.◌++◌ "(" (String.◌++◌ s ")")
