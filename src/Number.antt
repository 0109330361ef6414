-- ===== src/Number.antt =====
-- zcbor/zcbor.py: Python's numbers as the code compares them, `int` and `float` together.
use zcbor.Prelude.{◌^◌, ℤ, leb_ℤ, ltb_ℤ, eqb_ℤ, scale, Bool, true, false}

-- An IEEE 754 binary64. `finite m` is m * 2 ^ -1074: every finite double is such a multiple.
pub data Float : Type 0 where
  finite : ℤ → Float
  pos_inf neg_inf nan : Float

pub data Number : Type 0 where
  int : ℤ → Number
  float : Float → Number

-- A number in multiples of 2 ^ -1074.
unfoldable pub units : Number → Float
units (int n) = finite (scale n (2 ^ 1074))
units (float x) = x

-- `<=`, `<` and `==`; Python compares an int with a float exactly, and nothing with nan.
unfoldable pub float_le : Float → Float → Bool
float_le nan y = false
float_le x nan = false
float_le neg_inf y = true
float_le x pos_inf = true
float_le (finite a) (finite b) = leb_ℤ a b
float_le x y = false

unfoldable pub float_lt : Float → Float → Bool
float_lt nan y = false
float_lt x nan = false
float_lt neg_inf neg_inf = false
float_lt neg_inf y = true
float_lt pos_inf y = false
float_lt (finite a) pos_inf = true
float_lt (finite a) (finite b) = ltb_ℤ a b
float_lt x y = false

unfoldable pub float_eq : Float → Float → Bool
float_eq (finite a) (finite b) = eqb_ℤ a b
float_eq pos_inf pos_inf = true
float_eq neg_inf neg_inf = true
float_eq x y = false

unfoldable pub number_le : Number → Number → Bool
number_le (int a) (int b) = leb_ℤ a b
number_le a b = float_le (units a) (units b)

unfoldable pub number_lt : Number → Number → Bool
number_lt (int a) (int b) = ltb_ℤ a b
number_lt a b = float_lt (units a) (units b)

unfoldable pub number_eq : Number → Number → Bool
number_eq (int a) (int b) = eqb_ℤ a b
number_eq a b = float_eq (units a) (units b)
