-- ===== src/Texts.antt =====
-- The texts of numbers and bytes that zcbor/zcbor.py makes and reads: `bytes.hex`, `bytes.fromhex`, and an
-- int in an f-string.
pub mod Exact
use Prim.Native.Char.{Char, code, nul}
use Prim.Native.String as String
use zcbor.Prelude.{
  ℕ, zero, suc, ◌+◌, ◌-◌, ◌*◌, ◌/◌, ◌%◌, ltb, leb, ◌==◌, String, Bool, true, false, ◌&&◌, ◌||◌,
  Option, none, some, List, [], ◌∷◌, if◌then◌else◌,
}
use zcbor.Outcome.{Result, ok, raised, Exception, ◌>>=◌}

-- A character of a text, by its place.
abbrev pub nth : String → ℕ → Char
nth String.[] n = nul
nth (String.◌∷◌ c s) zero = c
nth (String.◌∷◌ c s) (suc n) = nth s n

abbrev pub digit : ℕ → Char
digit n = nth "0123456789abcdef" n

-- The value of a hexadecimal digit, in small or capital letters.
unfoldable pub digit_value : Char → Option ℕ
digit_value c =
    if leb b'0' (code c) && leb (code c) b'9'
    then some (code c - 48)
    else if leb b'a' (code c) && leb (code c) b'f'
    then some (code c - 87)
    else if leb b'A' (code c) && leb (code c) b'F'
    then some (code c - 55)
    else none

-- ASCII whitespace.
unfoldable pub is_space : Char → Bool
is_space c = (leb 9 (code c) && leb (code c) 13) || code c == 32

unfoldable pub byte_of : Char → Char → Result ℕ
byte_of c d = elim (digit_value c) [
  | none ↦ raised Exception.value_error
  | some h ↦ elim (digit_value d) [ none ↦ raised Exception.value_error | some l ↦ ok (16 * h + l) ]
]

-- `bytes.hex`.
unfoldable pub hex : List ℕ → String
hex [] = String.[]
hex (b ∷ bs) = String.◌∷◌ (digit (b / 16)) (String.◌∷◌ (digit (b % 16)) (hex bs))

-- `bytes.fromhex`: two digits for each byte, and whitespace between the bytes.
unfoldable pub from_hex : String → Result (List ℕ)
from_hex String.[] = ok []
from_hex (String.◌∷◌ c String.[]) = if is_space c then ok [] else raised Exception.value_error
from_hex (String.◌∷◌ c (String.◌∷◌ d s)) = elim (is_space c) [
  | true ↦ from_hex (String.◌∷◌ d s)
  | false ↦ byte_of c d >>= λ b. from_hex s >>= λ bs. ok (b ∷ bs)
]

-- The decimal digits, with fuel above the number.
unfoldable pub digits : ℕ → ℕ → String
digits zero n = String.[]
digits (suc f) n =
    let rest = String.◌++◌ (digits f (n / 10)) (String.◌∷◌ (digit (n % 10)) String.[]) in
    if ltb n 10 then String.◌∷◌ (digit n) String.[] else rest

unfoldable pub decimal : ℕ → String
unfolding digits
decimal n = digits (suc n) n

-- `s.isdigit()`, of a text without digits of other scripts.
abbrev pub is_digit : Char → Bool
is_digit c = leb b'0' (code c) && leb (code c) b'9'

abbrev pub digits_only : String → Bool
digits_only String.[] = true
digits_only (String.◌∷◌ c s) = is_digit c && digits_only s

unfoldable pub isdigit : String → Bool
isdigit String.[] = false
isdigit (String.◌∷◌ c s) = is_digit c && digits_only s

-- `int(s)`, of a text of digits.
unfoldable pub read_from : ℕ → String → ℕ
read_from n String.[] = n
read_from n (String.◌∷◌ c s) = read_from (10 * n + (code c - 48)) s

unfoldable pub int_of : String → ℕ
unfolding read_from
int_of s = read_from 0 s
