-- ===== src/Sizes.antt =====
-- zcbor/zcbor.py: `sizeof`, `divide_round_up`, `int.bit_length` and the integer limits.
pub mod Widths
use zcbor.Prelude.{
  ℕ, zero, suc, ◌+◌, ◌-◌, ◌/◌, ◌^◌, ◌==◌, leb, leb_ℤ, ltb, ℤ, pos, negsuc, Bool, true, false,
  if◌then◌else◌, abs,
}
use zcbor.Outcome.{Result, ok, raised, Exception}

abbrev pub uint8_max : ℕ
uint8_max = 0xFF

abbrev pub uint16_max : ℕ
uint16_max = 0xFFFF

abbrev pub uint32_max : ℕ
uint32_max = 0xFFFF_FFFF

abbrev pub uint64_max : ℕ
uint64_max = 0xFFFF_FFFF_FFFF_FFFF

-- `sizeof`: how many bytes follow the initial byte of a CBOR integer.
unfoldable pub sizeof : ℤ → Result ℕ
sizeof num =
    if leb_ℤ num (pos 23)
    then ok 0
    else if leb_ℤ num (pos uint8_max)
    then ok 1
    else if leb_ℤ num (pos uint16_max)
    then ok 2
    else if leb_ℤ num (pos uint32_max)
    then ok 4
    else if leb_ℤ num (pos uint64_max)
    then ok 8
    else raised Exception.value_error

unfoldable pub divide_round_up : ℕ → ℕ → ℕ
divide_round_up value divisor = (value + divisor - 1) / divisor

-- Python's `int.bit_length`, with fuel: a halving for each bit.
unfoldable pub bits_in : ℕ → ℕ → ℕ
bits_in zero n = 0
bits_in (suc f) n = elim (n == 0) [ true ↦ 0 | false ↦ suc (bits_in f (n / 2)) ]

unfoldable pub bit_length : ℤ → ℕ
unfolding bits_in
bit_length n = bits_in (abs n) (abs n)
