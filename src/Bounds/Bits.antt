-- ===== src/Bounds/Bits.antt =====
-- zcbor/zcbor.py: the byte counts of bounds, which `bit_length` and `sizeof` give.
use native.Mathlib.Nat.{pow-suc}
use native.Mathlib.Nat.{pow-le-pow_right}
use zcbor.Sizes.Widths.{bit_length_bounds}
use zcbor.Prelude.{
  ℕ, zero, suc, ◌+◌, ◌-◌, ◌*◌, ◌/◌, ◌^◌, ◌==◌, ◌<◌, ◌≤◌, ◌≡◌, ◌⊎◌, inl, inr, Bool-cases, leb,
  if◌then◌else◌, false, pos, arith,
}
use zcbor.Sizes.{bits_in, bit_length, divide_round_up}

half_below : (n f : ℕ) → n ≤ suc f → (n == 0) ≡ false → n / 2 ≤ f
half_below n f h e = ground arith

nonzero : (n : ℕ) → (n == 0) ≡ false → 1 ≤ n
nonzero n e = ground arith

-- A number below a power of two has no more bits.
bits_in_le : (f n m : ℕ) → n < 2 ^ m → bits_in f n ≤ m
unfolding bits_in
bits_in_le zero n m h = omega arith
bits_in_le (suc f) n zero h = elim (Bool-cases (n == 0)) [
  | inl none_left ↦ rw (none_left, bits_in) (omega arith)
  | inr more ↦ absurd (omega (arith, nonzero n more))
]
bits_in_le (suc f) n (suc m) h = elim (Bool-cases (n == 0)) [
  | inl none_left ↦ rw (none_left, bits_in) (omega arith)
  | inr more ↦
      rw (more, bits_in) (omega (arith, bits_in_le f (n / 2) m (omega (arith, pow-suc 2 m))))
]

pub bit_length_le : (n m : ℕ) → n < 2 ^ m → bit_length (pos n) ≤ m
unfolding bit_length
bit_length_le n m h = bits_in_le (n + 0) (n + 0) m (omega arith)

-- A number with no more bits is below the power of two.
pub lt-bit_length : (n m : ℕ) → bit_length (pos n) ≤ m → n < 2 ^ m
lt-bit_length n m h =
    let wider : 2 ^ bit_length (pos n) ≤ 2 ^ m = pow-le-pow_right (omega arith) h in
    omega (arith, (bit_length_bounds n).0)

-- How many bytes a number has.
abbrev pub bytes : ℕ → ℕ
bytes n = divide_round_up (bit_length (pos n)) 8

pub bytes_le : (n k : ℕ) → n < 2 ^ (8 * k) → bytes n ≤ k
unfolding divide_round_up
bytes_le n k h = omega (arith, bit_length_le n (8 * k) h)

pub lt-bytes : (n k : ℕ) → bytes n ≤ k → n < 2 ^ (8 * k)
unfolding divide_round_up
lt-bytes n k h = lt-bit_length n (8 * k) (omega arith)

-- A number of `k` bytes is at least the least such number.
pub ge-bytes : (n k : ℕ) → suc k ≤ bytes n → 2 ^ (8 * k) ≤ n
ge-bytes n k h = elim (le-cases n (2 ^ (8 * k))) [
  | inl below ↦ absurd (omega (arith, bytes_le n k below))
  | inr above ↦ above
]
  where
    le-cases : (a b : ℕ) → (a < b) ⊎ (b ≤ a)
    le-cases a b = omega arith

pub bytes_le8 : (n : ℕ) → n < 2 ^ 64 → bytes n ≤ 8
bytes_le8 n h = bytes_le n 8 h

pub up_to_8 :
    (b : ℕ) → b ≤ 8 → (b ≤ 1) ⊎ (b ≡ 2) ⊎ (b ≡ 3) ⊎ (b ≡ 4) ⊎ (b ≡ 5) ⊎ (b ≡ 6) ⊎ (b ≡ 7) ⊎ (b ≡ 8)
up_to_8 b h = omega arith

-- The least number of as many bytes as `n` has, where more than one is counted.
abbrev pub least_bytes : ℕ → ℕ
least_bytes b = if leb b 1 then 0 else 256 ^ (b - 1)

pub least_bytes_le : (n : ℕ) → n < 2 ^ 64 → least_bytes (bytes n) ≤ n
least_bytes_le n h = elim (up_to_8 (bytes n) (bytes_le8 n h)) [
  | inl e ↦ ground arith
  | inr (inl e) ↦ rw e (ge-bytes n 1 (omega arith))
  | inr (inr (inl e)) ↦ rw e (ge-bytes n 2 (omega arith))
  | inr (inr (inr (inl e))) ↦ rw e (ge-bytes n 3 (omega arith))
  | inr (inr (inr (inr (inl e)))) ↦ rw e (ge-bytes n 4 (omega arith))
  | inr (inr (inr (inr (inr (inl e))))) ↦ rw e (ge-bytes n 5 (omega arith))
  | inr (inr (inr (inr (inr (inr (inl e)))))) ↦ rw e (ge-bytes n 6 (omega arith))
  | inr (inr (inr (inr (inr (inr (inr e)))))) ↦ rw e (ge-bytes n 7 (omega arith))
]
