-- ===== src/Sizes/Widths.antt =====
-- zcbor/zcbor.py: the widths that `sizeof` and `bit_length` give.
use native.Mathlib.Nat.{pow-suc, add-zero}
use zcbor.Prelude.{
  max, ◌≢◌, ℕ, zero, suc, ◌*◌, ◌/◌, ◌^◌, ◌==◌, ◌<◌, ◌≤◌, ◌≡◌, ◌⊎◌, inl, inr, ◌↔◌, pos, Bool-cases,
  true, false, arith,
}
use zcbor.Outcome.{ok, raised, Exception}
use zcbor.Sizes.{sizeof, bits_in, bit_length}

-- 0 up to 23; and otherwise the smallest of 1, 2, 4 and 8 bytes that hold the number.
pub record IsWidth (n s : ℕ) : Type 0 where
  pub short : s ≡ 0 → n ≤ 23
  pub one : s ≡ 1 → (23 < n) × (n < 2 ^ 8)
  pub two : s ≡ 2 → (2 ^ 8 ≤ n) × (n < 2 ^ 16)
  pub four : s ≡ 4 → (2 ^ 16 ≤ n) × (n < 2 ^ 32)
  pub eight : s ≡ 8 → (2 ^ 32 ≤ n) × (n < 2 ^ 64)
  pub among : (s ≡ 0) ⊎ (s ≡ 1) ⊎ (s ≡ 2) ⊎ (s ≡ 4) ⊎ (s ≡ 8)

-- What `sizeof` returns is 0 up to 23, and otherwise the smallest of 1, 2, 4 and 8 bytes that hold the
-- number.
pub sizeof-IsWidth : (n s : ℕ) → sizeof (pos n) ≡ ok s → IsWidth n s
unfolding sizeof
sizeof-IsWidth n s h = record {
  short = λ p. ground arith;
  one = λ p. ground arith;
  two = λ p. ground arith;
  four = λ p. ground arith;
  eight = λ p. ground arith;
  among = ground arith;
}

-- On a number from 0, `sizeof` raises `ValueError` exactly when the number has more than 64 bits.
pub sizeof-raised_iff : (n : ℕ) → (sizeof (pos n) ≡ raised Exception.value_error) ↔ (2 ^ 64 ≤ n)
unfolding sizeof
sizeof-raised_iff n = (λ h. ground arith, λ h. ground arith)

==→eq : (a b : ℕ) → (a == b) ≡ true → a ≡ b
==→eq a b h = ground arith

==→ne : (a b : ℕ) → (a == b) ≡ false → a ≢ b
==→ne a b h = ground arith

half_below : (n f : ℕ) → n ≤ suc f → (n == 0) ≡ false → n / 2 ≤ f
half_below n f h e = ground arith

-- A number fits in the bits that are counted, and in no fewer.
bits_in_bounds : (f n : ℕ) → n ≤ f → (n < 2 ^ bits_in f n) × (2 ^ bits_in f n ≤ max 1 (2 * n))
unfolding bits_in
bits_in_bounds zero n h = (omega arith, omega arith)
bits_in_bounds (suc f) n h = elim (Bool-cases (n == 0)) [
  | inl none_left ↦ rw (none_left, bits_in) (omega (arith, ==→eq n 0 none_left))
  | inr more ↦
      rw (more, bits_in)
        (simp pow-suc
          (omega (arith, bits_in_bounds f (n / 2) (half_below n f h more), ==→ne n 0 more)))
]

-- `bit_length` is the number of binary digits: a number fits in that many, and in no fewer.
pub bit_length_bounds :
    (n : ℕ) → (n < 2 ^ bit_length (pos n)) × (2 ^ bit_length (pos n) ≤ max 1 (2 * n))
unfolding bit_length
bit_length_bounds n = rw add-zero (bits_in_bounds n n (omega arith))
