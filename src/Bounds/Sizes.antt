-- ===== src/Bounds/Sizes.antt =====
-- zcbor/zcbor.py: `sizeof` beside the byte count of a number.
use zcbor.Prelude.{
  ℕ, suc, ◌*◌, ◌^◌, ◌<◌, ◌≤◌, ◌≡◌, refl, ◌⊎◌, inl, inr, leb, ltb, pos, ◌&&◌, if◌then◌else◌, arith,
}
use zcbor.Outcome.{ok}
use zcbor.Sizes.{sizeof, bit_length, divide_round_up}
use zcbor.Bounds.Bits.{bytes, bytes_le, lt-bytes, least_bytes}

-- The lower bound that is left of `n`: numbers of 3 bytes become the least of 4 bytes, and numbers of 5,
-- 6 and 7 bytes the least of 8.
abbrev pub kept : ℕ → ℕ
kept n =
    if leb (2 ^ 16) n && ltb n (2 ^ 24)
    then 2 ^ 24
    else if leb (2 ^ 32) n && ltb n (2 ^ 56)
    then 2 ^ 56
    else n

pub le_bytes : (n k : ℕ) → 2 ^ (8 * k) ≤ n → suc k ≤ bytes n
le_bytes n k h = elim (cases (bytes n) k) [
  | inl few ↦ absurd (omega (arith, lt-bytes n k few))
  | inr many ↦ many
]
  where
    cases : (b k : ℕ) → (b ≤ k) ⊎ (suc k ≤ b)
    cases b k = omega arith

-- `s` bytes follow the first one of `n`: either no more than `n` has, or the number is below the least
-- of so many bytes.
pub record Size (n s : ℕ) : Type 0 where
  pub encoded : sizeof (pos n) ≡ ok s
  pub top : s ≤ 8
  pub against :
      ((s ≤ bytes n) × (kept n ≡ n))
      ⊎ ((bytes n < s)
          × (n < least_bytes s)
          × (bytes (least_bytes s) ≡ s)
          × (kept n ≡ least_bytes s))

thresholds :
    (n : ℕ)
    → n < 2 ^ 64
    → (n < 24)
      ⊎ ((24 ≤ n) × (n < 2 ^ 8))
      ⊎ ((2 ^ 8 ≤ n) × (n < 2 ^ 16))
      ⊎ ((2 ^ 16 ≤ n) × (n < 2 ^ 24))
      ⊎ ((2 ^ 24 ≤ n) × (n < 2 ^ 32))
      ⊎ ((2 ^ 32 ≤ n) × (n < 2 ^ 56))
      ⊎ ((2 ^ 56 ≤ n) × (n < 2 ^ 64))
thresholds n h = omega arith

pub sizes_apart : (n : ℕ) → n < 2 ^ 64 → (s : ℕ) × Size n s
unfolding sizeof divide_round_up bit_length
sizes_apart n h = elim (thresholds n h) [
  | inl e ↦ (
    0,
    record { encoded = ground arith; top = omega arith; against = inl (omega arith, ground arith) },
  )
  | inr (inl (l, u)) ↦ (
    1,
    record {
      encoded = ground arith;
      top = omega arith;
      against = inl (le_bytes n 0 (omega arith), ground arith);
    },
  )
  | inr (inr (inl (l, u))) ↦ (
    2,
    record {
      encoded = ground arith;
      top = omega arith;
      against = inl (le_bytes n 1 l, ground arith);
    },
  )
  | inr (inr (inr (inl (l, u)))) ↦ (
    4,
    record {
      encoded = ground arith;
      top = omega arith;
      against = inr (omega (arith, bytes_le n 3 u), u, refl, ground arith);
    },
  )
  | inr (inr (inr (inr (inl (l, u))))) ↦ (
    4,
    record {
      encoded = ground arith;
      top = omega arith;
      against = inl (le_bytes n 3 l, ground arith);
    },
  )
  | inr (inr (inr (inr (inr (inl (l, u)))))) ↦ (
    8,
    record {
      encoded = ground arith;
      top = omega arith;
      against = inr (omega (arith, bytes_le n 7 u), u, refl, ground arith);
    },
  )
  | inr (inr (inr (inr (inr (inr (l, u)))))) ↦ (
    8,
    record {
      encoded = ground arith;
      top = omega arith;
      against = inl (le_bytes n 7 l, ground arith);
    },
  )
]

-- A larger number has no fewer bytes after its first one.
pub sizeof_mono : (m n s t : ℕ) → m ≤ n → sizeof (pos m) ≡ ok s → sizeof (pos n) ≡ ok t → s ≤ t
unfolding sizeof
sizeof_mono m n s t h p q = ground arith
