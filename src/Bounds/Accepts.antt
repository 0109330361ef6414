-- ===== src/Bounds/Accepts.antt =====
-- zcbor/zcbor.py: a "UINT" range from its two numbers to the validation of an integer, `type_and_range` in class
-- CddlParser and the range check of `_check_value` in class DataTranslator.
use zcbor.Prelude.{ℕ, ◌^◌, ◌<◌, ◌≤◌, ◌≡◌, refl, ◌↔◌, ◌∙◌, ap, ◌⊎◌, ℤ, pos, ◌≤ℤ◌, true, some, arith}
use zcbor.Outcome.{ok, raised, Exception}
use zcbor.Number.{Number, number_le}
use zcbor.Elem.{Kind, Attrs, elem, no_value, absent}
use zcbor.Data.{Obj}
use zcbor.Translator.Check.{check_range}
use zcbor.Translator.Limits.{IsRange, check_range_iff}
use zcbor.Bounds.Sizes.{kept}
use zcbor.Bounds.Range.{type_and_range}
use zcbor.Bounds.Uint.{IsFresh, type_and_range_uint}

-- The numbers for which the count of bytes and the count of `sizeof` agree.
abbrev pub IsPlain : ℕ → Type 0
IsPlain n = (n < 2 ^ 16) ⊎ ((2 ^ 24 ≤ n) × (n < 2 ^ 32)) ⊎ (2 ^ 56 ≤ n)

kept_plain : (n : ℕ) → IsPlain n → kept n ≡ n
kept_plain n h = ground arith

kept_moved : (n : ℕ) → 2 ^ 16 ≤ n → n < 2 ^ 24 → kept n ≡ 2 ^ 24
kept_moved n h k = ground arith

-- For an element without value, bounds, sizes and range, and for lo < hi < 2 ^ 64 where lo does not
-- have 3, 5, 6 or 7 bytes, `type_and_range` for a "UINT" from lo to hi, inclusive, returns an element
-- whose range check accepts an integer exactly when it lies from lo to hi.
pub range_accepts_iff :
    (lo hi : ℕ) (n : ℤ) (a : Attrs)
    → IsFresh a
    → lo < hi
    → hi < 2 ^ 64
    → IsPlain lo
    → (b : Attrs) × (type_and_range Kind.uint
          (Number.int (pos lo))
          (Number.int (pos hi))
          true
          no_value
          a
        ≡ ok (b, no_value))
      × ((check_range (elem b no_value absent absent absent) (Obj.int n) ≡ ok tt)
          ↔ ((pos lo ≤ℤ n) × (n ≤ℤ pos hi)))
range_accepts_iff lo hi n a f below top plain =
    let (b, parsed, k, low, start, high, end) = type_and_range_uint lo hi true a f below top in
    (
      b,
      parsed,
      check_range_iff b no_value absent absent absent (pos lo) (pos hi) n (rw k refl) (record {
        low = low ∙ ap (λ m. some (Number.int (pos m))) (kept_plain lo plain);
        high = high;
        low_inclusive = start;
        high_inclusive = end;
      }),
    )

no_number :
    (b : Attrs) (lo hi : ℕ) (n : ℤ)
    → b.kind ≡ Kind.uint
    → IsRange b (pos lo) (pos hi)
    → hi < lo
    → check_range (elem b no_value absent absent absent) (Obj.int n)
      ≡ raised Exception.validation_error
unfolding check_range number_le
no_number b lo hi n k r h = ground arith

-- For an element without value, bounds, sizes and range, and for lo < hi where lo is at least 2 ^ 16
-- and hi below 2 ^ 24, `type_and_range` for a "UINT" from lo to hi, inclusive, returns an element
-- whose range check refuses every integer.
pub range_refuses :
    (lo hi : ℕ) (n : ℤ) (a : Attrs)
    → IsFresh a
    → lo < hi
    → 2 ^ 16 ≤ lo
    → hi < 2 ^ 24
    → (b : Attrs) × (type_and_range Kind.uint
          (Number.int (pos lo))
          (Number.int (pos hi))
          true
          no_value
          a
        ≡ ok (b, no_value))
      × (check_range (elem b no_value absent absent absent) (Obj.int n)
          ≡ raised Exception.validation_error)
range_refuses lo hi n a f below from to =
    let (b, parsed, k, low, start, high, end) =
      type_and_range_uint lo hi true a f below (omega arith) in
    let moved : b.min_value ≡ some (Number.int (pos (2 ^ 24))) =
      low ∙ ap (λ m. some (Number.int (pos m))) (kept_moved lo from (omega arith)) in
    (
      b,
      parsed,
      no_number b (2 ^ 24) hi n k
          (record { low = moved; high = high; low_inclusive = start; high_inclusive = end }) to,
    )
