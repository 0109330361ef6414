-- ===== src/Bounds/Kept.antt =====
-- zcbor/zcbor.py, class CddlParser: the bounds that `type_and_range` leaves.
use zcbor.Prelude.{
  ℕ, suc, ◌^◌, ◌<◌, ◌≤◌, ◌≡◌, refl, ◌∙◌, leb_ℤ, ℤ, pos, Bool, true, false, not, ◌&&◌, eqb_ℤ, none,
  some, arith,
}
use zcbor.Outcome.{Result, ok}
use zcbor.Number.{Number, number_le}
use zcbor.Elem.{Kind, Attrs}
use zcbor.Bounds.{
  at_least, size_at_least, check_byte_count, bytes_of, least_of, set_min_size_by, set_min_value,
  set_max_size_by, set_max_value, set_min_size,
}
use zcbor.Conditions.{is_integer, is_uint}
use zcbor.Bounds.Bits.{bytes, bytes_le8, least_bytes, least_bytes_le}

pub le→leb_ℤ : (a b : ℕ) → a ≤ b → leb_ℤ (pos a) (pos b) ≡ true
le→leb_ℤ a b h = ground arith

pub lt→leb_ℤ : (a b : ℕ) → a < b → leb_ℤ (pos b) (pos a) ≡ false
lt→leb_ℤ a b h = ground arith

pub count_ok : (s : ℕ) → s ≤ 8 → check_byte_count Kind.uint (pos s) ≡ ok tt
unfolding check_byte_count
count_ok s h = rw (le→leb_ℤ s 8 h, le→leb_ℤ 0 s (omega arith)) refl

pub and_false : (b : Bool) → (b && false) ≡ false
and_false b = ground arith

-- The branches of the two methods, by their tests.
pub set_min_value-stop :
    (f : ℕ) (a : Attrs) (x : Number) (i : Bool)
    → at_least a.min_value x ≡ true
    → set_min_value (suc f) x i a ≡ ok a
unfolding set_min_value
set_min_value-stop f a x i h = rw (h, set_min_value) refl

set_min_value-go :
    (f : ℕ) (a : Attrs) (x : Number) (i : Bool) (t : ℤ)
    → at_least a.min_value x ≡ false
    → is_integer a.kind ≡ true
    → bytes_of x ≡ ok t
    → set_min_value (suc f) x i a
      ≡ set_min_size_by
          (λ v c. set_min_value f v true c)
          t
          (record a { min_value = some x; min_value_inclusive = i })
unfolding set_min_value
set_min_value-go f a x i t h k b = rw (h, set_min_value, k, b) refl

set_min_size_by-go :
    (g : Number → Attrs → Result Attrs) (a b : Attrs) (t : ℤ)
    → check_byte_count a.kind t ≡ ok tt
    → size_at_least a.min_size t ≡ false
    → is_uint a.kind ≡ true
    → g (least_of t) a ≡ ok b
    → set_min_size_by g t a ≡ ok (record b { min_size = some t })
unfolding set_min_size_by
set_min_size_by-go g a b t c h k r = rw (set_min_size_by, c, h, k, r) refl

pub set_min_size_by-stop :
    (g : Number → Attrs → Result Attrs) (a : Attrs) (t : ℤ)
    → check_byte_count a.kind t ≡ ok tt
    → size_at_least a.min_size t ≡ true
    → set_min_size_by g t a ≡ ok a
unfolding set_min_size_by
set_min_size_by-stop g a t c h = rw (set_min_size_by, c, h) refl

module _ (a : Attrs) where
  pub first_min :
      (n : ℕ)
      → a.min_value ≡ none
      → a.min_size ≡ none
      → n < 2 ^ 64
      → set_min_value 3 (Number.int (pos n)) true (record a { kind = Kind.uint })
        ≡ ok (record a {
          kind = Kind.uint;
          min_value = some (Number.int (pos n));
          min_value_inclusive = true;
          min_size = some (pos (bytes n));
        })
  unfolding set_min_value set_min_size_by bytes_of least_of number_le
  first_min n v s h =
      rw
        (
          v,
          s,
          count_ok (bytes n) (bytes_le8 n h),
          le→leb_ℤ (least_bytes (bytes n)) n (least_bytes_le n h),
        )
        refl

  pub first_max :
      (n : ℕ) (inclusive : Bool)
      → a.kind ≡ Kind.uint
      → a.max_value ≡ none
      → a.max_size ≡ none
      → n < 2 ^ 64
      → set_max_value 3 (Number.int (pos n)) inclusive a
        ≡ ok (record a {
          max_value = some (Number.int (pos n));
          max_value_inclusive = inclusive;
          max_size = some (pos (bytes n));
        })
  unfolding set_max_value set_max_size_by bytes_of
  first_max n inclusive k v s h =
      rw
        (
          k,
          v,
          s,
          count_ok (bytes n) (bytes_le8 n h),
          and_false (not (eqb_ℤ (pos (bytes n)) (pos 0))),
        )
        refl

  module _ (s b n : ℕ) (k : a.kind ≡ Kind.uint) (v : a.min_value ≡ some (Number.int (pos n)))
      (m : a.min_size ≡ some (pos b)) (below : b < s) (top : s ≤ 8) (above : n < least_bytes s)
      (own : bytes (least_bytes s) ≡ s) where
    counted : check_byte_count a.kind (pos s) ≡ ok tt
    counted = rw k (count_ok s top)

    smaller : size_at_least a.min_size (pos s) ≡ false
    smaller = rw m (lt→leb_ℤ b s below)

    least_min :
        set_min_value 3 (Number.int (pos (least_bytes s))) true a
        ≡ ok (record a {
          min_value = some (Number.int (pos (least_bytes s)));
          min_value_inclusive = true;
          min_size = some (pos s);
        })
    unfolding bytes_of least_of number_le
    least_min =
        let x = Number.int (pos (least_bytes s)) in
        let b : Attrs = record a { min_value = some x; min_value_inclusive = true } in
        let lower : at_least a.min_value x ≡ false = rw v (lt→leb_ℤ n (least_bytes s) above) in
        set_min_value-go 2 a x true (pos s) lower (rw k refl) (rw own refl)
        ∙ set_min_size_by-go (λ v c. set_min_value 2 v true c) b b (pos s) counted smaller
            (rw k refl)
            (set_min_value-stop 1 b x true (le→leb_ℤ (least_bytes s) (least_bytes s) (omega arith)))

    -- The sizes of a range move the lower bound where they exceed the bytes counted before.
    pub raise_min :
        set_min_size (some (pos s)) a
        ≡ ok (record a {
          min_value = some (Number.int (pos (least_bytes s)));
          min_value_inclusive = true;
          min_size = some (pos s);
        })
    unfolding set_min_size least_of
    raise_min =
        set_min_size_by-go (λ v c. set_min_value 3 v true c) a _ (pos s) counted smaller (rw k refl)
          least_min
