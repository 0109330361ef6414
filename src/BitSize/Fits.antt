-- ===== src/BitSize/Fits.antt =====
-- zcbor/zcbor.py, class CodeGenerator: the C integer that `bit_size` chooses holds the element's range.
use mathlib.Core.Path.{subst}
use zcbor.Prelude.{
  ℕ, ◌-◌, ◌^◌, ◌≤◌, ◌≡◌, refl, max, ◌≤ℤ◌, ◌⊎◌, inl, inr, ℤ, pos, negsuc, Bool, true, false, some,
  arith,
}
use zcbor.Outcome.{ok}
use zcbor.Number.{Number}
use zcbor.Elem.{Kind, Elem, elem, Value, Slot, Attrs, attrs, value, kind}
use zcbor.BitSize.{
  is_uint_kind, is_integer, or_default, int_value, int_bound, int_max, int_min, unsigned_width,
  signed_width, width_of, default_low, is_width, widest, bit_size, Holds,
}

-- One of the widths of C's integer types.
pub IsWidth : ℕ → Type 0
IsWidth w = (w ≡ 8) ⊎ (w ≡ 16) ⊎ (w ≡ 32) ⊎ (w ≡ 64)

unsigned_width-IsWidth : (v : ℤ) → IsWidth (unsigned_width v)
unfolding IsWidth unsigned_width
unsigned_width-IsWidth v = ground arith

signed_width-IsWidth : (v : ℤ) → IsWidth (signed_width v)
unfolding IsWidth signed_width
signed_width-IsWidth v = ground arith

IsWidth-max : (a b : ℕ) → IsWidth a → IsWidth b → IsWidth (max a b)
unfolding IsWidth
IsWidth-max a b ha hb = omega arith

-- A width that is at least that of a number holds it.
unsigned_above :
    (v : ℤ) (w : ℕ)
    → IsWidth w
    → unsigned_width v ≤ w
    → v ≤ℤ pos (2 ^ 64 - 1)
    → v ≤ℤ pos (2 ^ w - 1)
unfolding IsWidth unsigned_width
unsigned_above v w (inl e) h top = rw e (ground arith)
unsigned_above v w (inr (inl e)) h top = rw e (ground arith)
unsigned_above v w (inr (inr (inl e))) h top = rw e (ground arith)
unsigned_above v w (inr (inr (inr e))) h top = rw e top

signed_above :
    (v : ℤ) (w : ℕ)
    → IsWidth w
    → signed_width v ≤ w
    → int_min 64 ≤ℤ v
    → v ≤ℤ pos (int_max 64)
    → (int_min w ≤ℤ v) × (v ≤ℤ pos (int_max w))
unfolding IsWidth signed_width
signed_above v w (inl e) h low top = rw e (ground arith, ground arith)
signed_above v w (inr (inl e)) h low top = rw e (ground arith, ground arith)
signed_above v w (inr (inr (inl e))) h low top = rw e (ground arith, ground arith)
signed_above v w (inr (inr (inr e))) h low top = rw e (low, top)

-- An integer element whose bounds fit in 64 bits, with the sign of its kind.
pub record IsBounded (e : Elem) (lo hi : ℤ) : Type 0 where
  pub integer : is_integer (kind e) ≡ true
  pub low : (attrs e).min_value ≡ some (Number.int lo)
  pub high : (attrs e).max_value ≡ some (Number.int hi)
  pub low_fits : Holds (is_uint_kind (kind e)) 64 lo
  pub high_fits : Holds (is_uint_kind (kind e)) 64 hi

default_cases : (w : ℕ) → is_width w ≡ true → IsWidth w
unfolding IsWidth
default_cases w h = ground arith

-- The default for a missing maximum is itself below 64 bits, and stands in for a maximum of 0.
high_default :
    (hi : ℤ) (w : ℕ)
    → IsWidth w
    → hi ≤ℤ pos (int_max 64)
    → (hi ≤ℤ or_default (some hi) (pos (int_max w)))
      × (or_default (some hi) (pos (int_max w)) ≤ℤ pos (int_max 64))
unfolding IsWidth
high_default (pos n) w (inl e) h = rw e (ground arith, ground arith)
high_default (pos n) w (inr (inl e)) h = rw e (ground arith, ground arith)
high_default (pos n) w (inr (inr (inl e))) h = rw e (ground arith, ground arith)
high_default (pos n) w (inr (inr (inr e))) h = rw e (ground arith, ground arith)
high_default (negsuc n) w e h = (omega arith, omega arith)

high_default_unsigned :
    (hi : ℤ) (w : ℕ)
    → IsWidth w
    → hi ≤ℤ pos (2 ^ 64 - 1)
    → (hi ≤ℤ or_default (some hi) (pos (int_max w)))
      × (or_default (some hi) (pos (int_max w)) ≤ℤ pos (2 ^ 64 - 1))
unfolding IsWidth
high_default_unsigned (pos n) w (inl e) h = rw e (ground arith, ground arith)
high_default_unsigned (pos n) w (inr (inl e)) h = rw e (ground arith, ground arith)
high_default_unsigned (pos n) w (inr (inr (inl e))) h = rw e (ground arith, ground arith)
high_default_unsigned (pos n) w (inr (inr (inr e))) h = rw e (ground arith, ground arith)
high_default_unsigned (negsuc n) w e h = (omega arith, omega arith)

low_default :
    (lo : ℤ) (w : ℕ)
    → IsWidth w
    → int_min 64 ≤ℤ lo
    → (or_default (some lo) (int_min w) ≤ℤ lo) × (int_min 64 ≤ℤ or_default (some lo) (int_min w))
unfolding IsWidth
low_default (pos n) w (inl e) h = rw e (ground arith, ground arith)
low_default (pos n) w (inr (inl e)) h = rw e (ground arith, ground arith)
low_default (pos n) w (inr (inr (inl e))) h = rw e (ground arith, ground arith)
low_default (pos n) w (inr (inr (inr e))) h = rw e (ground arith, ground arith)
low_default (negsuc n) w e h = (omega arith, h)

width_of-IsWidth : (k : Kind) (v : ℤ) → IsWidth (width_of k v)
unfolding width_of
width_of-IsWidth Kind.uint v = unsigned_width-IsWidth v
width_of-IsWidth _ v = signed_width-IsWidth v

widest-IsWidth : (default : ℕ) (e : Elem) → IsWidth (widest default e)
unfolding widest
widest-IsWidth default e =
    let high = or_default (int_bound (attrs e).max_value) (pos (int_max default)) in
    let low = or_default (int_bound (attrs e).min_value) (default_low (kind e) default) in
    let k = kind e in
    IsWidth-max (width_of k (or_default (int_value (value e)) (pos 0)))
      (max (width_of k high) (width_of k low))
      (width_of-IsWidth k (or_default (int_value (value e)) (pos 0)))
      (IsWidth-max (width_of k high) (width_of k low) (width_of-IsWidth k high)
        (width_of-IsWidth k low))

width_of_signed : (k : Kind) (v : ℤ) → is_uint_kind k ≡ false → width_of k v ≡ signed_width v
unfolding width_of
width_of_signed k v h = ground arith

width_of_unsigned : (k : Kind) (v : ℤ) → is_uint_kind k ≡ true → width_of k v ≡ unsigned_width v
unfolding width_of
width_of_unsigned k v h = ground arith

-- The widths of the bounds are at most the width that is chosen.
widest-ge :
    (default : ℕ) (e : Elem)
    → (width_of (kind e) (or_default (int_bound (attrs e).max_value) (pos (int_max default)))
        ≤ widest default e)
      × (width_of
            (kind e)
            (or_default (int_bound (attrs e).min_value) (default_low (kind e) default))
          ≤ widest default e)
unfolding widest
widest-ge default e = (omega arith, omega arith)

signed_range :
    (lo' lo n hi hi' : ℤ) (w : ℕ)
    → IsWidth w
    → signed_width lo' ≤ w
    → signed_width hi' ≤ w
    → (lo' ≤ℤ lo) × (int_min 64 ≤ℤ lo')
    → (hi ≤ℤ hi') × (hi' ≤ℤ pos (int_max 64))
    → lo ≤ℤ n
    → n ≤ℤ hi
    → Holds false 64 lo
    → Holds false 64 hi
    → Holds false w n
signed_range lo' lo n hi hi' w width wide_low wide_high below above low high least most =
    let from = signed_above lo' w width wide_low below.1 (omega arith) in
    let to = signed_above hi' w width wide_high (omega arith) above.1 in (omega arith, omega arith)

module _ (default : ℕ) (a : Attrs) (v : Value) (k c s : Slot) (lo hi n : ℤ)
    (d : is_width default ≡ true) (b : IsBounded (elem a v k c s) lo hi) (low : lo ≤ℤ n)
    (high : n ≤ℤ hi) where
  unsigned_fits : is_uint_kind a.kind ≡ true → Holds true (widest default (elem a v k c s)) n
  unsigned_fits u =
      let w = widest default (elem a v k c s) in
      let hi' = or_default (some hi) (pos (int_max default)) in
      let least : Holds true 64 lo = rw u at b.low_fits in
      let most : Holds true 64 hi = rw u at b.high_fits in
      let wide : unsigned_width hi' ≤ w =
        subst (λ m. unsigned_width (or_default (int_bound m) (pos (int_max default))) ≤ w) b.high
          (rw (width_of_unsigned a.kind _ u) at (widest-ge default (elem a v k c s)).0) in
      let above = high_default_unsigned hi default (default_cases default d) most.1 in
      let held = unsigned_above hi' w (widest-IsWidth default (elem a v k c s)) wide above.1 in
      (omega arith, omega arith)

  signed_fits : is_uint_kind a.kind ≡ false → Holds false (widest default (elem a v k c s)) n
  signed_fits u =
      let w = widest default (elem a v k c s) in
      let hi' = or_default (some hi) (pos (int_max default)) in
      let lo' = or_default (some lo) (int_min default) in
      let least : Holds false 64 lo = rw u at b.low_fits in
      let most : Holds false 64 hi = rw u at b.high_fits in
      let wide_high : signed_width hi' ≤ w =
        subst (λ m. signed_width (or_default (int_bound m) (pos (int_max default))) ≤ w) b.high
          (rw (width_of_signed a.kind _ u) at (widest-ge default (elem a v k c s)).0) in
      let wide_low : signed_width lo' ≤ w =
        subst (λ m. signed_width (or_default (int_bound m) (int_min default)) ≤ w) b.low
          (rw (width_of_signed a.kind _ u, u) at (widest-ge default (elem a v k c s)).1) in
      let above = high_default hi default (default_cases default d) most.1 in
      let below = low_default lo default (default_cases default d) least.0 in
      signed_range lo' lo n hi hi' w (widest-IsWidth default (elem a v k c s)) wide_low wide_high
        below above low high least most

-- For an integer element with two bounds that fit in 64 bits, signed unless it is a uint, and a default
-- width that is one of 8, 16, 32 and 64, `bit_size` returns one of these widths, and the C integer of
-- that width holds every number from the lower bound to the upper one.
pub bit_size-Holds :
    (default : ℕ) (e : Elem) (lo hi n : ℤ)
    → is_width default ≡ true
    → IsBounded e lo hi
    → lo ≤ℤ n
    → n ≤ℤ hi
    → (w : ℕ) × (bit_size default e ≡ ok (some w)) × IsWidth w × Holds (is_uint_kind (kind e)) w n
unfolding bit_size
bit_size-Holds default (elem a v k c s) lo hi n d b low high = (
  widest default (elem a v k c s),
  ground arith,
  widest-IsWidth default (elem a v k c s),
  holds (is_uint_kind a.kind) refl,
)
  where
    holds : (u : Bool) → is_uint_kind a.kind ≡ u → Holds u (widest default (elem a v k c s)) n
    holds true p = unsigned_fits default a v k c s lo hi n d b low high p
    holds false p = signed_fits default a v k c s lo hi n d b low high p
