-- ===== src/Bounds/Uint.antt =====
-- zcbor/zcbor.py, class CddlParser: the bounds that `type_and_range` leaves for a "UINT".
use zcbor.Prelude.{
  ℕ, ◌^◌, ◌<◌, ◌≤◌, ◌≡◌, refl, ◌∙◌, ap, sym, ◌++◌, ◌∷◌, [], eqb_ℤ, inl, inr, ltb_ℤ, pos, Bool, true,
  false, Bool-cases, not, ◌||◌, any_of, str_eq, none, some, arith,
}
use zcbor.Outcome.{ok}
use zcbor.Number.{Number, number_lt, number_eq}
use zcbor.Elem.{Kind, Attrs, no_value}
use zcbor.Bounds.{
  is_negative, is_above, no_bound, size_at_most, add_modifier, check_byte_count, set_min_size,
  set_max_size, set_max_size_by, set_min_value, enforce_sizeable, set_size_range,
}
use zcbor.Conditions.{is_uint}
use zcbor.Bounds.Bits.{bytes}
use zcbor.Bounds.Sizes.{kept, Size, sizes_apart, sizeof_mono}
use zcbor.Bounds.Kept.{
  le→leb_ℤ, count_ok, and_false, set_min_size_by-stop, first_min, first_max, raise_min,
}
use zcbor.Bounds.Range.{size_of, range_sizes, set_range, type_and_range}

-- An element before its type: no bounds, no sizes and no range.
pub record IsFresh (a : Attrs) : Type 0 where
  pub no_min_value : a.min_value ≡ none
  pub no_max_value : a.max_value ≡ none
  pub no_min_size : a.min_size ≡ none
  pub no_max_size : a.max_size ≡ none
  pub no_range : any_of (str_eq "range") a.modifiers ≡ false

-- An unsigned element that has these bounds, with the modifiers of `a`.
record HasBounds (a b : Attrs) (lo hi : ℕ) (inclusive : Bool) : Type 0 where
  kind_is : b.kind ≡ Kind.uint
  start_is : b.min_value_inclusive ≡ true
  low : b.min_value ≡ some (Number.int (pos lo))
  high : b.max_value ≡ some (Number.int (pos hi))
  end_is : b.max_value_inclusive ≡ inclusive
  modifiers_are : b.modifiers ≡ a.modifiers

-- The same with another lower bound.
moved :
    {a b : Attrs} {lo lo' hi : ℕ} {inclusive : Bool} (c : Attrs)
    → HasBounds a b lo hi inclusive
    → c.kind ≡ b.kind
    → c.min_value_inclusive ≡ true
    → c.max_value ≡ b.max_value
    → c.max_value_inclusive ≡ b.max_value_inclusive
    → c.modifiers ≡ b.modifiers
    → c.min_value ≡ some (Number.int (pos lo'))
    → HasBounds a c lo' hi inclusive
moved c h k s v i m low = record {
  start_is = s;
  kind_is = k ∙ h.kind_is;
  low = low;
  high = v ∙ h.high;
  end_is = i ∙ h.end_is;
  modifiers_are = m ∙ h.modifiers_are;
}

module _ (a b : Attrs) (lo hi : ℕ) (inclusive : Bool) (h : HasBounds a b lo hi inclusive) where
  settle_low :
      (s : ℕ)
      → b.min_size ≡ some (pos (bytes lo))
      → Size lo s
      → (c : Attrs) × (set_min_size (some (pos s)) b ≡ ok c)
        × HasBounds a c (kept lo) hi inclusive
        × (c.max_size ≡ b.max_size)
  unfolding set_min_size
  settle_low s m size = elim size.against [
    | inl (few, same) ↦ (
      b,
      set_min_size_by-stop (λ v c. set_min_value 3 v true c) b (pos s)
          (rw h.kind_is (count_ok s size.top)) (rw m (le→leb_ℤ s (bytes lo) few)),
      moved b h refl h.start_is refl refl refl
          (h.low ∙ ap (λ n. some (Number.int (pos n))) (sym same)),
      refl,
    )
    | inr (many, above, own, least) ↦ (
      _,
      raise_min b s (bytes lo) lo h.kind_is h.low m many size.top above own,
      moved _ h refl refl refl refl refl (ap (λ n. some (Number.int (pos n))) (sym least)),
      refl,
    )
  ]

  settle_high :
      (t c : ℕ)
      → b.max_size ≡ some (pos c)
      → t ≤ 8
      → (d : Attrs) × (set_max_size (some (pos t)) b ≡ ok d) × HasBounds a d lo hi inclusive
  unfolding set_max_size set_max_size_by
  settle_high t c m top = elim (Bool-cases (size_at_most b.max_size (pos t))) [
    | inl tight ↦ (b, rw (set_max_size_by, tight) refl, h)
    | inr loose ↦
        let counted : check_byte_count b.kind (pos t) ≡ ok tt = rw h.kind_is (count_ok t top) in
        let unsigned : is_uint b.kind ≡ true = rw h.kind_is refl in
        let bounded : no_bound b.max_value ≡ false = rw h.high refl in
        (
          record b { max_size = some (pos t) },
          rw
              (
                set_max_size_by,
                loose,
                counted,
                unsigned,
                bounded,
                and_false (not (eqb_ℤ (pos t) (pos 0))),
              )
              refl,
          moved _ h refl h.start_is refl refl refl h.low,
        )
  ]

sizeable : (b : Attrs) → b.kind ≡ Kind.uint → enforce_sizeable no_value b ≡ ok tt
unfolding enforce_sizeable
sizeable b k = rw (k) refl

in_order :
    (s t : ℕ)
    → s ≤ t
    → not (
        is_negative (some (pos s))
        || is_negative (some (pos t))
        || is_above (some (pos s)) (some (pos t)))
      ≡ true
in_order s t h = ground arith

module _ (a b : Attrs) (lo hi : ℕ) (inclusive : Bool) (h : HasBounds a b lo hi inclusive) where
  -- The sizes of the bounds, as `type_and_range` sets them.
  both_sizes :
      (s t : ℕ)
      → b.min_size ≡ some (pos (bytes lo))
      → b.max_size ≡ some (pos (bytes hi))
      → Size lo s
      → Size hi t
      → lo ≤ hi
      → (d : Attrs) × (range_sizes Kind.uint (Number.int (pos lo)) (Number.int (pos hi)) no_value b
          ≡ ok d)
        × HasBounds a d (kept lo) hi inclusive
  unfolding range_sizes size_of set_size_range
  both_sizes s t m n low high ordered =
      let (c, low_set, hc, same) = settle_low a b lo hi inclusive h s m low in
      let (d, high_set, hd) =
        settle_high a c (kept lo) hi inclusive hc t (bytes hi) (same ∙ n) high.top in
      (
        d,
        rw
            (
              low.encoded,
              high.encoded,
              sizeable b h.kind_is,
              in_order s t (sizeof_mono lo hi s t ordered low.encoded high.encoded),
              low_set,
            )
            high_set,
        hd,
      )

-- For integers from 0 below 2 ^ 64, the first below the second, and an element without value, bounds,
-- sizes and range, `type_and_range` for a "UINT" sets the kind, the upper bound and whether it is
-- inclusive as given; and the lower bound, inclusive, is the number given, but 2 ^ 24 where that has 3
-- bytes and 2 ^ 56 where it has 5, 6 or 7.
pub type_and_range_uint :
    (lo hi : ℕ) (inclusive : Bool) (a : Attrs)
    → IsFresh a
    → lo < hi
    → hi < 2 ^ 64
    → (b : Attrs) × (type_and_range Kind.uint
          (Number.int (pos lo))
          (Number.int (pos hi))
          inclusive
          no_value
          a
        ≡ ok (b, no_value))
      × (b.kind ≡ Kind.uint)
      × (b.min_value ≡ some (Number.int (pos (kept lo))))
      × (b.min_value_inclusive ≡ true)
      × (b.max_value ≡ some (Number.int (pos hi)))
      × (b.max_value_inclusive ≡ inclusive)
unfolding type_and_range set_range add_modifier number_lt number_eq
type_and_range_uint lo hi inclusive a f below top =
    let a' : Attrs = record a {
      kind = Kind.uint;
      min_value = some (Number.int (pos lo));
      min_value_inclusive = true;
      min_size = some (pos (bytes lo));
    } in
    let c : Attrs = record a' {
      max_value = some (Number.int (pos hi));
      max_value_inclusive = inclusive;
      max_size = some (pos (bytes hi));
    } in
    let low_set = first_min a lo f.no_min_value f.no_min_size (omega arith) in
    let high_set = first_max a' hi inclusive refl f.no_max_value f.no_max_size top in
    let h : HasBounds a c lo hi inclusive = record {
      kind_is = refl;
      start_is = refl;
      low = refl;
      high = refl;
      end_is = refl;
      modifiers_are = refl;
    } in
    let (s, low) = sizes_apart lo (omega arith) in
    let (t, high) = sizes_apart hi top in
    let (d, sized, hd) = both_sizes a c lo hi inclusive h s t refl refl low high (omega arith) in
    let fresh : any_of (str_eq "range") d.modifiers ≡ false = rw hd.modifiers_are f.no_range in
    let ordered : not (ltb_ℤ (pos hi) (pos lo)) ≡ true = ground arith in
    let apart : eqb_ℤ (pos lo) (pos hi) ≡ false = ground arith in
    (
      record d { modifiers = d.modifiers ++ ("range" ∷ []) },
      rw (ordered, apart, low_set, high_set, sized, fresh) refl,
      hd.kind_is,
      hd.low,
      hd.start_is,
      hd.high,
      hd.end_is,
    )
