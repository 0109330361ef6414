-- ===== src/Conditions/Integers.antt =====
-- zcbor/zcbor.py, class CddlXcoder: the integer with which an element starts, and unions whose members
-- are told apart by such integers.
pub mod Distinct
use zcbor.Prelude.{
  ℕ, zero, suc, ℤ, pos, negsuc, eqb_ℤ, leb_ℤ, ◌==◌, length, any_of, Bool, true, false, not, ◌&&◌,
  ◌||◌, Option, none, some, List, [], ◌∷◌, if◌then◌else◌,
}
use zcbor.Outcome.{Result, ok, raised, out_of_fuel, Exception, ◌>>=◌, and_also}
use zcbor.Number.{Number}
use zcbor.Elem.{
  Kind, Elem, Value, number, Elems, no_elems, elems, Slot, absent, present, Cddl, value, key, kind,
  children, resolve,
}
use zcbor.Unambiguous.{is_unambiguous}
use zcbor.Quantity.{count_var_condition}
use zcbor.Conditions.{single_func_impl_condition}

-- `self.value` of a "UINT" or "NINT" whose encoding is known.
abbrev pub int_of : Value → Option ℤ
int_of (number (Number.int n)) = some n
int_of v = none

-- `self.value[0]`.
abbrev pub first_member : Elems → Result Elem
first_member no_elems = raised Exception.index_error
first_member (elems c cs) = ok c

module _ (cddl : Cddl) (named : Elem → Bool) (unordered_maps : Bool) where
  -- The cases of `int_val` for an element without a key; `below` stands for its recursive calls.
  unfoldable pub int_val_of : (Elem → Result (Option ℤ)) → ℕ → Kind → Elem → Result (Option ℤ)
  unfolding resolve
  int_val_of below f Kind.uint e =
      is_unambiguous cddl f e >>= λ known. ok (if known then int_of (value e) else none)
  int_val_of below f Kind.nint e =
      is_unambiguous cddl f e >>= λ known. ok (if known then int_of (value e) else none)
  int_val_of below f Kind.group e =
      if count_var_condition e then ok none else (first_member (children e) >>= below)
  int_val_of below f Kind.other e = if count_var_condition e then ok none else (do
    own ← single_func_impl_condition cddl named unordered_maps f e
    if own then ok none else do
      t ← resolve cddl e
      its ← single_func_impl_condition cddl named unordered_maps f t
      if its then ok none else below t)
  int_val_of below f k e = ok none

  unfoldable pub int_val : ℕ → Elem → Result (Option ℤ)
  unfolding int_val_of
  int_val zero e = out_of_fuel
  int_val (suc f) e = elim (key e) [
    | present k ↦ int_val f k
    | absent ↦ int_val_of (int_val f) (suc f) (kind e) e
  ]

  unfoldable pub is_int_disambiguated : ℕ → Elem → Result Bool
  unfolding int_val
  is_int_disambiguated f e = int_val f e >>= λ v. ok (elim v [ none ↦ false | some n ↦ true ])

  -- `child.int_val() for child in self.value`.
  unfoldable pub int_vals : ℕ → Elems → Result (List (Option ℤ))
  unfolding int_val
  int_vals f no_elems = ok []
  int_vals f (elems c cs) = do v ← int_val f c; vs ← int_vals f cs; ok (v ∷ vs)

-- Whether two of them are the same value, or both `None`.
abbrev pub same_val : Option ℤ → Option ℤ → Bool
same_val none none = true
same_val (some a) (some b) = eqb_ℤ a b
same_val a b = false

-- `set(...)`, with the last of equal values kept.
abbrev pub to_set : List (Option ℤ) → List (Option ℤ)
to_set [] = []
to_set (v ∷ vs) = if any_of (same_val v) vs then to_set vs else v ∷ to_set vs

-- `None not in values and max(values) <= max_val and min(values) >= min_val`, where `max` raises for
-- no value at all.
abbrev pub all_within : ℤ → ℤ → List (Option ℤ) → Bool
all_within lo hi [] = true
all_within lo hi (none ∷ vs) = false
all_within lo hi (some v ∷ vs) = leb_ℤ lo v && leb_ℤ v hi && all_within lo hi vs

unfoldable pub disambiguates : ℤ → ℤ → List (Option ℤ) → Result Bool
disambiguates lo hi [] = raised Exception.value_error
disambiguates lo hi (v ∷ vs) =
    ok (length (to_set (v ∷ vs)) == length (v ∷ vs) && all_within lo hi (v ∷ vs))

module _ (cddl : Cddl) (named : Elem → Bool) (unordered_maps : Bool) where
  unfoldable pub all_children_disambiguated : ℕ → Elem → ℤ → ℤ → Result Bool
  unfolding int_vals disambiguates
  all_children_disambiguated f e min_val max_val =
      int_vals cddl named unordered_maps f (children e) >>= disambiguates min_val max_val

  -- INT32_MIN and INT32_MAX.
  unfoldable pub all_children_int_disambiguated : ℕ → Elem → Result Bool
  unfolding all_children_disambiguated
  all_children_int_disambiguated f e =
      all_children_disambiguated f e (negsuc 0x7FFF_FFFF) (pos 0x7FFF_FFFF)

  unfoldable pub all_children_uint_disambiguated : ℕ → Elem → Result Bool
  unfolding all_children_disambiguated
  all_children_uint_disambiguated f e = all_children_disambiguated f e (pos 0) (pos 0x7FFF_FFFF)
