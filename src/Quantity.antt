-- ===== src/Quantity.antt =====
-- zcbor/zcbor.py, class CddlXcoder: how often an element may occur, and whether its `.cbor` element
-- has contents (`optional_quantifier`, `count_var_condition`, `multi_var_condition`, `is_cbor`).
use zcbor.Prelude.{
  ℕ, zero, suc, ltb, leb, ◌==◌, Bool, true, false, not, ◌&&◌, ◌||◌, none, some, if◌then◌else◌,
}
use zcbor.Outcome.{Result, ok, out_of_fuel, ◌>>=◌}
use zcbor.Elem.{Elem, Slot, absent, present, Cddl, attrs, cbor, kind, resolve}
use zcbor.Unambiguous.{is_constant_kind, is_other}

-- `self.min_qty == 0 and isinstance(self.max_qty, int) and self.max_qty <= 1`.
unfoldable pub optional_quantifier : Elem → Bool
optional_quantifier e =
    (attrs e).min_qty == 0 && (elim (attrs e).max_qty [ none ↦ false | some m ↦ leb m 1 ])

unfoldable pub present_var_condition : Elem → Bool
unfolding optional_quantifier
present_var_condition e = optional_quantifier e

-- `(not isinstance(self.max_qty, int)) or self.max_qty > 1`.
unfoldable pub count_var_condition : Elem → Bool
count_var_condition e = elim (attrs e).max_qty [ none ↦ true | some m ↦ ltb 1 m ]

unfoldable pub multi_var_condition : Elem → Bool
unfolding present_var_condition count_var_condition
multi_var_condition e = present_var_condition e || count_var_condition e

module _ (cddl : Cddl) where
  unfoldable pub is_cbor : ℕ → Elem → Result Bool
  unfolding resolve
  is_cbor zero e = out_of_fuel
  is_cbor (suc f) e =
      if is_constant_kind (kind e)
      then ok false
      else if not (is_other (kind e))
      then ok true
      else (resolve cddl e >>= λ t. is_cbor f t)

  unfoldable pub slot_is_cbor : ℕ → Slot → Result Bool
  unfolding is_cbor
  slot_is_cbor f absent = ok false
  slot_is_cbor f (present c) = is_cbor f c

  unfoldable pub cbor_var_condition : ℕ → Elem → Result Bool
  unfolding slot_is_cbor
  cbor_var_condition f e = slot_is_cbor f (cbor e)
