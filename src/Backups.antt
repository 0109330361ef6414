-- ===== src/Backups.antt =====
-- zcbor/zcbor.py, class CodeGenerator: `num_backups`, how many copies of its state the C code needs room for
-- while it codes an element.
pub mod Held
pub mod Enough
use zcbor.Prelude.{ℕ, zero, suc, ◌+◌, max, Bool, true, false, ◌||◌, if◌then◌else◌}
use zcbor.Outcome.{Result, ok, raised, out_of_fuel, Exception, ◌>>=◌}
use zcbor.Elem.{
  Elem, Elems, no_elems, elems, Slot, absent, present, Cddl, key, cbor, kind, children, resolve,
}
use zcbor.Unambiguous.{is_other}
use zcbor.PostValidate.{is_list, is_map, is_parent, is_union}

-- Python's `int` of a truth value.
abbrev pub to_int : Bool → ℕ
to_int true = 1
to_int false = 0

-- `cbor_var_condition` and `multi_decode` stand for what `cbor_var_condition` and
-- `multi_decode_w_backup_condition` say of an element.
module _ (cddl : Cddl) (cbor_var_condition multi_decode : Elem → Result Bool) where
  unfoldable pub num_backups_self : Elem → Result ℕ
  num_backups_self e = do
    b ← cbor_var_condition e
    m ← multi_decode e
    ok (to_int b + to_int (is_list (kind e) || is_map (kind e) || is_union (kind e)) + to_int m)

  -- `below` stands for the calls on other elements.
  module _ (below : Elem → Result ℕ) where
    unfoldable pub slot_backups : Slot → Result ℕ
    slot_backups absent = ok 0
    slot_backups (present e) = below e

    -- `self.cbor`, where `cbor_var_condition` holds.
    unfoldable pub cbor_backups : Bool → Slot → Result ℕ
    cbor_backups false s = ok 0
    cbor_backups true absent = raised Exception.attribute_error
    cbor_backups true (present e) = below e

    -- `max([child.num_backups() for child in self.value] + [0])`.
    unfoldable pub most_backups : Elems → Result ℕ
    most_backups no_elems = ok 0
    most_backups (elems c cs) = do n ← below c; m ← most_backups cs; ok (max n m)

    unfoldable pub num_backups_by : Elem → Result ℕ
    unfolding slot_backups cbor_backups most_backups num_backups_self
    num_backups_by e = do
      in_key ← slot_backups (key e)
      b ← cbor_var_condition e
      in_cbor ← cbor_backups b (cbor e)
      in_members ← if is_parent (kind e) then most_backups (children e) else ok 0
      in_type ← if is_other (kind e) then (resolve cddl e >>= below) else ok 0
      own ← num_backups_self e
      ok (in_key + in_cbor + in_members + in_type + own)

  unfoldable pub num_backups : ℕ → Elem → Result ℕ
  unfolding num_backups_by
  num_backups zero e = out_of_fuel
  num_backups (suc f) e = num_backups_by (num_backups f) e
