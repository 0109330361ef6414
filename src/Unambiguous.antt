-- ===== src/Unambiguous.antt =====
-- zcbor/zcbor.py: `CddlParser.is_unambiguous` and its parts. The calls go through `my_types`, so they
-- take fuel; `Unambiguous/Enough` shows how much is enough.
pub mod Enough
use zcbor.Prelude.{ℕ, zero, suc, Bool, true, false, none, some, ◌&&◌, ◌==◌, if◌then◌else◌}
use zcbor.Outcome.{Result, ok, out_of_fuel, ◌>>=◌, and_also, or_else}
use zcbor.Elem.{
  Kind, Elem, Elems, no_elems, elems, Slot, absent, present, Cddl, attrs, value, key, kind,
  children, has_value, resolve,
}

-- `self.min_qty == self.max_qty`.
unfoldable pub fixed_qty : Elem → Bool
fixed_qty e = elim (attrs e).max_qty [ none ↦ false | some m ↦ (attrs e).min_qty == m ]

abbrev pub is_constant_kind : Kind → Bool
is_constant_kind Kind.nil = true
is_constant_kind Kind.undef = true
is_constant_kind Kind.any = true
is_constant_kind _ = false

abbrev pub is_literal_kind : Kind → Bool
is_literal_kind Kind.int = true
is_literal_kind Kind.nint = true
is_literal_kind Kind.uint = true
is_literal_kind Kind.float = true
is_literal_kind Kind.bstr = true
is_literal_kind Kind.tstr = true
is_literal_kind Kind.bool = true
is_literal_kind _ = false

abbrev pub is_other : Kind → Bool
is_other Kind.other = true
is_other _ = false

abbrev pub is_container : Kind → Bool
is_container Kind.list = true
is_container Kind.group = true
is_container Kind.map = true
is_container _ = false

-- `all(p(child) for child in children)`, which stops at the first `False`.
unfoldable pub every : (Elem → Result Bool) → Elems → Result Bool
every p no_elems = ok true
every p (elems c cs) = and_also (p c) (λ _. every p cs)

module _ (cddl : Cddl) where
  -- `repeated` stands for the call of `is_unambiguous_repeated`, one level down.
  unfoldable pub is_unambiguous_by : (Elem → Result Bool) → Elem → Result Bool
  unfolding fixed_qty
  is_unambiguous_by repeated e = and_also (repeated e) (λ _. ok (fixed_qty e))

  unfoldable pub is_unambiguous_value : (Elem → Result Bool) → Elem → Result Bool
  unfolding is_unambiguous_by resolve
  is_unambiguous_value repeated e =
      if is_constant_kind (kind e)
      then ok true
      else if is_literal_kind (kind e) && has_value (value e)
      then ok true
      else if is_other (kind e)
      then (resolve cddl e >>= is_unambiguous_by repeated)
      else ok false

  unfoldable pub key_known : (Elem → Result Bool) → Slot → Result Bool
  key_known repeated absent = ok true
  key_known repeated (present k) = repeated k

  unfoldable pub members_known : (Elem → Result Bool) → Elem → Result Bool
  unfolding every is_unambiguous_by
  members_known repeated e =
      if is_container (kind e) then every (is_unambiguous_by repeated) (children e) else ok false

  unfoldable pub is_unambiguous_repeated : ℕ → Elem → Result Bool
  unfolding is_unambiguous_value key_known members_known
  is_unambiguous_repeated zero e = out_of_fuel
  is_unambiguous_repeated (suc f) e =
      let below = is_unambiguous_repeated f in
      or_else (and_also (is_unambiguous_value below e) (λ _. key_known below (key e)))
        (λ _. members_known below e)

  unfoldable pub is_unambiguous : ℕ → Elem → Result Bool
  unfolding is_unambiguous_by is_unambiguous_repeated
  is_unambiguous f e = is_unambiguous_by (is_unambiguous_repeated f) e
