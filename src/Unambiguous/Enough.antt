-- ===== src/Unambiguous/Enough.antt =====
-- zcbor/zcbor.py: the recursion of `is_unambiguous` and `is_cbor` ends where no type refers to itself.
use zcbor.Prelude.{ℕ, zero, suc, ◌≤◌, ◌<◌, ◌&&◌, String, Bool, not, arith}
use zcbor.Outcome.{Result, Ends, returns, Ensures-bind, Ensures-if}
use zcbor.Elem.{
  Elem, Elems, no_elems, elems, Slot, absent, present, Cddl, key, kind, value, children, has_value,
  cbor,
}
use zcbor.Unambiguous.{
  every, is_unambiguous_by, is_unambiguous_value, key_known, members_known, is_constant_kind,
  is_unambiguous_repeated, is_unambiguous, is_literal_kind, is_other, is_container,
}
use zcbor.Quantity.{is_cbor, slot_is_cbor, cbor_var_condition}
use zcbor.Rank.{
  IsRanked, height, height_elems, height_slot, children-lt, key-lt, cbor-lt, head-le, tail-le,
  slot-eq, resolve-Ensures,
}

module _ (rank : String → ℕ) {cddl : Cddl} (ranked : IsRanked rank cddl) where
  module _ (n : ℕ) (p : Elem → Result Bool)
      (below : (e : Elem) → height rank e < n → Ends (p e)) where
    by-Ends : (e : Elem) → height rank e < n → Ends (is_unambiguous_by cddl p e)
    unfolding is_unambiguous_by
    by-Ends e h = Ensures-bind (below e h) λ b _. Ensures-if b (λ _. returns tt) (λ _. returns tt)

    value-Ends : (e : Elem) → height rank e ≤ n → Ends (is_unambiguous_value cddl p e)
    unfolding is_unambiguous_value
    value-Ends e h =
        Ensures-if (is_constant_kind (kind e)) (λ _. returns tt)
          λ _.
            Ensures-if (is_literal_kind (kind e) && has_value (value e)) (λ _. returns tt)
              λ _.
                Ensures-if (is_other (kind e))
                  (λ _.
                    Ensures-bind (resolve-Ensures rank ranked e)
                      λ t r. by-Ends t (omega (arith, r.1)))
                  (λ _. returns tt)

    key-Ends : (k : Slot) → height_slot rank k < n → Ends (key_known cddl p k)
    unfolding key_known
    key-Ends absent h = returns tt
    key-Ends (present k) h = below k (omega (arith, slot-eq rank k))

    every-Ends :
        (q : Elem → Result Bool) (qs : (e : Elem) → height rank e < n → Ends (q e)) (cs : Elems)
        → height_elems rank cs < n
        → Ends (every q cs)
    unfolding every
    every-Ends q qs no_elems h = returns tt
    every-Ends q qs (elems c cs) h = Ensures-bind (qs c (omega (arith, head-le rank c cs))) λ b _.
        Ensures-if b (λ _. every-Ends q qs cs (omega (arith, tail-le rank c cs))) (λ _. returns tt)

    members-Ends : (e : Elem) → height rank e ≤ n → Ends (members_known cddl p e)
    unfolding members_known
    members-Ends e h =
        Ensures-if (is_container (kind e))
          (λ _.
            every-Ends (is_unambiguous_by cddl p) by-Ends (children e)
              (omega (arith, children-lt rank e)))
          (λ _. returns tt)

  -- Fuel above the height of an element is enough to tell whether its repeated part is known.
  pub is_unambiguous_repeated-Ends :
      (f : ℕ) (e : Elem) → height rank e < f → Ends (is_unambiguous_repeated cddl f e)
  unfolding is_unambiguous_repeated
  is_unambiguous_repeated-Ends zero e h = absurd (omega arith)
  is_unambiguous_repeated-Ends (suc f) e h =
      let below = is_unambiguous_repeated cddl f in
      let smaller = is_unambiguous_repeated-Ends f in
      Ensures-bind
        (Ensures-bind (value-Ends f below smaller e (omega arith)) λ b _.
          Ensures-if b (λ _. key-Ends f below smaller (key e) (omega (arith, key-lt rank e)))
            (λ _. returns tt))
        λ b _. Ensures-if b (λ _. returns tt) (λ _. members-Ends f below smaller e (omega arith))

  -- With fuel above the height of an element, whether its encoding is known is decided.
  pub is_unambiguous-Ends : (f : ℕ) (e : Elem) → height rank e < f → Ends (is_unambiguous cddl f e)
  unfolding is_unambiguous
  is_unambiguous-Ends f e h =
      by-Ends f (is_unambiguous_repeated cddl f) (is_unambiguous_repeated-Ends f) e h

  pub is_cbor-Ends : (f : ℕ) (e : Elem) → height rank e < f → Ends (is_cbor cddl f e)
  unfolding is_cbor
  is_cbor-Ends zero e h = absurd (omega arith)
  is_cbor-Ends (suc f) e h =
      Ensures-if (is_constant_kind (kind e)) (λ _. returns tt)
        λ _.
          Ensures-if (not (is_other (kind e))) (λ _. returns tt)
            λ _.
              Ensures-bind (resolve-Ensures rank ranked e)
                λ t r. is_cbor-Ends f t (omega (arith, r.1))

  slot-Ends : (f : ℕ) (c : Slot) → height_slot rank c < f → Ends (slot_is_cbor cddl f c)
  unfolding slot_is_cbor
  slot-Ends f absent h = returns tt
  slot-Ends f (present c) h = is_cbor-Ends f c (omega (arith, slot-eq rank c))

  pub cbor_var_condition-Ends :
      (f : ℕ) (e : Elem) → height rank e < f → Ends (cbor_var_condition cddl f e)
  unfolding cbor_var_condition
  cbor_var_condition-Ends f e h = slot-Ends f (cbor e) (omega (arith, cbor-lt rank e))
