-- ===== src/Operators/Order.antt =====
-- zcbor/zcbor.py, class CddlParser: the order in which a lower and an upper bound are processed.
use zcbor.Prelude.{◌≡◌, refl, sym, ap, ◌∙◌, ◌↔◌, Bool}
use zcbor.Outcome.{Result, ok, first_returns, ◌>>=◌}
use zcbor.Number.{Number}
use zcbor.Elem.{Attrs, Elem, elem, Value, Slot, Cddl, value}
use zcbor.Bounds.{nesting, set_min_value, set_max_value}
use zcbor.Bounds.Apart.{lower_of, upper_of, set_min_value-lower, set_max_value-upper}
use zcbor.Bounds.Order.{min_max_swap}
use zcbor.Operators.{extract_ineq_val, number_of, set_lower, set_upper}

module _ (cddl : Cddl) (v : Value) (k c d : Slot) where
  -- The number of an operand. Of the element it is for, the type and the value matter.
  abbrev operand : Elem → Attrs → Result Number
  operand o a = extract_ineq_val cddl o (elem a v k c d) >>= λ x. number_of (value x)

  lower_steps :
      (i : Bool) (o : Elem) (a : Attrs) (x : Elem)
      → set_lower cddl i o (elem a v k c d) ≡ ok x
      → (m : Number) × (b : Attrs) × (operand o a ≡ ok m)
        × (set_min_value nesting m i a ≡ ok b)
        × (x ≡ elem b v k c d)
  unfolding set_lower
  lower_steps i o a x h =
      let (y, p, r1) = first_returns (extract_ineq_val cddl o (elem a v k c d)) _ h in
      let (m, q, r2) = first_returns (number_of (value y)) _ r1 in
      let (b, s, r3) = first_returns (set_min_value nesting m i a) (λ b. ok (elem b v k c d)) r2 in
      (m, b, ap (λ r. r >>= λ x. number_of (value x)) p ∙ q, s, cc)

  upper_steps :
      (i : Bool) (o : Elem) (a : Attrs) (x : Elem)
      → set_upper cddl i o (elem a v k c d) ≡ ok x
      → (m : Number) × (b : Attrs) × (operand o a ≡ ok m)
        × (set_max_value nesting m i a ≡ ok b)
        × (x ≡ elem b v k c d)
  unfolding set_upper
  upper_steps i o a x h =
      let (y, p, r1) = first_returns (extract_ineq_val cddl o (elem a v k c d)) _ h in
      let (m, q, r2) = first_returns (number_of (value y)) _ r1 in
      let (b, s, r3) = first_returns (set_max_value nesting m i a) (λ b. ok (elem b v k c d)) r2 in
      (m, b, ap (λ r. r >>= λ x. number_of (value x)) p ∙ q, s, cc)

  lower_done :
      (i : Bool) (o : Elem) (a b : Attrs) (m : Number)
      → operand o a ≡ ok m
      → set_min_value nesting m i a ≡ ok b
      → set_lower cddl i o (elem a v k c d) ≡ ok (elem b v k c d)
  unfolding set_lower
  lower_done i o a b m p q =
      let (y, p1, p2) =
        first_returns (extract_ineq_val cddl o (elem a v k c d)) (λ x. number_of (value x)) p in
      rw (set_lower, p1, p2, q) refl

  upper_done :
      (i : Bool) (o : Elem) (a b : Attrs) (m : Number)
      → operand o a ≡ ok m
      → set_max_value nesting m i a ≡ ok b
      → set_upper cddl i o (elem a v k c d) ≡ ok (elem b v k c d)
  unfolding set_upper
  upper_done i o a b m p q =
      let (y, p1, p2) =
        first_returns (extract_ineq_val cddl o (elem a v k c d)) (λ x. number_of (value x)) p in
      rw (set_upper, p1, p2, q) refl

  operand-lower : (o : Elem) (a b : Attrs) → b ≡ lower_of b a → operand o b ≡ operand o a
  unfolding extract_ineq_val
  operand-lower o a b own = ap (operand o) own

  operand-upper : (o : Elem) (a b : Attrs) → b ≡ upper_of b a → operand o b ≡ operand o a
  unfolding extract_ineq_val
  operand-upper o a b own = ap (operand o) own

  module _ (i j : Bool) (low high : Elem) (a : Attrs) where
    -- The numbers of the operands, and the bounds that they leave.
    record Bounded (e' : Elem) : Type 0 where
      m : Number
      n : Number
      b : Attrs
      low_found : operand low a ≡ ok m
      high_found : operand high a ≡ ok n
      set : (set_min_value nesting m i a >>= set_max_value nesting n j) ≡ ok b
      result : e' ≡ elem b v k c d

    lower_upper :
        (e' : Elem)
        → (set_lower cddl i low (elem a v k c d) >>= set_upper cddl j high) ≡ ok e'
        → Bounded e'
    lower_upper e' h =
        let (x, first, second) =
          first_returns (set_lower cddl i low (elem a v k c d)) (set_upper cddl j high) h in
        let (m, b, p, q, e) = lower_steps i low a x first in
        let (n, b', p', q', e1) =
          upper_steps j high b e' (ap (set_upper cddl j high) (sym e) ∙ second) in
        record {
          m = m;
          n = n;
          b = b';
          low_found = p;
          high_found = sym (operand-lower high a b (set_min_value-lower nesting m i a b q)) ∙ p';
          set = ap (λ r. r >>= set_max_value nesting n j) q ∙ q';
          result = e1;
        }

    upper_lower :
        (e' : Elem)
        → (set_upper cddl j high (elem a v k c d) >>= set_lower cddl i low) ≡ ok e'
        → Bounded e'
    upper_lower e' h =
        let (x, first, second) =
          first_returns (set_upper cddl j high (elem a v k c d)) (set_lower cddl i low) h in
        let (n, b, p, q, e) = upper_steps j high a x first in
        let (m, b', p', q', e1) =
          lower_steps i low b e' (ap (set_lower cddl i low) (sym e) ∙ second) in
        record {
          m = m;
          n = n;
          b = b';
          low_found = sym (operand-upper low a b (set_max_value-upper nesting n j a b q)) ∙ p';
          high_found = p;
          set =
              (min_max_swap nesting nesting m n i j a b').1
                (ap (λ r. r >>= set_min_value nesting m i) q ∙ q');
          result = e1;
        }

    lower_first :
        (e' : Elem)
        → Bounded e'
        → (set_lower cddl i low (elem a v k c d) >>= set_upper cddl j high) ≡ ok e'
    lower_first e' s =
        let (b, q, q') =
          first_returns (set_min_value nesting s.m i a) (set_max_value nesting s.n j) s.set in
        let same = operand-lower high a b (set_min_value-lower nesting s.m i a b q) in
        ap (λ r. r >>= set_upper cddl j high) (lower_done i low a b s.m s.low_found q)
        ∙ upper_done j high b s.b s.n (same ∙ s.high_found) q'
        ∙ ap ok (sym s.result)

    upper_first :
        (e' : Elem)
        → Bounded e'
        → (set_upper cddl j high (elem a v k c d) >>= set_lower cddl i low) ≡ ok e'
    upper_first e' s =
        let turned = (min_max_swap nesting nesting s.m s.n i j a s.b).0 s.set in
        let (b, q, q') =
          first_returns (set_max_value nesting s.n j a) (set_min_value nesting s.m i) turned in
        let same = operand-upper low a b (set_max_value-upper nesting s.n j a b q) in
        ap (λ r. r >>= set_lower cddl i low) (upper_done j high a b s.n s.high_found q)
        ∙ lower_done i low b s.b s.m (same ∙ s.low_found) q'
        ∙ ap ok (sym s.result)

-- A lower bound (`.gt`, `.ge`) and an upper bound (`.lt`, `.le`) of an element can be processed in either
-- order: one order returns an element exactly where the other returns the same.
pub bounds_commute :
    (cddl : Cddl) (i j : Bool) (low high e e' : Elem)
    → ((set_lower cddl i low e >>= set_upper cddl j high) ≡ ok e')
      ↔ ((set_upper cddl j high e >>= set_lower cddl i low) ≡ ok e')
bounds_commute cddl i j low high (elem a v k c d) e' = (
  λ h. upper_first cddl v k c d i j low high a e' (lower_upper cddl v k c d i j low high a e' h),
  λ h. lower_first cddl v k c d i j low high a e' (upper_lower cddl v k c d i j low high a e' h),
)
