-- ===== src/Backups/Enough.antt =====
-- zcbor/zcbor.py, class CodeGenerator: `num_backups` ends where no type refers to itself, and counts enough.
use zcbor.Prelude.{ℕ, zero, suc, ◌≤◌, ◌<◌, String, Bool, true, false, arith}
use zcbor.Outcome.{
  Result, Exception, Ends, returns, raises, Ensures, Ensures-bind, Ensures-if, Ensures-self,
  Ensures-weaken,
}
use zcbor.Elem.{
  Elem, Elems, no_elems, elems, Slot, absent, present, Cddl, key, cbor, kind, children,
}
use zcbor.Unambiguous.{is_other}
use zcbor.PostValidate.{is_parent}
use zcbor.Rank.{
  IsRanked, height, height_elems, height_slot, children-lt, key-lt, cbor-lt, head-le, tail-le,
  slot-eq, resolve-Ensures,
}
use zcbor.Backups.{
  num_backups_self, slot_backups, cbor_backups, most_backups, num_backups_by, num_backups,
}
use zcbor.Backups.Held.{Held, Held-le}

module _ (rank : String → ℕ) {cddl : Cddl} (ranked : IsRanked rank cddl)
    (cbor_var multi_decode : Elem → Result Bool) (cbor_var-Ends : (e : Elem) → Ends (cbor_var e))
    (multi_decode-Ends : (e : Elem) → Ends (multi_decode e)) where
  self-Ends : (e : Elem) → Ends (num_backups_self cddl cbor_var multi_decode e)
  unfolding num_backups_self
  self-Ends e =
      Ensures-bind (cbor_var-Ends e) (λ _ _. Ensures-bind (multi_decode-Ends e) (λ _ _. returns tt))

  module _ (n : ℕ) (below : Elem → Result ℕ)
      (ends : (e : Elem) → height rank e < n → Ends (below e)) where
    slot-Ends :
        (s : Slot) → height_slot rank s < n → Ends (slot_backups cddl cbor_var multi_decode below s)
    unfolding slot_backups
    slot-Ends absent h = returns tt
    slot-Ends (present e) h = ends e (omega (arith, slot-eq rank e))

    cbor-Ends :
        (b : Bool) (s : Slot)
        → height_slot rank s < n
        → Ends (cbor_backups cddl cbor_var multi_decode below b s)
    unfolding cbor_backups
    cbor-Ends false s h = returns tt
    cbor-Ends true absent h = raises Exception.attribute_error
    cbor-Ends true (present e) h = ends e (omega (arith, slot-eq rank e))

    most-Ends :
        (cs : Elems)
        → height_elems rank cs < n
        → Ends (most_backups cddl cbor_var multi_decode below cs)
    unfolding most_backups
    most-Ends no_elems h = returns tt
    most-Ends (elems c cs) h =
        Ensures-bind (ends c (omega (arith, head-le rank c cs))) (λ _ _.
          Ensures-bind (most-Ends cs (omega (arith, tail-le rank c cs))) (λ _ _. returns tt))

    by-Ends :
        (e : Elem) → height rank e ≤ n → Ends (num_backups_by cddl cbor_var multi_decode below e)
    unfolding num_backups_by
    by-Ends e h = Ensures-bind (slot-Ends (key e) (omega (arith, key-lt rank e))) (λ _ _.
        Ensures-bind (cbor_var-Ends e) (λ b _.
          Ensures-bind (cbor-Ends b (cbor e) (omega (arith, cbor-lt rank e))) (λ _ _.
            Ensures-bind
              (Ensures-if (is_parent (kind e))
                (λ _. most-Ends (children e) (omega (arith, children-lt rank e))) (λ _. returns tt))
              (λ _ _.
                Ensures-bind
                  (Ensures-if (is_other (kind e))
                    (λ _.
                      Ensures-bind (resolve-Ensures rank ranked e)
                        (λ t r. ends t (omega (arith, r.1))))
                    (λ _. returns tt))
                  (λ _ _. Ensures-bind (self-Ends e) (λ _ _. returns tt))))))

  num_backups-Ends :
      (f : ℕ) (e : Elem) → height rank e < f → Ends (num_backups cddl cbor_var multi_decode f e)
  unfolding num_backups
  num_backups-Ends zero e h = absurd (omega arith)
  num_backups-Ends (suc f) e h =
      by-Ends f (num_backups cddl cbor_var multi_decode f) (λ x l. num_backups-Ends f x l) e
        (omega arith)

-- With fuel above the height of an element, in a CDDL where no type refers to itself, and where the two
-- conditions end, `num_backups` ends, and what it returns is no less than the number of backups that are
-- held at the same time for the element and for elements each inside the one before.
pub num_backups-Ensures :
    (rank : String → ℕ) {cddl : Cddl} (ranked : IsRanked rank cddl)
    (cbor_var multi_decode : Elem → Result Bool)
    → ((e : Elem) → Ends (cbor_var e))
    → ((e : Elem) → Ends (multi_decode e))
    → (f : ℕ) (e : Elem) → height rank e < f
    → Ensures
        (λ total. (n : ℕ) → Held cddl cbor_var multi_decode e n → n ≤ total)
        (num_backups cddl cbor_var multi_decode f e)
num_backups-Ensures rank {cddl} ranked cbor_var multi_decode p q f e h =
    Ensures-weaken (Ensures-self (num_backups-Ends rank ranked cbor_var multi_decode p q f e h))
      (λ total eq n held. Held-le cddl cbor_var multi_decode f held eq)
