-- ===== src/Rank.antt =====
-- zcbor/zcbor.py: types that do not refer to themselves. A rank of the type names that falls along
-- every reference bounds how deep the recursive methods go, and so the fuel that they need.
use zcbor.Prelude.{ℕ, suc, max, ◌≤◌, ◌<◌, ◌≡◌, String, some, arith}
use zcbor.Outcome.{ok, Exception, Ensures, or_raise-Ensures, Ensures-weaken}
use zcbor.Elem.{
  Elem, elem, Value, members, Elems, no_elems, elems, Slot, absent, present, Cddl, key, cbor,
  children, reference, find, resolve,
}

module _ (rank : String → ℕ) where
  -- How deep an element goes, a reference counting as deep as the rank of its name.
  unfoldable mutual
    pub height : Elem → ℕ
    height (elem a v k c d) = suc (max (height_value v) (max (height_slot k) (height_slot c)))

    pub height_value : Value → ℕ
    height_value (members cs) = max (rank "") (height_elems cs)
    height_value Value.no_value = rank ""
    height_value (Value.number n) = rank ""
    height_value (Value.text s) = rank s
    height_value (Value.truth b) = rank ""

    pub height_elems : Elems → ℕ
    height_elems no_elems = 0
    height_elems (elems c cs) = max (height c) (height_elems cs)

    pub height_slot : Slot → ℕ
    height_slot absent = 0
    height_slot (present e) = height e

  -- No type is deeper than the rank of its name.
  pub record IsRanked (cddl : Cddl) : Type 0 where
    pub ranked : (name : String) (t : Elem) → find name cddl.types ≡ some t → height t ≤ rank name

  pub reference-lt : (e : Elem) → rank (reference e) < height e
  unfolding height
  reference-lt (elem a (members cs) k c d) = omega arith
  reference-lt (elem a _ k c d) = omega arith

  pub children-lt : (e : Elem) → height_elems (children e) < height e
  unfolding height
  children-lt (elem a (members cs) k c d) = omega arith
  children-lt (elem a _ k c d) = omega arith

  pub key-lt : (e : Elem) → height_slot (key e) < height e
  unfolding height
  key-lt (elem a v k c d) = omega arith

  pub cbor-lt : (e : Elem) → height_slot (cbor e) < height e
  unfolding height
  cbor-lt (elem a v k c d) = omega arith

  pub head-le : (c : Elem) (cs : Elems) → height c ≤ height_elems (elems c cs)
  unfolding height
  head-le c cs = omega arith

  pub tail-le : (c : Elem) (cs : Elems) → height_elems cs ≤ height_elems (elems c cs)
  unfolding height
  tail-le c cs = omega arith

  pub slot-eq : (e : Elem) → height_slot (present e) ≡ height e
  unfolding height
  slot-eq e = omega arith

  module _ {cddl : Cddl} (ranked : IsRanked cddl) where
    -- What a reference leads to is less deep.
    pub resolve-Ensures :
        (e : Elem) → Ensures (λ t. (resolve cddl e ≡ ok t) × (height t < height e)) (resolve cddl e)
    unfolding resolve
    resolve-Ensures e =
        Ensures-weaken (or_raise-Ensures Exception.key_error (find (reference e) cddl.types))
          λ t p. (rw p, omega (arith, reference-lt e, ranked.ranked (reference e) t p))
