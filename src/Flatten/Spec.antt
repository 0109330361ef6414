-- ===== src/Flatten/Spec.antt =====
-- The parsed elements that zcbor/zcbor.py's `flatten` meets: an element without a quantifier occurs
-- once, and each socket is filled.
use zcbor.Prelude.{◌≡◌, String, str_eq, any_of, Bool, true, false, some}
use zcbor.Elem.{Attrs, Elem, elem, Value, members, Elems, no_elems, elems, Slot}
use zcbor.PostValidate.{is_parent}
use zcbor.Flatten.{is_open}

-- `set_quantifier` leaves a modifier of that name; without it the quantities are the ones of the
-- constructor.
pub record IsQuantified (a : Attrs) : Type 0 where
  pub once_min : any_of (str_eq "quantifier") a.modifiers ≡ false → a.min_qty ≡ 1
  pub once_max : any_of (str_eq "quantifier") a.modifiers ≡ false → a.max_qty ≡ some 1

module _ (known : String → Bool) where
  mutual
    pub data Ready : Elem → Type 0 where
      ready :
          {a : Attrs} {v : Value} {k c d : Slot}
          → IsQuantified a
          → is_open known (elem a v k c d) ≡ false
          → (is_parent a.kind ≡ true → ReadyValue v)
          → Ready (elem a v k c d)

    pub data ReadyValue : Value → Type 0 where
      ready_members : {cs : Elems} → ReadyElems cs → ReadyValue (members cs)

    pub data ReadyElems : Elems → Type 0 where
      none_left : ReadyElems no_elems
      one_ready : {c : Elem} {cs : Elems} → Ready c → ReadyElems cs → ReadyElems (elems c cs)
