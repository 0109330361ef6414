-- ===== src/Translator/Spec.antt =====
-- What a CDDL element stands for, told apart from how zcbor/zcbor.py decodes it: which object fits an
-- element, and which run of objects an element takes with its quantifier. A choice is any of its
-- members here, with no order, and a quantifier is any count in its range. A tag encloses one object, so
-- a tagged reference, group or choice stands for no bare run of what it refers to, holds or offers.
use zcbor.Prelude.{ℕ, suc, ◌≤◌, ◌≡◌, ◌⊎◌, true, false, Bool, List, [], ◌∷◌, ◌++◌}
use zcbor.Outcome.{ok}
use zcbor.Elem.{
  Kind, Elem, Elems, elems, no_elems, absent, present, Cddl, attrs, key, kind, children, resolve,
}
use zcbor.Data.{Obj, key_tuple}
use zcbor.Quantity.{multi_var_condition}
use zcbor.Translator.Check.{check_key, check_tag, check_type, check_value}
use zcbor.Translator.Single.{iter_list, iter_items}
use zcbor.Translator.Decode.{upper_qty}

pub data Among (c : Elem) : Elems → Type 0 where
  here : {cs : Elems} → Among c (elems c cs)
  there : {d : Elem} {cs : Elems} → Among c cs → Among c (elems d cs)

-- The object under the element's tags, which meets the element's own restrictions.
pub record IsChecked (cddl : Cddl) (e : Elem) (obj inner : Obj) : Type 0 where
  pub plain : check_key obj ≡ ok tt
  pub tagged : check_tag e obj ≡ ok inner
  pub typed : check_type e inner ≡ ok tt
  pub valued : check_value cddl e inner ≡ ok tt

abbrev pub is_leaf : Kind → Bool
is_leaf Kind.other = false
is_leaf Kind.list = false
is_leaf Kind.map = false
is_leaf Kind.union = false
is_leaf Kind.group = false
is_leaf Kind.untyped = false
is_leaf _ = true

-- The element has no tags of its own.
abbrev pub IsUntagged : Elem → Type 0
IsUntagged e = (attrs e).tags ≡ []

-- Tags are not looked at.
abbrev pub AnyTags : Elem → Type 0
AnyTags e = Unit

-- `IsTransparent` holds of the references, groups and choices without a key that may stand for the run of
-- objects of what they refer to, hold or offer: those that are `IsUntagged` in CDDL. With `AnyTags` for
-- it, the relations say what the code takes.
module _ (cddl : Cddl) (default_max_qty : ℕ) (IsTransparent : Elem → Type 0) where
  mutual
    -- One object is what the element says, quantifier and key aside.
    pub data Fits : Elem → Obj → Type 0 where
      leaf :
          {e : Elem} {obj inner : Obj}
          → IsChecked cddl e obj inner
          → is_leaf (kind e) ≡ true
          → Fits e obj
      refers :
          {e t : Elem} {obj inner : Obj}
          → IsChecked cddl e obj inner
          → kind e ≡ Kind.other
          → resolve cddl e ≡ ok t
          → Fits t inner
          → Fits e obj
      sequence :
          {e : Elem} {obj inner : Obj} {xs : List Obj}
          → IsChecked cddl e obj inner
          → kind e ≡ Kind.list
          → iter_list inner ≡ ok xs
          → Each (children e) xs
          → Fits e obj
      mapping :
          {e : Elem} {obj inner : Obj} {xs : List Obj}
          → IsChecked cddl e obj inner
          → kind e ≡ Kind.map
          → iter_items inner ≡ ok xs
          → Each (children e) xs
          → Fits e obj
      choice :
          {e c : Elem} {obj inner : Obj}
          → IsChecked cddl e obj inner
          → kind e ≡ Kind.union
          → Among c (children e)
          → Fits c inner
          → Fits e obj

    -- The run of objects is one occurrence of the element.
    pub data Once : Elem → List Obj → Type 0 where
      keyed :
          {e k : Elem} {x v : Obj}
          → key e ≡ present k
          → Fits k x
          → Fits e v
          → Once e (key_tuple x v ∷ [])
      single : {e : Elem} {x : Obj} → key e ≡ absent → Fits e x → Once e (x ∷ [])
      referred :
          {e t : Elem} {xs : List Obj}
          → IsTransparent e
          → key e ≡ absent
          → kind e ≡ Kind.other
          → resolve cddl e ≡ ok t
          → Takes t xs
          → Once e xs
      grouped :
          {e : Elem} {xs : List Obj}
          → IsTransparent e
          → key e ≡ absent
          → kind e ≡ Kind.group
          → Each (children e) xs
          → Once e xs
      chosen :
          {e c : Elem} {xs : List Obj}
          → IsTransparent e
          → key e ≡ absent
          → kind e ≡ Kind.union
          → Among c (children e)
          → Takes c xs
          → Once e xs

    -- The run of objects is the element with its quantifier.
    pub data Takes : Elem → List Obj → Type 0 where
      exactly : {e : Elem} {xs : List Obj} → multi_var_condition e ≡ false → Once e xs → Takes e xs
      between :
          {e : Elem} {xs : List Obj} {n : ℕ}
          → multi_var_condition e ≡ true
          → (attrs e).min_qty ≤ n
          → (n ≤ upper_qty default_max_qty e) ⊎ (n ≡ (attrs e).min_qty)
          → Times e n xs
          → Takes e xs

    pub data Times : Elem → ℕ → List Obj → Type 0 where
      no_times : {e : Elem} → Times e 0 []
      one_time :
          {e : Elem} {n m : ℕ} {xs ys zs : List Obj}
          → Once e xs
          → Times e n ys
          → m ≡ suc n
          → zs ≡ xs ++ ys
          → Times e m zs

    pub data Each : Elems → List Obj → Type 0 where
      no_members : Each no_elems []
      one_member :
          {c : Elem} {cs : Elems} {xs ys zs : List Obj}
          → Takes c xs
          → Each cs ys
          → zs ≡ xs ++ ys
          → Each (elems c cs) zs
