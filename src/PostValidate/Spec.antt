-- ===== src/PostValidate/Spec.antt =====
-- What a parsed CDDL must satisfy, told apart from how zcbor/zcbor.py's `post_validate` checks it.
use zcbor.Prelude.{◌≡◌, ◌⊎◌, true, some}
use zcbor.Outcome.{ok}
use zcbor.Elem.{
  Kind, Attrs, Elem, elem, Value, members, Elems, no_elems, elems, Slot, absent, present, Cddl,
  attrs, key, cbor, kind, children, reference, find, resolve,
}
use zcbor.PostValidate.{is_splice, is_parent, has_several, default}

-- A predicate on each member.
abbrev pub AllElems : (Elem → Type 0) → Elems → Type 0
AllElems P no_elems = Unit
AllElems P (elems c cs) = P c × AllElems P cs

-- All members but the last.
abbrev pub AllButLast : (Elem → Type 0) → Elems → Type 0
AllButLast P no_elems = Unit
AllButLast P (elems c no_elems) = Unit
AllButLast P (elems c (elems d cs)) = P c × AllButLast P (elems d cs)

-- The element is itself "any" and has no key, or its key is itself "any". What a reference leads to is
-- not looked at.
abbrev pub IsWrittenAny : Elem → Type 0
IsWrittenAny c =
    ((key c ≡ absent) × (kind c ≡ Kind.any))
    ⊎ ((k : Elem) × (key c ≡ present k) × (kind k ≡ Kind.any))

module _ (cddl : Cddl) where
  -- The element has a key, its own, that of the type it refers to, or one in each of its members.
  mutual
    pub data HasKey : Elem → Type 0 where
      own_key : {e k : Elem} → key e ≡ present k → HasKey e
      type_key : {e t : Elem} → kind e ≡ Kind.other → resolve cddl e ≡ ok t → HasKey t → HasKey e
      member_keys :
          {e c : Elem} {cs : Elems}
          → is_splice (kind e) ≡ true
          → children e ≡ elems c cs
          → HaveKeys (children e)
          → HasKey e

    pub data HaveKeys : Elems → Type 0 where
      no_members : HaveKeys no_elems
      more_members : {c : Elem} {cs : Elems} → HasKey c → HaveKeys cs → HaveKeys (elems c cs)

  -- The rules for one element.
  pub record IsSound (e : Elem) : Type 0 where
    -- Each member of a map has a key, and no member of a list has one.
    pub map_keys : kind e ≡ Kind.map → AllElems HasKey (children e)
    pub list_keys : kind e ≡ Kind.list → AllElems (λ c. HasKey c → ⊥) (children e)
    -- A reference leads to a type.
    pub known : kind e ≡ Kind.other → (t : Elem) × (find (reference e) cddl.types ≡ some t)
    -- Only the last member of a list may be "any" with a quantity that is not fixed.
    pub any_last :
        kind e ≡ Kind.list
        → AllButLast
            (λ c. kind c ≡ Kind.any → (attrs c).max_qty ≡ some (attrs c).min_qty)
            (children e)
    -- No member of a choice between several is written as "any".
    pub choices :
        kind e ≡ Kind.union
        → has_several (children e) ≡ true
        → AllElems (λ c. IsWrittenAny c → ⊥) (children e)
    -- A byte string has no default beside its contents.
    pub contents :
        kind e ≡ Kind.bstr → (c d : Elem) → cbor e ≡ present c → default e ≡ present d → ⊥

  -- The rules hold for the element and for each one in it.
  mutual
    pub data AllSound : Elem → Type 0 where
      all_sound :
          {a : Attrs} {v : Value} {k c d : Slot}
          → IsSound (elem a v k c d)
          → (is_parent a.kind ≡ true → AllSoundValue v)
          → AllSoundSlot c
          → AllSoundSlot k
          → AllSoundSlot d
          → AllSound (elem a v k c d)

    pub data AllSoundValue : Value → Type 0 where
      members_sound : {cs : Elems} → AllSoundElems cs → AllSoundValue (members cs)
      no_members_there : {v : Value} → ((cs : Elems) → v ≡ members cs → ⊥) → AllSoundValue v

    pub data AllSoundElems : Elems → Type 0 where
      none_left : AllSoundElems no_elems
      one_sound :
          {c : Elem} {cs : Elems} → AllSound c → AllSoundElems cs → AllSoundElems (elems c cs)

    pub data AllSoundSlot : Slot → Type 0 where
      nothing : AllSoundSlot absent
      something : {e : Elem} → AllSound e → AllSoundSlot (present e)
