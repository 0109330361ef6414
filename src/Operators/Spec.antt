-- ===== src/Operators/Spec.antt =====
-- What the operand of a control operator stands for, which zcbor/zcbor.py's `unpack_value` looks up.
use zcbor.Prelude.{◌≡◌, ◌⊎◌, true, all_of, any_of, str_eq, [], ◌∷◌}
use zcbor.Outcome.{ok}
use zcbor.Elem.{Kind, Elem, no_elems, elems, Cddl, attrs, kind, children, resolve}

-- A modifier other than a value would be lost with the element that is taken off.
abbrev pub IsPlain : Elem → Type 0
IsPlain e = all_of (λ m. any_of (str_eq m) ("value" ∷ [])) (attrs e).modifiers ≡ true

-- An element that is taken off: a reference, or a group of one member.
abbrev pub IsWrapper : Elem → Type 0
IsWrapper e =
    (kind e ≡ Kind.other) ⊎ ((kind e ≡ Kind.group) × (c : Elem) × (children e ≡ elems c no_elems))

module _ (cddl : Cddl) where
  -- The first element stands for the second, through references and groups of one member that have no
  -- modifiers.
  pub data StandsFor : Elem → Elem → Type 0 where
    itself : {e : Elem} → (IsWrapper e → ⊥) → StandsFor e e
    in_group :
        {e c b : Elem}
        → kind e ≡ Kind.group
        → children e ≡ elems c no_elems
        → IsPlain e
        → StandsFor c b
        → StandsFor e b
    by_name :
        {e t b : Elem}
        → kind e ≡ Kind.other
        → resolve cddl e ≡ ok t
        → IsPlain e
        → StandsFor t b
        → StandsFor e b
