-- ===== src/PostValidate/Sound.antt =====
-- zcbor/zcbor.py, class CddlParser: what holds of a CDDL element that `post_validate` lets pass.
use zcbor.Prelude.{
  ℕ, ◌≡◌, refl, inl, inr, Bool, true, false, not, ◌&&◌, ◌||◌, is_some, Option, none, some, List,
  any_of, arith,
}
use zcbor.Outcome.{required, first_returns, Result, ok, Exception, require, ◌>>◌}
use zcbor.Elem.{
  Kind, Elem, elem, Value, no_value, number, text, truth, members, Elems, no_elems, elems, Slot,
  absent, present, Cddl, attrs, kind, children, reference, find,
}
use zcbor.Unambiguous.{fixed_qty}
use zcbor.PostValidate.{
  is_any, is_list, is_map, any_unknown, valid_flags, check_keys, check_members, check_reference,
  any_is_last, check_any, slot_is_any, catches_all, none_catches, check_union, check_default,
  validate_own, post_validate, post_validate_value, post_validate_elems, post_validate_slot,
}
use zcbor.PostValidate.Spec.{
  AllElems, AllButLast, IsWrittenAny, IsSound, AllSound, all_sound, AllSoundValue, members_sound,
  no_members_there, AllSoundElems, none_left, one_sound, AllSoundSlot, nothing, something,
}
use zcbor.PostValidate.Keys.{all_flags, no_flags}

-- Two steps that passed.
both : (r s : Result (Unit {0})) → (r >> s) ≡ ok tt → (r ≡ ok tt) × (s ≡ ok tt)
both r s h = let (u, p, q) = first_returns r (λ _. s) h in (p, q)

fixed :
    (c : Elem) (m : Option ℕ)
    → (attrs c).max_qty ≡ m
    → fixed_qty c ≡ true
    → (attrs c).max_qty ≡ some (attrs c).min_qty
unfolding fixed_qty
fixed c none p h = ground arith
fixed c (some m) p h = ground arith

any_last_sound :
    (cs : Elems)
    → any_is_last cs ≡ true
    → AllButLast (λ c. kind c ≡ Kind.any → (attrs c).max_qty ≡ some (attrs c).min_qty) cs
unfolding any_is_last
any_last_sound no_elems h = tt
any_last_sound (elems c no_elems) h = tt
any_last_sound (elems c (elems d cs)) h =
    (λ p. fixed c (attrs c).max_qty refl (ground arith), any_last_sound (elems d cs) (ground arith))

is_any_kind : (k : Kind) → is_any k ≡ true → k ≡ Kind.any
is_any_kind Kind.any h = refl
is_any_kind k h = cc

catches_sound : (c : Elem) → catches_all c ≡ false → IsWrittenAny c → ⊥
unfolding catches_all slot_is_any
catches_sound c h (inl (p, q)) = ground arith
catches_sound c h (inr (k, p, q)) = ground arith

choices_sound : (cs : Elems) → none_catches cs ≡ true → AllElems (λ c. IsWrittenAny c → ⊥) cs
unfolding none_catches
choices_sound no_elems h = tt
choices_sound (elems c cs) h = (catches_sound c (ground arith), choices_sound cs (ground arith))

module _ (cddl : Cddl) (f : ℕ) where
  -- The flags of the members of a map or list, which the check of keys let pass.
  flags_checked :
      (e : Elem)
      → (is_list (kind e) || is_map (kind e)) ≡ true
      → check_members cddl f e ≡ ok tt
      → (bs : List Bool) × (valid_flags cddl f (children e) ≡ ok bs)
        × ((is_map (kind e) && any_of not bs) ≡ false)
        × ((is_list (kind e) && any_of (λ b. b) bs) ≡ false)
  unfolding check_members check_keys
  flags_checked e p h =
      let (bs, counted, h1) =
        first_returns (valid_flags cddl f (children e)) (check_keys cddl e)
          (rw (p, check_members) at h) in
      let (h2, r2) =
        both (require Exception.parsing_error (not (is_map (kind e) && any_of not bs))) _ h1 in
      let (h3, h4) =
        both
          (require Exception.key_error (
            not (is_list (kind e) && any_of (λ b. b) bs) || not (any_unknown cddl bs (children e))))
          _ r2 in
      (bs, counted, flip _ (required _ _ h2), flip _ (required _ _ h4))
    where
      flip : (b : Bool) → not b ≡ true → b ≡ false
      flip b h = ground arith

  own-IsSound : (e : Elem) → validate_own cddl f e ≡ ok tt → IsSound cddl e
  unfolding validate_own check_reference check_any check_union check_default
  own-IsSound e h =
      let (h1, r1) = both (check_members cddl f e) _ h in
      let (h2, r2) = both (check_reference cddl e) _ r1 in
      let (h3, r3) = both (check_any e) _ r2 in
      let (h4, h5) = both (check_union e) _ r3 in
      record {
        map_keys = λ p.
            let (bs, counted, maps, lists) = flags_checked e (rw p refl) h1 in
            all_flags cddl f (children e) bs counted (rw p at maps);
        list_keys = λ p.
            let (bs, counted, maps, lists) = flags_checked e (rw p refl) h1 in
            no_flags cddl f (children e) bs counted (rw p at lists);
        known = λ p. there (find (reference e) cddl.types) (rw p at (required _ _ h2));
        any_last = λ p. any_last_sound (children e) (rw p at (required _ _ h3));
        choices = λ p q. choices_sound (children e) (rw (p, q) at (required _ _ h4));
        contents = λ p c d q r. absurd (clash (rw (p, q, r) at (required _ _ h5)));
      }
    where
      there : (o : Option Elem) → is_some o ≡ true → (t : Elem) × (o ≡ some t)
      there none h = cc
      there (some t) h = (t, refl)

      clash : ◌≡◌ {A = Bool} false true → ⊥
      clash h = cc

  mutual
    unfolding post_validate

    AllSound-elem : (e : Elem) → post_validate cddl f e ≡ ok tt → AllSound cddl e
    AllSound-elem (elem a v k c d) h =
        let (r1, hd) = both _ (post_validate_slot cddl f d) h in
        let (r2, hk) = both _ (post_validate_slot cddl f k) r1 in
        let (r3, hc) = both _ (post_validate_slot cddl f c) r2 in
        let (own, below) = both (validate_own cddl f (elem a v k c d)) _ r3 in
        all_sound (own-IsSound (elem a v k c d) own) (λ p. all_sound_value v (rw p at below))
          (all_sound_slot c hc) (all_sound_slot k hk) (all_sound_slot d hd)

    all_sound_value : (v : Value) → post_validate_value cddl f v ≡ ok tt → AllSoundValue cddl v
    all_sound_value (members cs) h = members_sound (all_sound_elems cs h)
    all_sound_value no_value h = no_members_there (λ cs e. cc)
    all_sound_value (number n) h = no_members_there (λ cs e. cc)
    all_sound_value (text s) h = no_members_there (λ cs e. cc)
    all_sound_value (truth b) h = no_members_there (λ cs e. cc)

    all_sound_elems : (cs : Elems) → post_validate_elems cddl f cs ≡ ok tt → AllSoundElems cddl cs
    all_sound_elems no_elems h = none_left
    all_sound_elems (elems c cs) h =
        let (one, rest) = both (post_validate cddl f c) _ h in
        one_sound (AllSound-elem c one) (all_sound_elems cs rest)

    all_sound_slot : (s : Slot) → post_validate_slot cddl f s ≡ ok tt → AllSoundSlot cddl s
    all_sound_slot absent h = nothing
    all_sound_slot (present e) h = something (AllSound-elem e h)

-- An element that `post_validate` lets pass keeps the rules, and so does each element in it: each member
-- of a map has a key and no member of a list has one, references lead to types, "any" with an open
-- quantity is last in its list, no member of a choice between several is itself "any" without a key
-- or has a key that is itself "any", and no byte string has both contents and a default.
pub post_validate-AllSound :
    (cddl : Cddl) (f : ℕ) (e : Elem) → post_validate cddl f e ≡ ok tt → AllSound cddl e
post_validate-AllSound cddl f e h = AllSound-elem cddl f e h
