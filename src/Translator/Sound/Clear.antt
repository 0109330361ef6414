-- ===== src/Translator/Sound/Clear.antt =====
-- zcbor/zcbor.py, class DataTranslator: elements whose tags `_decode_obj` never passes over. It looks at
-- the tags of a reference, group or choice without a key only where the next object has a tag.
use zcbor.Prelude.{ℕ, ◌≡◌, ap, String, true, Option, none, some, List}
use zcbor.Outcome.{ok, Exception, or_raise}
use zcbor.Elem.{
  Elem, Elems, no_elems, elems, Slot, absent, present, Cddl, key, kind, children, reference, find,
  resolve,
}
use zcbor.Data.{Obj}
use zcbor.Translator.Check.{is_indirect}
use zcbor.Translator.Spec.{
  Among, here, there, IsUntagged, AnyTags, Fits, leaf, refers, sequence, mapping, choice, Once,
  keyed, single, referred, grouped, chosen, Takes, exactly, between, Times, no_times, one_time,
  Each, no_members, one_member,
}

-- No reference, group or choice has tags but no key, in the element, its members and its key. The
-- tags of a key are those of one object.
mutual
  pub data IsClear : Elem → Type 0 where
    clear :
        {e : Elem}
        → (is_indirect (kind e) ≡ true → key e ≡ absent → IsUntagged e)
        → IsClearInside e
        → IsClear e

  pub data IsClearInside : Elem → Type 0 where
    inside : {e : Elem} → AreClear (children e) → IsClearKey (key e) → IsClearInside e

  pub data AreClear : Elems → Type 0 where
    none_left : AreClear no_elems
    one_clear : {c : Elem} {cs : Elems} → IsClear c → AreClear cs → AreClear (elems c cs)

  pub data IsClearKey : Slot → Type 0 where
    no_key : IsClearKey absent
    own_key : {k : Elem} → IsClearInside k → IsClearKey (present k)

pub record HasClearTypes (cddl : Cddl) : Type 0 where
  pub clear_type : (name : String) (t : Elem) → find name cddl.types ≡ some t → IsClear t

Among-IsClear : {c : Elem} {cs : Elems} → AreClear cs → Among c cs → IsClear c
Among-IsClear none_left a = elim a [ ]
Among-IsClear (one_clear h hs) here = h
Among-IsClear (one_clear h hs) (there a) = Among-IsClear hs a

IsClear-IsClearInside : {e : Elem} → IsClear e → IsClearInside e
IsClear-IsClearInside (clear h i) = i

IsClear-IsUntagged :
    {e : Elem} → IsClear e → is_indirect (kind e) ≡ true → key e ≡ absent → IsUntagged e
IsClear-IsUntagged (clear h i) = h

children-AreClear : {e : Elem} → IsClearInside e → AreClear (children e)
children-AreClear (inside hs k) = hs

slot-IsClearInside : {k : Elem} {s : Slot} → s ≡ present k → IsClearKey s → IsClearInside k
slot-IsClearInside p no_key = cc
slot-IsClearInside {k} p (own_key {k = j} i) = let e : j ≡ k = cc in rw e at i

key-IsClearInside : {e k : Elem} → key e ≡ present k → IsClearInside e → IsClearInside k
key-IsClearInside p (inside hs s) = slot-IsClearInside p s

found_type : (o : Option Elem) {t : Elem} → or_raise Exception.key_error o ≡ ok t → o ≡ some t
found_type none h = cc
found_type (some x) h = cc

type-IsClear :
    {cddl : Cddl} (e : Elem) {t : Elem} → HasClearTypes cddl → resolve cddl e ≡ ok t → IsClear t
unfolding resolve
type-IsClear {cddl} e {t} types h =
    types.clear_type (reference e) t (found_type (find (reference e) cddl.types) h)

module _ {cddl : Cddl} {default_max_qty : ℕ} (types : HasClearTypes cddl) where
  mutual
    fits :
        {e : Elem} {obj : Obj}
        → IsClearInside e
        → Fits cddl default_max_qty AnyTags e obj
        → Fits cddl default_max_qty IsUntagged e obj
    fits i (leaf c l) = leaf c l
    fits i (refers c k r t) = refers c k r (fits (IsClear-IsClearInside (type-IsClear _ types r)) t)
    fits i (sequence c k x xs) = sequence c k x (each (children-AreClear i) xs)
    fits i (mapping c k x xs) = mapping c k x (each (children-AreClear i) xs)
    fits i (choice c k a t) =
        choice c k a (fits (IsClear-IsClearInside (Among-IsClear (children-AreClear i) a)) t)

    once :
        {e : Elem} {xs : List Obj}
        → IsClear e
        → Once cddl default_max_qty AnyTags e xs
        → Once cddl default_max_qty IsUntagged e xs
    once h (keyed p k v) =
        keyed p (fits (key-IsClearInside p (IsClear-IsClearInside h)) k)
          (fits (IsClear-IsClearInside h) v)
    once h (single p t) = single p (fits (IsClear-IsClearInside h) t)
    once h (referred u p k r t) =
        referred (IsClear-IsUntagged h (ap is_indirect k) p) p k r
          (takes (type-IsClear _ types r) t)
    once h (grouped u p k xs) =
        grouped (IsClear-IsUntagged h (ap is_indirect k) p) p k
          (each (children-AreClear (IsClear-IsClearInside h)) xs)
    once h (chosen u p k a t) =
        chosen (IsClear-IsUntagged h (ap is_indirect k) p) p k a
          (takes (Among-IsClear (children-AreClear (IsClear-IsClearInside h)) a) t)

    takes :
        {e : Elem} {xs : List Obj}
        → IsClear e
        → Takes cddl default_max_qty AnyTags e xs
        → Takes cddl default_max_qty IsUntagged e xs
    takes h (exactly p o) = exactly p (once h o)
    takes h (between p l u t) = between p l u (times h t)

    times :
        {e : Elem} {n : ℕ} {xs : List Obj}
        → IsClear e
        → Times cddl default_max_qty AnyTags e n xs
        → Times cddl default_max_qty IsUntagged e n xs
    times h no_times = no_times
    times h (one_time o t p q) = one_time (once h o) (times h t) p q

    each :
        {cs : Elems} {xs : List Obj}
        → AreClear cs
        → Each cddl default_max_qty AnyTags cs xs
        → Each cddl default_max_qty IsUntagged cs xs
    each hs no_members = no_members
    each (one_clear h hs) (one_member t xs p) = one_member (takes h t) (each hs xs) p

  -- What a clear element takes with its tags looked past is what it stands for.
  pub Takes-IsUntagged :
      {e : Elem} {xs : List Obj}
      → IsClear e
      → Takes cddl default_max_qty AnyTags e xs
      → Takes cddl default_max_qty IsUntagged e xs
  Takes-IsUntagged h t = takes h t
