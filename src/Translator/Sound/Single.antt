-- ===== src/Translator/Sound/Single.antt =====
-- zcbor/zcbor.py, class DataTranslator: what `_decode_single_obj` accepts fits the element by `AnyTags`.
use mathlib.Core.Path.{subst}
use zcbor.Prelude.{
  ℕ, suc, ap, append-nil, ◌<◌, ◌≡◌, refl, String, Bool, true, false, List, [], ◌∷◌, arith,
}
use zcbor.Outcome.{Ensures, Ends, returns, raises, Ensures-bind, Ensures-weaken, Ensures-self}
use zcbor.Elem.{Kind, Elem, Cddl, kind, children}
use zcbor.Data.{Obj, key_tuple}
use zcbor.Unambiguous.Enough.{is_unambiguous-Ends}
use zcbor.Rank.{IsRanked, height, children-lt, resolve-Ensures}
use zcbor.Translator.Pull.{Pull, lift, iter_is_empty}
use zcbor.Translator.Pull
use zcbor.Translator.Pull.Yields.{Yields-bind, Yields-lift, gives, Ensures-settled}
use zcbor.Translator.Build.{Runtime, construct_obj-Ends}
use zcbor.Translator.AddIf.{Calls}
use zcbor.Translator.Single.{
  iter_list, iter_items, decode_container, decode_choice, decode_kind, decode_single_obj,
  handle_key,
}
use zcbor.Translator.Spec.{
  AnyTags, Among, IsChecked, Fits, Each, leaf, refers, sequence, mapping, choice, is_leaf,
}
use zcbor.Translator.Sound.Members.{IsSound, decode_members-Yields, decode_union-Yields}
use zcbor.Translator.Sound.Checks.{
  check_key-Ends, check_tag-Ends, check_type-Ends, check_value-Ends,
}

iter_is_empty-Ensures : (it : List Obj) → Ensures (λ _. it ≡ []) (iter_is_empty it)
unfolding iter_is_empty
iter_is_empty-Ensures [] = returns refl
iter_is_empty-Ensures (x ∷ it) = raises _

iter_list-Ends : (obj : Obj) → Ends (iter_list obj)
unfolding iter_list
iter_list-Ends (Obj.list xs) = returns tt
iter_list-Ends (Obj.tuple xs) = returns tt
iter_list-Ends _ = raises _

iter_items-Ends : (obj : Obj) → Ends (iter_items obj)
unfolding iter_items
iter_items-Ends (Obj.dict m) = returns tt
iter_items-Ends _ = raises _

module _ (rt : Runtime) (cddl : Cddl) (default_max_qty : ℕ) (rank : String → ℕ)
    (ranked : IsRanked rank cddl) (f : ℕ) (self : Calls)
    (sound : IsSound cddl default_max_qty rank f self) where
  -- Every object of the iterator is taken by a member.
  decode_container-Ensures :
      (x : Bool) (e : Elem) (it : List Obj) (d : Bool)
      → height rank e < suc f
      → Ensures
          (λ _. Each cddl default_max_qty AnyTags (children e) it)
          (decode_container rt cddl (suc f) self x e it d)
  unfolding decode_container
  decode_container-Ensures x e it d h =
      Ensures-bind
        (Ensures-settled (
          decode_members-Yields cddl default_max_qty rank f self sound d (λ _. x) (children e) it []
            (omega (arith, children-lt rank e))))
        λ r (xs, p, each). Ensures-bind (iter_is_empty-Ensures r.1) λ _ q.
          Ensures-weaken (construct_obj-Ends rt r.0 d) λ _ _.
            subst (Each cddl default_max_qty AnyTags (children e)) (simp (p, q, append-nil)) each

  decode_choice-Ensures :
      (e : Elem) (obj : Obj) (d : Bool)
      → height rank e < suc f
      → Ensures
          (λ _. (c : Elem) × Among c (children e) × Fits cddl default_max_qty AnyTags c obj)
          (decode_choice rt cddl (suc f) self e obj d)
  unfolding decode_choice
  decode_choice-Ensures e obj d h =
      Ensures-bind
        (Ensures-settled (
          decode_union-Yields cddl default_max_qty rank f self sound d rt
            (λ c _. Fits cddl default_max_qty AnyTags c obj)
            (λ c. Pull.◌>>=◌ (lift (self.single c obj d)) (λ o. Pull.pure (o, []))) (children e) []
            (omega (arith, children-lt rank e))
            λ c small.
              Yields-bind (Yields-lift (sound.single c obj d small)) λ o fits. gives fits _))
        λ r fits. returns fits

  module _ (e : Elem) (obj inner : Obj) (checked : IsChecked cddl e obj inner) (d : Bool)
      (h : height rank e < suc f) where
    decode_kind-Ensures :
        (k : Kind)
        → kind e ≡ k
        → Ensures
            (λ _. Fits cddl default_max_qty AnyTags e obj)
            (decode_kind rt cddl (suc f) self k e inner d)
    unfolding decode_kind
    decode_kind-Ensures Kind.other p = Ensures-bind (resolve-Ensures rank ranked e) λ t (q, lt).
        Ensures-weaken (sound.single t inner d (omega arith)) λ o fits. refers checked p q fits
    decode_kind-Ensures Kind.list p = Ensures-bind (Ensures-self (iter_list-Ends inner)) λ it q.
        Ensures-weaken (decode_container-Ensures false e it d h) λ o each. sequence checked p q each
    decode_kind-Ensures Kind.map p = Ensures-bind (Ensures-self (iter_items-Ends inner)) λ it q.
        Ensures-weaken (decode_container-Ensures true e it d h) λ o each. mapping checked p q each
    decode_kind-Ensures Kind.union p =
        Ensures-weaken (decode_choice-Ensures e inner d h)
          λ o (c, among, fits). choice checked p among fits
    decode_kind-Ensures Kind.group p = raises _
    decode_kind-Ensures Kind.untyped p = raises _
    decode_kind-Ensures _ p = returns (leaf checked (ap is_leaf p))

  -- What `_decode_single_obj` accepts fits the element by `AnyTags`, and it ends.
  pub decode_single_obj-Ensures :
      (e : Elem) (obj : Obj) (d : Bool)
      → height rank e < suc f
      → Ensures
          (λ _. Fits cddl default_max_qty AnyTags e obj)
          (decode_single_obj rt cddl (suc f) self e obj d)
  unfolding decode_single_obj
  decode_single_obj-Ensures e obj d h = Ensures-bind (Ensures-self (check_key-Ends obj)) λ _ plain.
      Ensures-bind (Ensures-self (check_tag-Ends e obj)) λ inner tagged.
        Ensures-bind (Ensures-self (check_type-Ends e inner)) λ _ typed.
          Ensures-bind (Ensures-self (check_value-Ends cddl e inner)) λ _ valued.
            decode_kind-Ensures e obj inner
              (record { plain = plain; tagged = tagged; typed = typed; valued = valued }) d h
              (kind e) refl

  -- A key and its value fit the element and its key, and `_handle_key` ends.
  pub handle_key-Ensures :
      (k e : Elem) (obj : Obj) (d : Bool)
      → height rank k < f
      → height rank e < suc f
      → Ensures
          (λ _.
            (x : Obj) × (v : Obj) × (obj ≡ key_tuple x v)
            × Fits cddl default_max_qty AnyTags k x
            × Fits cddl default_max_qty AnyTags e v)
          (handle_key rt cddl (suc f) self k e obj d)
  unfolding handle_key
  handle_key-Ensures k e (key_tuple x v) d hk h = Ensures-bind (sound.single k x d hk) λ _ fits_key.
      Ensures-bind (decode_single_obj-Ensures e v d h) λ _ fits.
        Ensures-bind (is_unambiguous-Ends rank ranked (suc f) k (omega arith))
          λ known _. returns (x, v, refl, fits_key, fits)
  handle_key-Ensures k e _ d hk h = raises _
