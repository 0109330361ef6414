-- ===== src/Translator/Sound/Members.antt =====
-- zcbor/zcbor.py, class DataTranslator: the loops over the members of an element end, and take what
-- the members stand for by `AnyTags`.
use zcbor.Prelude.{
  ℕ, ◌<◌, refl, String, Bool, false, Option, none, List, [], ◌++◌, append_assoc, arith,
}
use zcbor.Outcome.{Ensures, Ends}
use zcbor.Elem.{Elem, Elems, no_elems, elems, Cddl}
use zcbor.Data.{Obj}
use zcbor.Rank.{height, height_elems, head-le, tail-le}
use zcbor.Translator.Pull.{Pull}
use zcbor.Translator.Pull.Yields.{
  Yields, gives, throws, Yields-after, Yields-bind, Yields-lift, Yields-catch, Yields-weaken,
  Consumes,
}
use zcbor.Translator.Build.{Runtime, Entry, construct_obj-Ends}
use zcbor.Translator.AddIf.{Calls}
use zcbor.Translator.Members.{decode_members, decode_union, try_result}
use zcbor.Translator.Spec.{AnyTags, Among, here, there, Fits, Takes, Each, no_members, one_member}

-- What is asked of the recursive calls, one level down.
pub record IsSound (cddl : Cddl) (default_max_qty : ℕ) (rank : String → ℕ) (bound : ℕ)
    (self : Calls) : Type 0 where
  pub single :
      (e : Elem) (obj : Obj) (d : Bool)
      → height rank e < bound
      → Ensures (λ _. Fits cddl default_max_qty AnyTags e obj) (self.single e obj d)
  pub full :
      (e : Elem) (it : List Obj) (d : Bool)
      → height rank e < bound
      → Yields (λ r. Consumes (Takes cddl default_max_qty AnyTags e) it r.1) (self.full e it d)
  pub add_if :
      (e : Elem) (obj : Obj) (d x : Bool) (n : Option String)
      → height rank e < bound
      → Ends (self.add_if e obj d x n).outcome

module _ (cddl : Cddl) (default_max_qty : ℕ) (rank : String → ℕ) (bound : ℕ) (self : Calls)
    (sound : IsSound cddl default_max_qty rank bound self) (d : Bool) where
  -- The members take runs of the iterator, one after the other.
  pub decode_members-Yields :
      (expect : Elem → Bool) (cs : Elems) (it : List Obj) (acc : List Entry)
      → height_elems rank cs < bound
      → Yields
          (λ r. Consumes (Each cddl default_max_qty AnyTags cs) it r.1)
          (decode_members self expect d cs it acc)
  unfolding decode_members
  decode_members-Yields expect no_elems it acc h = gives ([], refl, no_members) _
  decode_members-Yields expect (elems c cs) it acc h =
      Yields-bind (sound.full c it d (omega (arith, head-le rank c cs))) λ (o, it') (xs, p, t).
        Yields-bind
          (Yields-lift (sound.add_if c o d (expect c) none (omega (arith, head-le rank c cs))))
          λ _ _.
            Yields-weaken (decode_members-Yields expect cs it' _ (omega (arith, tail-le rank c cs)))
              λ r (ys, q, each). (xs ++ ys, simp (p, q, append_assoc), one_member t each refl)

  module _ (rt : Runtime) (Q : Elem → List Obj → Type 0) (run : Elem → Pull (Obj × List Obj)) where
    try_result-Yields :
        (c : Elem) (acc : List Entry) {m : Pull (Obj × List Obj)}
        → height rank c < bound
        → Yields (λ r. Q c r.1) m
        → Yields (λ r. Q c r.1) (try_result rt self d run c acc m).1
    unfolding try_result
    try_result-Yields c acc h (gives {a = (o, it)} q m) = Yields-after m (
        Yields-bind (Yields-lift (sound.add_if c o d false none h))
          λ _ _. Yields-bind (Yields-lift (construct_obj-Ends rt _ d)) λ _ _. gives q _)
    try_result-Yields c acc h (throws e m) = throws e m

    -- Some member yields what the union yields.
    pub decode_union-Yields :
        (cs : Elems) (acc : List Entry)
        → height_elems rank cs < bound
        → ((c : Elem) → height rank c < bound → Yields (λ r. Q c r.1) (run c))
        → Yields (λ r. (c : Elem) × Among c cs × Q c r.1) (decode_union rt self d run cs acc)
    unfolding decode_union
    decode_union-Yields no_elems acc h runs = throws _ _
    decode_union-Yields (elems c cs) acc h runs =
        let small : height rank c < bound = omega (arith, head-le rank c cs) in
        Yields-catch _
          (Yields-weaken (try_result-Yields c acc small (runs c small)) λ r q. (c, here, q))
          (Yields-weaken (decode_union-Yields cs _ (omega (arith, tail-le rank c cs)) runs)
            λ r (c', among, q). (c', there among, q))
