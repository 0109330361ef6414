-- ===== src/Translator/Sound/Decode.antt =====
-- zcbor/zcbor.py, class DataTranslator: what `_decode_full` takes from its iterator is what the element
-- stands for with its quantifier if its tags are passed over as in the code (`AnyTags`), and it ends:
-- the fuel that an element needs is above its height.
use mathlib.Core.Path.{subst}
use native.Mathlib.Decide.{dec_le}
use native.Mathlib.Nat.{zero-add}
use zcbor.Prelude.{
  ℕ, zero, suc, ◌+◌, ◌-◌, ◌≤◌, ◌<◌, ◌≡◌, refl, sym, ap, ◌⊎◌, inl, inr, String, Bool, true, List, [],
  ◌∷◌, ◌++◌, append_assoc, arith,
}
use zcbor.Elem.{Kind, Elem, Slot, absent, present, Cddl, attrs, key, kind, children, is_present}
use zcbor.Data.{Obj, tag, key_tuple}
use zcbor.Unambiguous.Enough.{is_unambiguous_repeated-Ends}
use zcbor.Quantity.{multi_var_condition}
use zcbor.Rank.{IsRanked, height, height_slot, children-lt, key-lt, slot-eq, resolve-Ensures}
use zcbor.Translator.Pull.{Pull, iter_next}
use zcbor.Translator.Pull.Yields.{
  Yields, gives, throws, Yields-after, Yields-bind, Yields-lift, Yields-weaken, Yields-if,
  Yields-attempt, Consumes,
}
use zcbor.Translator.Build.{Runtime, construct_obj-Ends}
use zcbor.Translator.AddIf.{Calls}
use zcbor.Translator.Decode.{
  decode_times, decode_upto, decode_next, decode_as, decode_tagged, decode_keyed, decode_round,
  upper_qty, decode_repeated, decode_full, calls,
}
use zcbor.Translator.Spec.{
  AnyTags, Once, keyed, single, referred, grouped, chosen, Takes, exactly, between, Times, no_times,
  one_time,
}
use zcbor.Translator.Sound.Members.{IsSound, decode_members-Yields, decode_union-Yields}
use zcbor.Translator.Sound.AddIf.{add_if-Finishes}
use zcbor.Translator.Sound.Single.{decode_single_obj-Ensures, handle_key-Ensures}

iter_next-Yields : (it : List Obj) → Yields (λ r. it ≡ r.0 ∷ r.1) (iter_next it)
unfolding iter_next
iter_next-Yields [] = throws _ _
iter_next-Yields (x ∷ it) = gives refl _

-- A count above the minimum is at most the maximum.
within : (n k u : ℕ) → k ≤ u - n → (n + k ≤ u) ⊎ (n + k ≡ n)
within n k u h = elim (dec_le n u) [ yes p ↦ inl (omega arith) | no p ↦ inr (omega arith) ]

module _ (cddl : Cddl) (default_max_qty : ℕ) (e : Elem) where
  Times-append :
      {n k : ℕ} {xs ys : List Obj}
      → Times cddl default_max_qty AnyTags e n xs
      → Times cddl default_max_qty AnyTags e k ys
      → Times cddl default_max_qty AnyTags e (n + k) (xs ++ ys)
  Times-append {k} {ys} no_times u =
      subst (λ n. Times cddl default_max_qty AnyTags e n ys) (sym (zero-add k)) u
  Times-append (one_time o t p q) u =
      one_time o (Times-append t u) (omega arith) (simp (q, append_assoc))

  module _ (step : List Obj → Pull (Obj × List Obj))
      (steps : (it : List Obj)
        → Yields (λ r. Consumes (Once cddl default_max_qty AnyTags e) it r.1) (step it)) where
    decode_times-Yields :
        (n : ℕ) (it : List Obj)
        → Yields
            (λ r. Consumes (Times cddl default_max_qty AnyTags e n) it r.1)
            (decode_times step n it)
    unfolding decode_times
    decode_times-Yields zero it = gives ([], refl, no_times) _
    decode_times-Yields (suc n) it = Yields-bind (steps it) λ (v, it') (xs, p, once).
        Yields-bind (decode_times-Yields n it') λ (vs, rest) (ys, q, times).
          gives (xs ++ ys, simp (p, q, append_assoc), one_time once times refl refl) _

    decode_upto-Yields :
        (n : ℕ) (it : List Obj)
        → Yields
            (λ r.
              Consumes (λ xs. (k : ℕ) × (k ≤ n) × Times cddl default_max_qty AnyTags e k xs) it r.1)
            (decode_upto step n it)
    unfolding decode_upto
    decode_upto-Yields zero it = gives ([], refl, (0, omega arith, no_times)) _
    decode_upto-Yields (suc n) it =
        Yields-attempt _ (steps it)
          (λ (v, it') (xs, p, once).
            Yields-bind (decode_upto-Yields n it') λ (vs, rest) (ys, q, (k, le, times)).
              gives
                (
                  xs ++ ys,
                  simp (p, q, append_assoc),
                  (suc k, omega arith, one_time once times refl refl),
                )
                _)
          (gives ([], refl, (0, omega arith, no_times)) _)

module _ (rt : Runtime) (cddl : Cddl) (default_max_qty : ℕ) (rank : String → ℕ)
    (ranked : IsRanked rank cddl) (f : ℕ) (self : Calls)
    (sound : IsSound cddl default_max_qty rank f self) (e : Elem) (h : height rank e < suc f)
    (d : Bool) where
  decode_next-Yields :
      (it : List Obj)
      → key e ≡ absent
      → Yields
          (λ r. Consumes (Once cddl default_max_qty AnyTags e) it r.1)
          (decode_next rt cddl default_max_qty (suc f) self e it d)
  unfolding decode_next
  decode_next-Yields it p = Yields-bind (iter_next-Yields it) λ (x, rest) q.
      Yields-bind
        (Yields-lift
          (decode_single_obj-Ensures rt cddl default_max_qty rank ranked f self sound e x d h))
        λ o fits. gives (x ∷ [], q, single p fits) _

  decode_as-Yields :
      (k : Kind) (it : List Obj)
      → kind e ≡ k
      → key e ≡ absent
      → Yields
          (λ r. Consumes (Once cddl default_max_qty AnyTags e) it r.1)
          (decode_as rt cddl default_max_qty (suc f) self k e it d)
  unfolding decode_as
  decode_as-Yields Kind.other it p q =
      Yields-bind (Yields-lift (resolve-Ensures rank ranked e)) λ t (res, lt).
        Yields-weaken (sound.full t it d (omega arith))
          λ r (xs, split, takes). (xs, split, referred tt q p res takes)
  decode_as-Yields Kind.group it p q =
      Yields-bind
        (decode_members-Yields cddl default_max_qty rank f self sound d (λ c. is_present (key c))
          (children e) it [] (omega (arith, children-lt rank e)))
        λ r (xs, split, each).
          Yields-bind (Yields-lift (construct_obj-Ends rt r.0 d))
            λ o _. gives (xs, split, grouped tt q p each) _
  decode_as-Yields Kind.union it p q =
      Yields-weaken
        (decode_union-Yields cddl default_max_qty rank f self sound d rt
          (λ c rest. Consumes (Takes cddl default_max_qty AnyTags c) it rest)
          (λ c. self.full c it d) (children e) [] (omega (arith, children-lt rank e))
          λ c small. sound.full c it d small)
        λ r (c, among, (xs, split, takes)). (xs, split, chosen tt q p among takes)
  decode_as-Yields _ it p q = decode_next-Yields it q

  decode_tagged-Yields :
      (tags : List ℕ) (it : List Obj)
      → key e ≡ absent
      → Yields
          (λ r. Consumes (Once cddl default_max_qty AnyTags e) it r.1)
          (decode_tagged rt cddl default_max_qty (suc f) self tags e it d)
  unfolding decode_tagged
  decode_tagged-Yields [] it q = decode_as-Yields (kind e) it refl q
  decode_tagged-Yields (t ∷ tags) [] q = throws _ _
  decode_tagged-Yields (t ∷ tags) (tag n x ∷ rest) q = Yields-after true (
      Yields-bind
        (Yields-lift (
          decode_single_obj-Ensures rt cddl default_max_qty rank ranked f self sound e (tag n x) d
            h))
        λ o fits. gives (tag n x ∷ [], refl, single q fits) _)
  decode_tagged-Yields (t ∷ tags) (x ∷ rest) q =
      Yields-after true (decode_as-Yields (kind e) (x ∷ rest) refl q)

  decode_keyed-Yields :
      (k : Slot) (it : List Obj)
      → key e ≡ k
      → Yields
          (λ r. Consumes (Once cddl default_max_qty AnyTags e) it r.1)
          (decode_keyed rt cddl default_max_qty (suc f) self k e it d)
  unfolding decode_keyed
  decode_keyed-Yields absent it q = decode_tagged-Yields (attrs e).tags it q
  decode_keyed-Yields (present k) it q = Yields-bind (iter_next-Yields it) λ (x, rest) p.
      Yields-bind
        (Yields-lift (
          handle_key-Ensures rt cddl default_max_qty rank ranked f self sound k e x d (small_key q)
            h))
        λ o (kx, v, split, fits_key, fits).
          gives (key_tuple kx v ∷ [], simp (p, split), keyed q fits_key fits) _
    where
      small_key : {k : Elem} → key e ≡ present k → height rank k < f
      small_key {k} q = omega (arith, key-lt rank e, slot-eq rank k, ap (height_slot rank) q)

  decode_round-Yields :
      (it : List Obj)
      → Yields
          (λ r. Consumes (Once cddl default_max_qty AnyTags e) it r.1)
          (decode_round rt cddl default_max_qty (suc f) self e d it)
  unfolding decode_round
  decode_round-Yields it = Yields-bind (decode_keyed-Yields (key e) it refl) λ (v, rest) taken.
      Yields-bind (Yields-lift (is_unambiguous_repeated-Ends rank ranked (suc f) e h))
        λ known _. gives taken _

  decode_repeated-Yields :
      (it : List Obj)
      → multi_var_condition e ≡ true
      → Yields
          (λ r. Consumes (Takes cddl default_max_qty AnyTags e) it r.1)
          (decode_repeated rt cddl default_max_qty (suc f) self e it d)
  unfolding decode_repeated
  decode_repeated-Yields it p =
      let round = decode_round rt cddl default_max_qty (suc f) self e d in
      Yields-bind
        (decode_times-Yields cddl default_max_qty e round decode_round-Yields (attrs e).min_qty it)
        λ (vs, it') (xs, s, times).
          Yields-bind
            (decode_upto-Yields cddl default_max_qty e round decode_round-Yields
              (upper_qty default_max_qty e - (attrs e).min_qty) it')
            λ (ws, rest) (ys, s', (k, le, more)).
              gives
                (
                  xs ++ ys,
                  simp (s, s', append_assoc),
                  between p (omega arith)
                      (within (attrs e).min_qty k (upper_qty default_max_qty e) le)
                      (Times-append cddl default_max_qty e times more),
                )
                _

  -- What `_decode_full` takes is a run of objects that the element stands for by `AnyTags`, and it ends.
  pub decode_full-Yields :
      (it : List Obj)
      → Yields
          (λ r. Consumes (Takes cddl default_max_qty AnyTags e) it r.1)
          (decode_full rt cddl default_max_qty (suc f) self e it d)
  unfolding decode_full
  decode_full-Yields it = Yields-if (multi_var_condition e) (decode_repeated-Yields it) λ p.
      Yields-weaken (decode_keyed-Yields (key e) it refl) λ r (xs, s, once). (xs, s, exactly p once)

-- With fuel above its height an element is decoded soundly: the calls end, and what they accept is what
-- the element stands for by `AnyTags`.
pub calls-IsSound :
    (rt : Runtime) (cddl : Cddl) (default_max_qty : ℕ) (rank : String → ℕ)
    → IsRanked rank cddl
    → (f : ℕ) → IsSound cddl default_max_qty rank f (calls rt cddl default_max_qty f)
unfolding calls
calls-IsSound rt cddl default_max_qty rank ranked zero = record {
  single = λ e obj d h. absurd (omega arith);
  full = λ e it d h. absurd (omega arith);
  add_if = λ e obj d x n h. absurd (omega arith);
}
calls-IsSound rt cddl default_max_qty rank ranked (suc f) =
    let self = calls rt cddl default_max_qty f in
    let sound = calls-IsSound rt cddl default_max_qty rank ranked f in
    record {
      single = λ e obj d h.
          decode_single_obj-Ensures rt cddl default_max_qty rank ranked f self sound e obj d h;
      full =
          λ e it d h. decode_full-Yields rt cddl default_max_qty rank ranked f self sound e h d it;
      add_if = λ e obj d x n h.
          (add_if-Finishes rt cddl default_max_qty rank ranked f self sound e obj d x n h).ends;
    }
