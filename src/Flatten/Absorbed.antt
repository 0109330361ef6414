-- ===== src/Flatten/Absorbed.antt =====
-- zcbor/zcbor.py, class CddlParser: the only member of a group or choice, which `flatten` puts in its
-- place, has the counts of list items that the group or choice has.
use zcbor.Prelude.{
  ℕ, ◌*◌, ◌≡◌, refl, sym, ◌∙◌, ◌↔◌, inl, inr, true, false, Bool-cases, Option, none, some, [], ◌∷◌,
  ◌++◌, arith,
}
use zcbor.Outcome.{first_returns, ok}
use zcbor.Elem.{
  Kind, Attrs, Elem, elem, Value, no_elems, elems, Slot, Cddl, attrs, kind, children, resolve,
}
use zcbor.Translator.Spec.{Among, here, there}
use zcbor.Counts.{mult_or_none}
use zcbor.Counts.Spec.{Once, item, of_group, of_union, of_type, Has, Each, no_members, one_member}
use zcbor.PostValidate.{is_splice}
use zcbor.Flatten.{merge_modifiers, absorb, label_of, key_of}
use zcbor.Flatten.Spec.{IsQuantified}
use zcbor.Flatten.Lists.{SameCounts, SameOnce, Has-same, Once-same, Has-once}
use zcbor.Flatten.Merged.{has_quantifier, Merged, all-Merged}

-- The product of two quantities of which one is 1.
mult_one : (m : Option ℕ) (r : Option ℕ) → mult_or_none (m ∷ some 1 ∷ []) ≡ ok r → r ≡ m
unfolding mult_or_none
mult_one none r h = cc
mult_one (some m) r h = ground arith

one_mult : (m : Option ℕ) (r : Option ℕ) → mult_or_none (some 1 ∷ m ∷ []) ≡ ok r → r ≡ m
unfolding mult_or_none
one_mult none r h = cc
one_mult (some m) r h = ground arith

module _ (cddl : Cddl) where
  -- An element is what its kind, its value and its quantities are.
  pub same_elem :
      (a b : Attrs) (v w : Value) (k c d k' c' d' : Slot)
      → a.kind ≡ b.kind
      → v ≡ w
      → SameOnce cddl (elem a v k c d) (elem b w k' c' d')
  unfolding resolve
  same_elem a b v w k c d k' c' d' p q =
      Once-same cddl (elem a v k c d) (elem b w k' c' d') p (rw q refl)
        (λ _ n. rw q (λ h. h, λ h. h)) (λ _ n. rw q (λ h. h, λ h. h))

  -- What is left in place of a group or choice of one member, and its quantifier.
  pub record Absorbed (e c c' : Elem) : Type 0 where
    pub quantified : IsQuantified (attrs c')
    pub same : SameCounts cddl e c'

  Once-only :
      (e c : Elem)
      → is_splice (kind e) ≡ true
      → children e ≡ elems c no_elems
      → (n : ℕ) → Once cddl e n ↔ Has cddl c n
  Once-only e c p q n = (λ o. forth o, λ h. back (kind e) refl h)
    where
      alone : Each cddl (elems c no_elems) n → Has cddl c n
      alone (one_member {n = i} h (no_members r) s) = let t : n ≡ i = omega arith in rw t h

      among : {c' : Elem} → Among c' (elems c no_elems) → Has cddl c' n → Has cddl c n
      among here h = h
      among (there a) h = elim a [ ]

      forth : Once cddl e n → Has cddl c n
      forth (item r s) = absurd (ground arith)
      forth (of_group r h) = alone (rw q at h)
      forth (of_union r a h) = among (rw q at a) h
      forth (of_type r found h) = absurd (ground arith)

      back : (k : Kind) → kind e ≡ k → Has cddl c n → Once cddl e n
      back Kind.group r h = of_group r (rw q (one_member h (no_members refl) (omega arith)))
      back Kind.union r h = of_union r (rw q here) h
      back k r h = absurd (ground arith)

  pub trans_iff : {A B C : Type 0} → A ↔ B → B ↔ C → A ↔ C
  trans_iff p q = (λ x. q.0 (p.0 x), λ x. p.1 (q.1 x))

  module _ (g a b : Attrs) (gv v : Value) (gk gc gd k c d : Slot) (m : Option ℕ)
      (gq : IsQuantified g) (aq : IsQuantified a) (splices : is_splice g.kind ≡ true)
      (only_child : children (elem g gv gk gc gd) ≡ elems (elem a v k c d) no_elems)
      (times : mult_or_none (a.max_qty ∷ g.max_qty ∷ []) ≡ ok m)
      (merged : Merged g.modifiers
        (record a {
          min_qty = a.min_qty * g.min_qty;
          max_qty = m;
          label = label_of a.label g.label;
        })
        b) where
    abbrev group : Elem
    group = elem g gv gk gc gd

    abbrev child : Elem
    child = elem a v k c d

    abbrev result : Elem
    result = elem (record b { is_key = g.is_key; tags = b.tags ++ g.tags }) v (key_of k gk) c gd

    child_once : SameOnce cddl child result
    child_once = same_elem a (attrs result) v v k c d (key_of k gk) c gd (sym merged.same_kind) refl

    -- The group has no quantifier.
    Absorbed-child : has_quantifier g ≡ false → Absorbed group child result
    Absorbed-child free =
        let g_min = gq.once_min free in
        let g_max = gq.once_max free in
        let max : m ≡ a.max_qty = mult_one a.max_qty m (rw g_max at times) in
        record {
          quantified = record {
            once_min = λ p.
                let alone : has_quantifier a ≡ false = ground (arith, merged.kept) in
                merged.same_min ∙ rw (aq.once_min alone, g_min) refl;
            once_max = λ p.
                let alone : has_quantifier a ≡ false = ground (arith, merged.kept) in
                merged.same_max ∙ max ∙ aq.once_max alone;
          };
          same = λ n. trans_iff (Has-once cddl group g_min g_max n) (
              trans_iff (Once-only group child splices only_child n) (
                Has-same cddl child result (sym (merged.same_min ∙ rw g_min (omega arith)))
                  (sym (merged.same_max ∙ max)) child_once n));
        }

    -- The group has a quantifier, and so its member has none.
    Absorbed-group : has_quantifier g ≡ true → Absorbed group child result
    Absorbed-group held =
        let alone : has_quantifier a ≡ false = merged.apart held in
        let a_min = aq.once_min alone in
        let a_max = aq.once_max alone in
        let max : m ≡ g.max_qty = one_mult g.max_qty m (rw a_max at times) in
        record {
          quantified = record {
            once_min = λ p. absurd (ground (arith, merged.kept));
            once_max = λ p. absurd (ground (arith, merged.kept));
          };
          same =
              Has-same cddl group result (sym (merged.same_min ∙ rw a_min (omega arith)))
                (sym (merged.same_max ∙ max))
                (λ n.
                  trans_iff (Once-only group child splices only_child n)
                    (trans_iff (Has-once cddl child a_min a_max n) (child_once n)));
        }

    absorbed : Absorbed group child result
    absorbed = elim (Bool-cases (has_quantifier g)) [
      | inl held ↦ Absorbed-group held
      | inr free ↦ Absorbed-child free
    ]

  pub absorb-Absorbed :
      (g a : Attrs) (gv v : Value) (gk gc gd k c d : Slot) (r : Elem)
      → IsQuantified g
      → IsQuantified a
      → is_splice g.kind ≡ true
      → children (elem g gv gk gc gd) ≡ elems (elem a v k c d) no_elems
      → absorb (elem g gv gk gc gd) (elem a v k c d) ≡ ok r
      → Absorbed (elem g gv gk gc gd) (elem a v k c d) r
  unfolding absorb
  absorb-Absorbed g a gv v gk gc gd k c d r gq aq s only_child h =
      let (m, times, h1) = first_returns (mult_or_none (a.max_qty ∷ g.max_qty ∷ [])) _ h in
      let a1 : Attrs = record a {
        min_qty = a.min_qty * g.min_qty;
        max_qty = m;
        label = label_of a.label g.label;
      } in
      let (b, merged, h2) = first_returns (merge_modifiers g.modifiers a1) _ h1 in
      let e : r
          ≡ elem (record b { is_key = g.is_key; tags = b.tags ++ g.tags }) v (key_of k gk) c gd =
        cc in
      rw e (
        absorbed g a b gv v gk gc gd k c d m gq aq s only_child times
          (all-Merged g.modifiers a1 b merged))
