-- ===== src/Flatten/Spliced.antt =====
-- zcbor/zcbor.py, class CddlParser: the end of `flatten`, after the children, and the counts of list
-- items.
use zcbor.Prelude.{
  ℕ, ◌≡◌, refl, ◌∙◌, ◌↔◌, inl, inr, String, Bool, true, false, ◌&&◌, Bool-cases, Option, none, some,
  Option-cases, List, [], ◌∷◌, ◌++◌, All, ap, if◌then◌else◌, arith,
}
use zcbor.Outcome.{first_returns, ok, ◌>>=◌}
use zcbor.Elem.{Kind, Elem, elem, Elems, no_elems, elems, Cddl, attrs, kind, children}
use zcbor.Counts.Spec.{Once, item, of_group, of_union, of_type, Has, Each, no_members, one_member}
use zcbor.PostValidate.{is_splice, is_parent, is_group_kind}
use zcbor.Flatten.{elems_of, list_of, absorb, is_once, only, is_open, splice}
use zcbor.Flatten.Spec.{IsQuantified}
use zcbor.Flatten.Lists.{elems_of-list_of, SameCounts, Has-once}
use zcbor.Flatten.Absorbed.{absorb-Absorbed, trans_iff}

abbrev pub AllQuantified : List Elem → Type 0
AllQuantified es = All (λ e. IsQuantified (attrs e)) es

pub AllQuantified-append :
    (xs ys : List Elem) → AllQuantified xs → AllQuantified ys → AllQuantified (xs ++ ys)
AllQuantified-append [] ys p q = q
AllQuantified-append (x ∷ xs) ys (p, ps) q = (p, AllQuantified-append xs ys ps q)

pub list_of-elems_of : (es : List Elem) → list_of (elems_of es) ≡ es
list_of-elems_of [] = refl
list_of-elems_of (e ∷ es) = ap (λ r. e ∷ r) (list_of-elems_of es)

only_child : (cs : Elems) (c : Elem) → only cs ≡ some c → cs ≡ elems c no_elems
only_child (elems c no_elems) d h = cc
only_child no_elems d h = cc
only_child (elems c (elems c' cs)) d h = cc

module _ (cddl : Cddl) (known : String → Bool) where
  -- What `flatten` says of its results: the counts in a row are those of the element, and without
  -- `allow_multi` there is one.
  pub record Flat (allow_multi : Bool) (e : Elem) (es : List Elem) : Type 0 where
    pub quantified : AllQuantified es
    pub counted : (n : ℕ) → Has cddl e n ↔ Each cddl (elems_of es) n
    pub single : allow_multi ≡ false → (x : Elem) × (es ≡ x ∷ [])

  pub alone : (x : Elem) (n : ℕ) → Has cddl x n ↔ Each cddl (elems x no_elems) n
  alone x n = (λ h. one_member h (no_members refl) (omega arith), λ h. back h)
    where
      back : Each cddl (elems x no_elems) n → Has cddl x n
      back (one_member {n = i} h (no_members r) s) = let t : n ≡ i = omega arith in rw t h

  one-Flat :
      (am : Bool) (e x : Elem) → IsQuantified (attrs x) → SameCounts cddl e x → Flat am e (x ∷ [])
  one-Flat am e x q same = record {
    quantified = (q, tt);
    counted = λ n. trans_iff cddl (same n) (alone x n);
    single = λ p. (x, refl);
  }

  once_qty : (e : Elem) → is_once e ≡ true → ((attrs e).min_qty ≡ 1) × ((attrs e).max_qty ≡ some 1)
  once_qty e h = (ground arith, go (attrs e).max_qty refl)
    where
      go : (m : Option ℕ) → (attrs e).max_qty ≡ m → (attrs e).max_qty ≡ some 1
      go none p = absurd (ground arith)
      go (some m) p = let q : m ≡ 1 = ground arith in p ∙ ap some q

  group_once :
      (e : Elem)
      → is_group_kind (kind e) ≡ true
      → (n : ℕ) → Once cddl e n ↔ Each cddl (children e) n
  group_once e g n = (λ o. forth o, λ h. back (kind e) refl h)
    where
      forth : Once cddl e n → Each cddl (children e) n
      forth (item r s) = absurd (ground arith)
      forth (of_group r h) = h
      forth (of_union r a h) = absurd (ground arith)
      forth (of_type r found h) = absurd (ground arith)

      back : (k : Kind) → kind e ≡ k → Each cddl (children e) n → Once cddl e n
      back Kind.group r h = of_group r h
      back k r h = absurd (ground arith)

  -- A group that occurs once is its members in a row.
  group-Flat :
      (am : Bool) (e : Elem)
      → AllQuantified (list_of (children e))
      → (am && is_group_kind (kind e) && is_once e) ≡ true
      → Flat am e (list_of (children e))
  group-Flat am e qs g =
      let (low, high) = once_qty e (ground arith) in
      record {
        quantified = qs;
        counted = λ n.
            trans_iff cddl (Has-once cddl e low high n)
              (rw elems_of-list_of (group_once e (ground arith) n));
        single = λ p. absurd (ground arith);
      }

  -- The only child of a group or a choice.
  absorb-Flat :
      (am : Bool) (e c r : Elem)
      → IsQuantified (attrs e)
      → is_splice (kind e) ≡ true
      → AllQuantified (list_of (children e))
      → children e ≡ elems c no_elems
      → absorb e c ≡ ok r
      → Flat am e (r ∷ [])
  absorb-Flat am (elem g gv gk gc gd) (elem a v k c d) r q s qs p h =
      let done = absorb-Absorbed cddl g a gv v gk gc gd k c d r q (rw p at qs).0 s p h in
      one-Flat am (elem g gv gk gc gd) r done.quantified done.same

  splice_parent : (k : Kind) → is_splice k ≡ true → is_parent k ≡ true
  splice_parent Kind.group h = refl
  splice_parent Kind.union h = refl
  splice_parent k h = cc

  lone_child :
      (e c : Elem)
      → (if is_splice (kind e) then only (children e) else none) ≡ some c
      → (is_splice (kind e) ≡ true) × (children e ≡ elems c no_elems)
  lone_child e c h = elim (Bool-cases (is_splice (kind e))) [
    | inl p ↦ (p, only_child (children e) c (rw p at h))
    | inr p ↦ absurd (no_child (rw p at h))
  ]
    where
      no_child : ◌≡◌ {A = Option Elem} none (some c) → ⊥
      no_child h = cc

  pub splice-Flat :
      (am : Bool) (e : Elem) (es : List Elem)
      → IsQuantified (attrs e)
      → is_open known e ≡ false
      → (is_parent (kind e) ≡ true → AllQuantified (list_of (children e)))
      → splice known am e ≡ ok es
      → Flat am e es
  unfolding splice
  splice-Flat am e es q o qs h =
      elim (Option-cases (if is_splice (kind e) then only (children e) else none)) [
        | inr (c, p) ↦ child c p (rw (o, p, splice) at h)
        | inl p ↦ elim (Bool-cases (am && is_group_kind (kind e) && is_once e)) [
          | inl g ↦
              let r : es ≡ list_of (children e) = members_ok (rw (o, p, g, splice) at h) in
              rw r (group-Flat am e (qs (parent (kind e) (ground arith))) g)
          | inr g ↦
              let r : es ≡ e ∷ [] = self_ok (rw (o, p, g, splice) at h) in
              rw r (one-Flat am e e q (λ n. (λ x. x, λ x. x)))
        ]
      ]
    where
      members_ok : ok (list_of (children e)) ≡ ok es → es ≡ list_of (children e)
      members_ok r = cc

      self_ok : ok (e ∷ []) ≡ ok es → es ≡ e ∷ []
      self_ok r = cc

      parent : (k : Kind) → is_group_kind k ≡ true → is_parent k ≡ true
      parent Kind.group r = refl
      parent k r = cc

      child :
          (c : Elem)
          → (if is_splice (kind e) then only (children e) else none) ≡ some c
          → (absorb e c >>= λ c'. ok (c' ∷ [])) ≡ ok es
          → Flat am e es
      child c p r =
          let (sp, only_c) = lone_child e c p in
          let (c', done, put) = first_returns (absorb e c) _ r in
          let t : es ≡ c' ∷ [] = cc in
          rw t (absorb-Flat am e c c' q sp (qs (splice_parent (kind e) sp)) only_c done)
