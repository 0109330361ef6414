-- ===== src/Flatten/Counted.antt =====
-- zcbor/zcbor.py, class CddlParser: `flatten` leaves the counts of list items as they are.
use zcbor.Prelude.{
  ℕ, ◌≡◌, refl, ◌↔◌, inl, inr, ◌⊎◌, String, Bool, true, false, not, Bool-cases, List, [], ◌∷◌, ◌++◌,
  arith,
}
use zcbor.Outcome.{first_returns, ok}
use zcbor.Elem.{
  Attrs, Elem, elem, Value, no_value, number, text, truth, members, Elems, no_elems, elems, Slot,
  Cddl, children, reference, resolve,
}
use zcbor.Translator.Spec.{Among, here, there}
use zcbor.Counts.Spec.{Has, Each, one_member}
use zcbor.PostValidate.{is_union, is_parent}
use zcbor.Flatten.{
  elems_of, list_of, is_open, splice, flatten, flatten_value, flatten_elems, flatten_slot,
}
use zcbor.Flatten.Spec.{
  IsQuantified, Ready, ready, ReadyValue, ready_members, ReadyElems, one_ready,
}
use zcbor.Flatten.Lists.{Some, Each-append, Each-split, SameCounts, Has-same, Once-same}
use zcbor.Flatten.Absorbed.{trans_iff}
use zcbor.Flatten.Spliced.{
  AllQuantified, AllQuantified-append, list_of-elems_of, Flat, alone, splice-Flat,
}

module _ (cddl : Cddl) (known : String → Bool) where
  -- What `_flatten` says of the list of children.
  record FlatElems (allow_multi : Bool) (cs : Elems) (es : List Elem) : Type 0 where
    quantified : AllQuantified es
    counted : allow_multi ≡ true → (n : ℕ) → Each cddl cs n ↔ Each cddl (elems_of es) n
    chosen : allow_multi ≡ false → (n : ℕ) → Some cddl cs n ↔ Some cddl (elems_of es) n

  no_flat : (am : Bool) → FlatElems am no_elems []
  no_flat am = record {
    quantified = tt;
    counted = λ p n. (λ h. h, λ h. h);
    chosen = λ p n. (λ h. h, λ h. h);
  }

  -- The choices of one child and the others.
  chosen_more :
      (c x : Elem) (cs : Elems) (ys : List Elem) (n : ℕ)
      → (Has cddl c n ↔ Has cddl x n)
      → (Some cddl cs n ↔ Some cddl (elems_of ys) n)
      → Some cddl (elems c cs) n ↔ Some cddl (elems x (elems_of ys)) n
  chosen_more c x cs ys n one rest = (λ s. forth s.1 s.2, λ s. back s.1 s.2)
    where
      forth : {d : Elem} → Among d (elems c cs) → Has cddl d n → Some cddl (elems x (elems_of ys)) n
      forth here h = (x, here, one.0 h)
      forth {d} (there a) h = let (d', a', h') = rest.0 (d, a, h) in (d', there a', h')

      back : {d : Elem} → Among d (elems x (elems_of ys)) → Has cddl d n → Some cddl (elems c cs) n
      back here h = (c, here, one.1 h)
      back {d} (there a) h = let (d', a', h') = rest.1 (d, a, h) in (d', there a', h')

  counted_more :
      (c : Elem) (cs : Elems) (xs ys : List Elem) (n : ℕ)
      → ((m : ℕ) → Has cddl c m ↔ Each cddl (elems_of xs) m)
      → ((m : ℕ) → Each cddl cs m ↔ Each cddl (elems_of ys) m)
      → Each cddl (elems c cs) n ↔ Each cddl (elems_of (xs ++ ys)) n
  counted_more c cs xs ys n one rest = (λ h. forth h, λ h. back h)
    where
      forth : Each cddl (elems c cs) n → Each cddl (elems_of (xs ++ ys)) n
      forth (one_member {n = i} {m = j} h hs p) =
          Each-append cddl xs ys ((one i).0 h) ((rest j).0 hs) p

      back : Each cddl (elems_of (xs ++ ys)) n → Each cddl (elems c cs) n
      back h =
          let (i, j, a, b, p) = Each-split cddl xs ys h in one_member ((one i).1 a) ((rest j).1 b) p

  more-Flat :
      (am : Bool) (c : Elem) (cs : Elems) (xs ys : List Elem)
      → Flat cddl known am c xs
      → FlatElems am cs ys
      → FlatElems am (elems c cs) (xs ++ ys)
  more-Flat am c cs xs ys one rest = record {
    quantified = AllQuantified-append xs ys one.quantified rest.quantified;
    counted = λ p n. counted_more c cs xs ys n one.counted (rest.counted p);
    chosen = λ p n.
        let (x, e) = one.single p in
        rw e (
          chosen_more c x cs ys n
            (trans_iff cddl (rw e at one.counted n)
              ((alone cddl known x n).1, (alone cddl known x n).0))
            (rest.chosen p n));
  }

  abbrev FlatValue : Bool → Value → Value → Type 0
  FlatValue am v v' =
      (cs : Elems) × (es : List Elem) × (v ≡ members cs)
      × (v' ≡ members (elems_of es))
      × FlatElems am cs es

  left_alone : (v v' : Value) → ok v ≡ ok v' → v' ≡ v
  left_alone v v' h = cc

  module _ (a : Attrs) (k c d k' c' d' : Slot) where
    -- What holds of the element with its flattened children.
    record Kept (v v' : Value) : Type 0 where
      same : SameCounts cddl (elem a v k c d) (elem a v' k' c' d')
      named : reference (elem a v k c d) ≡ reference (elem a v' k' c' d')
      quantified : is_parent a.kind ≡ true → AllQuantified (list_of (children (elem a v' k' c' d')))

    parent-Kept :
        (cs : Elems) (es : List Elem)
        → FlatElems (not (is_union a.kind)) cs es
        → Kept (members cs) (members (elems_of es))
    unfolding resolve
    parent-Kept cs es f = record {
      same = Has-same cddl _ _ refl refl (
          Once-same cddl (elem a (members cs) k c d) (elem a (members (elems_of es)) k' c' d') refl
            refl (λ p. f.counted (rw p refl)) (λ p. f.chosen (rw p refl)));
      named = refl;
      quantified = λ p. rw (list_of-elems_of es) f.quantified;
    }

    leaf-Kept : (v : Value) → is_parent a.kind ≡ false → Kept v v
    unfolding resolve
    leaf-Kept v p = record {
      same = Has-same cddl _ _ refl refl (
          Once-same cddl (elem a v k c d) (elem a v k' c' d') refl refl (λ q n. (λ h. h, λ h. h))
            (λ q n. (λ h. h, λ h. h)));
      named = refl;
      quantified = λ q. absurd (ground arith);
    }

    -- The two branches of `_flatten`.
    flattened-Kept :
        (v v' : Value)
        → (is_parent a.kind ≡ true
            → flatten_value known (not (is_union a.kind)) v ≡ ok v'
            → FlatValue (not (is_union a.kind)) v v')
        → (elim (is_parent a.kind) [
          | true ↦ flatten_value known (not (is_union a.kind)) v
          | false ↦ ok v
        ])
          ≡ ok v'
        → Kept v v'
    flattened-Kept v v' fs h = elim (Bool-cases (is_parent a.kind)) [
      | inl p ↦ let (cs, es, e, e', f) = fs p (rw p at h) in rw (e, e') (parent-Kept cs es f)
      | inr p ↦ let e : v' ≡ v = left_alone v v' (rw p at h) in rw e (leaf-Kept v p)
    ]

    Kept-Flat :
        (am : Bool) (v v' : Value) (es : List Elem)
        → IsQuantified a
        → is_open known (elem a v k c d) ≡ false
        → Kept v v'
        → splice known am (elem a v' k' c' d') ≡ ok es
        → Flat cddl known am (elem a v k c d) es
    unfolding is_open
    Kept-Flat am v v' es q o kept h =
        let f =
          splice-Flat cddl known am (elem a v' k' c' d') es q (rw (← kept.named) o) kept.quantified
            h in
        record {
          quantified = f.quantified;
          counted = λ n. trans_iff cddl (kept.same n) (f.counted n);
          single = f.single;
        }

  -- `flatten`, `_flatten` and its loop.
  mutual
    unfolding flatten

    Flat-elem :
        (am : Bool) (e : Elem) (es : List Elem)
        → Ready known e
        → flatten known am e ≡ ok es
        → Flat cddl known am e es
    Flat-elem am (elem a v k c d) es (ready q o vs) h =
        let (v', h1, r1) =
          first_returns
            (elim (is_parent a.kind) [
              | true ↦ flatten_value known (not (is_union a.kind)) v
              | false ↦ ok v
            ])
            _ h in
        let (k', h2, r2) = first_returns (flatten_slot known k) _ r1 in
        let (c', h3, r3) = first_returns (flatten_slot known c) _ r2 in
        let (d', h4, last) = first_returns (flatten_slot known d) _ r3 in
        Kept-Flat a k c d k' c' d' am v v' es q o
          (flattened-Kept a k c d k' c' d' v v'
            (λ p. flat_value (not (is_union a.kind)) v v' (vs p)) h1)
          last

    flat_value :
        (am : Bool) (v v' : Value)
        → ReadyValue known v
        → flatten_value known am v ≡ ok v'
        → FlatValue am v v'
    flat_value am (members cs) v' (ready_members rs) h =
        let (es, h1, last) = first_returns (flatten_elems known am cs) _ h in
        (cs, es, refl, cc, flat_elems am cs es rs h1)
    flat_value am no_value v' r h = elim r [ ]
    flat_value am (number n) v' r h = elim r [ ]
    flat_value am (text s) v' r h = elim r [ ]
    flat_value am (truth b) v' r h = elim r [ ]

    flat_elems :
        (am : Bool) (cs : Elems) (es : List Elem)
        → ReadyElems known cs
        → flatten_elems known am cs ≡ ok es
        → FlatElems am cs es
    flat_elems am no_elems es r h = let e : es ≡ [] = cc in rw e (no_flat am)
    flat_elems am (elems c cs) es (one_ready r rs) h =
        let (xs, h1, rest) = first_returns (flatten known am c) _ h in
        let (ys, h2, last) = first_returns (flatten_elems known am cs) _ rest in
        let e : es ≡ xs ++ ys = cc in
        rw e (more-Flat am c cs xs ys (Flat-elem am c xs r h1) (flat_elems am cs ys rs h2))

-- If every part of the parsed element that has no quantifier occurs once, and no open socket is among
-- these parts, then what `flatten` returns has the counts of list items that the element has: the
-- elements it returns, put in a row, can stand for `n` items exactly if the element can. And it
-- returns one element, unless `allow_multi` is given.
pub flatten-SameCounts :
    (cddl : Cddl) (known : String → Bool) (allow_multi : Bool) (e : Elem) (es : List Elem)
    → Ready known e
    → flatten known allow_multi e ≡ ok es
    → ((n : ℕ) → Has cddl e n ↔ Each cddl (elems_of es) n)
      × ((allow_multi ≡ true) ⊎ ((x : Elem) × (es ≡ x ∷ [])))
flatten-SameCounts cddl known allow_multi e es r h =
    let f = Flat-elem cddl known allow_multi e es r h in
    (f.counted, elim (Bool-cases allow_multi) [ inl p ↦ inl p | inr p ↦ inr (f.single p) ])
