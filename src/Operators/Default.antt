-- ===== src/Operators/Default.antt =====
-- zcbor/zcbor.py, class CddlParser: the default that `set_default` gives an element.
use zcbor.Prelude.{
  ℕ, ◌==◌, ◌≡◌, refl, sym, ◌∙◌, inl, inr, Bool, true, false, ◌&&◌, Bool-cases, Option, none, some,
  ap, [], ◌∷◌, arith,
}
use zcbor.Outcome.{
  required, Result, ok, raised, out_of_fuel, Exception, require, first_returns, Ensures-ok,
  or_raise, and_also,
}
use zcbor.Elem.{
  Elem, elem, Elems, no_elems, elems, present, Cddl, attrs, value, key, cbor, kind, children,
  has_value,
}
use zcbor.Unambiguous.{is_unambiguous}
use zcbor.PostValidate.{default, is_union, is_parent}
use zcbor.Translator.Spec.{Among, here, there}
use zcbor.Operators.{
  is_default_kind, agrees, unpack_value, enforce_no_modifier, extract_unambiguous_val, match_elem,
  first_match, find_matching_child, default_of, set_default,
}
use zcbor.Operators.Spec.{StandsFor}
use zcbor.Operators.Unpack.{unpack_value-StandsFor}

module _ (cddl : Cddl) (f : ℕ) where
  -- The default of a choice is one of its members, of which the encoding is known and which matches what
  -- the operand stands for.
  pub record IsChosen (operand e x : Elem) : Type 0 where
    pub wanted : Elem
    pub denoted : StandsFor cddl operand wanted
    pub chosen : Among x (children e)
    pub known : is_unambiguous cddl f x ≡ ok true
    pub matches : match_elem cddl x wanted ≡ ok true

  -- Any other default is what the operand stands for, a value of the element's type.
  pub record IsLiteral (operand e x : Elem) : Type 0 where
    pub denoted : StandsFor cddl operand x
    pub valued : has_value (value x) ≡ true
    pub typed : agrees (kind e) (kind x) ≡ true

  pub record HasDefault (operand e e' : Elem) : Type 0 where
    pub given : Elem
    pub optional_min : (attrs e).min_qty ≡ 0
    pub optional_max : (attrs e).max_qty ≡ some 1
    pub kept : (attrs e' ≡ attrs e) × (value e' ≡ value e) × (key e' ≡ key e) × (cbor e' ≡ cbor e)
    pub put : default e' ≡ present given
    pub choice : is_union (kind e) ≡ true → IsChosen operand e given
    pub literal : is_union (kind e) ≡ false → IsLiteral operand e given

  found_by : (o : Option Elem) (x : Elem) → or_raise Exception.parsing_error o ≡ ok x → o ≡ some x
  found_by none x h = cc
  found_by (some y) x h = cc

  both_true :
      (r : Result Bool) (s : Unit {0} → Result Bool)
      → and_also r s ≡ ok true
      → (r ≡ ok true) × (s tt ≡ ok true)
  both_true (ok true) s h = (refl, h)
  both_true (ok false) s h = cc
  both_true (raised x) s h = cc
  both_true out_of_fuel s h = cc

  first_match-Among :
      (wanted : Elem) (cs : Elems) (x : Elem)
      → first_match cddl f wanted cs ≡ ok (some x)
      → Among x cs × (is_unambiguous cddl f x ≡ ok true) × (match_elem cddl x wanted ≡ ok true)
  unfolding first_match
  first_match-Among wanted no_elems x h = cc
  first_match-Among wanted (elems c cs) x h =
      let (b, tested, h1) =
        first_returns (and_also (is_unambiguous cddl f c) (λ _. match_elem cddl c wanted)) _ h in
      elim (Bool-cases b) [
        | inl p ↦
            let e : c ≡ x = found (rw p at h1) in
            let (known, matches) =
              both_true (is_unambiguous cddl f c) (λ _. match_elem cddl c wanted)
                (rw p at tested) in
            rw (← e) (here, known, matches)
        | inr p ↦
            let (a, known, matches) = first_match-Among wanted cs x (rw p at h1) in
            (there a, known, matches)
      ]
    where
      found : ok (some c) ≡ ok (some x) → c ≡ x
      found h = cc

  union_default :
      (operand e x : Elem)
      → is_union (kind e) ≡ true
      → default_of cddl f operand e ≡ ok x
      → IsChosen operand e x
  unfolding default_of find_matching_child
  union_default operand e x p h =
      let (wanted, unpacked, h1) =
        first_returns (unpack_value cddl operand) _ (rw (p, default_of) at h) in
      let (o, searched, h2) = first_returns (find_matching_child cddl f wanted e) _ h1 in
      let (u, parent, h3) =
        first_returns (require Exception.assertion_error (is_parent (kind e)))
          (λ _. first_match cddl f wanted (children e)) searched in
      let hit : first_match cddl f wanted (children e) ≡ ok (some x) =
        h3 ∙ ap ok (found_by o x h2) in
      let (a, known, matches) = first_match-Among wanted (children e) x hit in
      record {
        wanted = wanted;
        denoted = Ensures-ok (unpack_value-StandsFor cddl operand) unpacked;
        chosen = a;
        known = known;
        matches = matches;
      }

  literal_default :
      (operand e x : Elem)
      → is_union (kind e) ≡ false
      → default_of cddl f operand e ≡ ok x
      → IsLiteral operand e x
  unfolding default_of extract_unambiguous_val
  literal_default operand e x p h =
      let (d, extracted, h1) =
        first_returns (extract_unambiguous_val cddl is_default_kind operand) _
          (rw (p, default_of) at h) in
      let (u, typed, h2) =
        first_returns (require Exception.parsing_error (agrees (kind e) (kind d))) (λ _. ok d) h1 in
      let (o, unpacked, h3) = first_returns (unpack_value cddl operand) _ extracted in
      let (u1, plain, h4) = first_returns (enforce_no_modifier ("value" ∷ []) o) _ h3 in
      let (u2, valued, h5) =
        first_returns (require Exception.parsing_error (has_value (value o))) _ h4 in
      let (u3, kinds, last) =
        first_returns (require Exception.parsing_error (is_default_kind (kind o))) (λ _. ok o) h5 in
      let same : d ≡ x = cc in
      let first : o ≡ x = sym (same_ok last) ∙ same in
      record {
        denoted = rw first at (Ensures-ok (unpack_value-StandsFor cddl operand) unpacked);
        valued = rw first at (required _ _ valued);
        typed = rw same at (required _ _ typed);
      }
    where
      same_ok : {a b : Elem} → ok a ≡ ok b → b ≡ a
      same_ok h = cc

-- Where `set_default` returns, the element is optional with the quantifier "?", its default is set and
-- its attributes, value, key and CBOR contents are as before. The default of a choice is a member of it with a known encoding, and
-- matches what the operand stands for; any other default is what the operand stands for, a value of
-- the element's type, or an unsigned or negative integer for an "INT".
pub set_default-HasDefault :
    (cddl : Cddl) (f : ℕ) (operand e e' : Elem)
    → set_default cddl f operand e ≡ ok e'
    → HasDefault cddl f operand e e'
unfolding set_default
set_default-HasDefault cddl f operand (elem a v k c d) e' h =
    let (u, kinds, h1) =
      first_returns (require Exception.parsing_error (is_default_kind a.kind)) _ h in
    let (u1, once, h2) =
      first_returns
        (require Exception.parsing_error
          (a.min_qty == 0 && (elim a.max_qty [ none ↦ false | some m ↦ m == 1 ])))
        _ h1 in
    let (x, given, last) = first_returns (default_of cddl f operand (elem a v k c d)) _ h2 in
    let e : e' ≡ elem a v k c (present x) = cc in
    let (low, high) = question a.min_qty a.max_qty (required _ _ once) in
    rw e (record {
      given = x;
      optional_min = low;
      optional_max = high;
      kept = (refl, refl, refl, refl);
      put = refl;
      choice = λ p. union_default cddl f operand (elem a v k c d) x p given;
      literal = λ p. literal_default cddl f operand (elem a v k c d) x p given;
    })
  where
    question :
        (m : ℕ) (o : Option ℕ)
        → (m == 0 && (elim o [ none ↦ false | some n ↦ n == 1 ])) ≡ true
        → (m ≡ 0) × (o ≡ some 1)
    question m none h = absurd (ground arith)
    question m (some n) h = let p : n ≡ 1 = ground arith in (ground arith, ap some p)
