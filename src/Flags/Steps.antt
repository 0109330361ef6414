-- ===== src/Flags/Steps.antt =====
-- zcbor/zcbor.py, class CodeGenerator: the key, the contents and the members that `_num_map_search_flags` adds give
-- the texts of the numbers.
use zcbor.Prelude.{ℕ, ◌==◌, ◌≡◌, refl, String, Bool, true, false, List, [], ◌∷◌, if◌then◌else◌}
use zcbor.Outcome.{Result, ok, Exception}
use zcbor.Elem.{Kind, Elem, Elems, no_elems, elems, Slot, absent, present, Cddl, cbor}
use zcbor.Texts.{decimal}
use zcbor.Flags.{
  Flags, expressions, with_key, with_cbor, with_contents, flags_of, nest, longest_nested, add_depth,
  add_members,
}
use zcbor.Expressions.Shown.{
  Shows, number, one_shown, s_sum-Shows, s_max-Shows, round-Shows, is_nothing-Shows, shown-Shows,
}
use zcbor.Expressions.Products.{s_mult-Shows}
use zcbor.Flags.Limits.{
  numbers, Conditions, literal_answers, number_answers, both_true, is_limited, all_limited,
  slot_limited,
}
use zcbor.Flags.Related.{
  Alike, both, both_raise, Alike-bind, Alike-self, Adds, Returned, EachReturned, none_returned,
  one_returned, two_shown, one_literal, is_empty-Returned, these-EachShows, nested-EachShows,
  deepest-same, unions-same, same_check, all_empty-same,
}

module _ (cddl : Cddl) (unordered_maps : Bool) (c : Conditions) (define : String) where
  module _ (below : Bool → Elem → Result (Flags String)) (counted : Bool → Elem → Result (Flags ℕ))
      (same : (m : Bool) (x : Elem)
        → is_limited x ≡ true
        → Alike Returned (below m x) (counted m x)) where
    pub with_key-Alike :
        (m : Bool) (k : Slot) {t : Flags String} {n : Flags ℕ}
        → slot_limited k ≡ true
        → Adds t n
        → Alike Adds
            (with_key expressions (literal_answers c define) cddl unordered_maps below m k t)
            (with_key numbers (number_answers c) cddl unordered_maps counted m k n)
    unfolding with_key is_limited
    with_key-Alike m absent l a = both a
    with_key-Alike m (present k) {t} {n} l a = Alike-bind (same m k l) (λ r q e.
        same_check _ _ (is_empty-Returned e) (record {
          this = s_sum-Shows (two_shown a.this one_literal);
          nested = s_sum-Shows (two_shown a.nested (shown-Shows e.nested));
          multi_decode = a.multi_decode;
          unions = a.unions;
        }))

    pub with_contents-Alike :
        (e : Elem) {t : Flags String} {n : Flags ℕ}
        → slot_limited (cbor e) ≡ true
        → Adds t n
        → Alike Adds
            (with_contents expressions (literal_answers c define) cddl unordered_maps below e t)
            (with_contents numbers (number_answers c) cddl unordered_maps counted e n)
    unfolding with_contents with_cbor is_limited
    with_contents-Alike e {t} {n} l a =
        Alike-bind (Alike-self (c.cbor_var e)) (λ b d p. rw (p) (tested d (cbor e) l))
      where
        tested :
            (d : Bool) (s : Slot)
            → slot_limited s ≡ true
            → Alike Adds
                (if d
                  then with_cbor expressions
                      (literal_answers c define)
                      cddl
                      unordered_maps
                      below
                      s
                      t
                  else ok t)
                (if d
                  then with_cbor numbers (number_answers c) cddl unordered_maps counted s n
                  else ok n)
        tested false s l = both a
        tested true absent l = both_raise Exception.attribute_error
        tested true (present x) l = Alike-bind (same false x l) (λ r q e.
            same_check _ _ (is_empty-Returned e) (record {
              this = a.this;
              nested = s_sum-Shows (two_shown a.nested (shown-Shows e.nested));
              multi_decode = a.multi_decode;
              unions = a.unions;
            }))

    pub flags_of-Alike :
        (m : Bool) (cs : Elems)
        → all_limited cs ≡ true
        → Alike EachReturned
            (flags_of expressions (literal_answers c define) cddl unordered_maps below m cs)
            (flags_of numbers (number_answers c) cddl unordered_maps counted m cs)
    unfolding flags_of is_limited
    flags_of-Alike m no_elems l = both none_returned
    flags_of-Alike m (elems x xs) l =
        let (one, rest) = both_true (is_limited x) (all_limited xs) l in
        Alike-bind (same m x one)
          (λ r q e. Alike-bind (flags_of-Alike m xs rest) (λ rs qs es. both (one_returned e es)))

    nest-Adds :
        {rounded : String} {flags : ℕ} (multiplier : ℕ) {t : Flags String} {n : Flags ℕ}
        → Shows rounded flags
        → Adds t n
        → Adds
            (nest expressions
              (literal_answers c define)
              cddl
              unordered_maps
              below
              rounded
              multiplier
              t)
            (nest numbers (number_answers c) cddl unordered_maps counted flags multiplier n)
    nest-Adds {rounded} {flags} multiplier {t} {n} p a =
        rw (is_nothing-Shows p) (chosen (flags == 0) unordered_maps)
      where
        chosen :
            (z u : Bool)
            → Adds
                (if z then t else record t {
                  nested = expressions.sum (
                      t.nested
                      ∷ (if u
                          then expressions.mult (rounded ∷ decimal multiplier ∷ [])
                          else rounded)
                      ∷ []);
                })
                (if z then n else record n {
                  nested = numbers.sum (
                      n.nested
                      ∷ (if u then numbers.mult (flags ∷ multiplier ∷ []) else flags)
                      ∷ []);
                })
        chosen true u = a
        chosen false true = record {
          this = a.this;
          nested = s_sum-Shows (two_shown a.nested (s_mult-Shows p (number refl)));
          multi_decode = a.multi_decode;
          unions = a.unions;
        }
        chosen false false = record {
          this = a.this;
          nested = s_sum-Shows (two_shown a.nested p);
          multi_decode = a.multi_decode;
          unions = a.unions;
        }

    longest-Adds :
        {rs : List (Flags String)} {qs : List (Flags ℕ)} {t : Flags String} {n : Flags ℕ}
        → EachReturned rs qs
        → Adds t n
        → Adds
            (longest_nested expressions (literal_answers c define) cddl unordered_maps below rs t)
            (longest_nested numbers (number_answers c) cddl unordered_maps counted qs n)
    longest-Adds hs a = record {
      this = a.this;
      nested = s_max-Shows (one_shown a.nested (nested-EachShows hs));
      multi_decode = a.multi_decode;
      unions = a.unions;
    }

    depth-Adds :
        {rs : List (Flags String)} {qs : List (Flags ℕ)} {t : Flags String} {n : Flags ℕ}
        {s : String} {m : ℕ} (more : ℕ)
        → EachReturned rs qs
        → Shows s m
        → Adds t n
        → Adds
            (add_depth expressions (literal_answers c define) cddl unordered_maps below rs s more t)
            (add_depth numbers (number_answers c) cddl unordered_maps counted qs m more n)
    depth-Adds more hs p a = record {
      this = p;
      nested = (longest-Adds hs a).nested;
      multi_decode = cc (a.multi_decode, deepest-same hs);
      unions = cc (a.unions, unions-same hs);
    }

    pub add_members-Alike :
        (k : Kind) (e : Elem) {rs : List (Flags String)} {qs : List (Flags ℕ)} {t : Flags String}
        {n : Flags ℕ}
        → EachReturned rs qs
        → Adds t n
        → Alike Adds
            (add_members expressions (literal_answers c define) cddl unordered_maps below k e rs t)
            (add_members numbers (number_answers c) cddl unordered_maps counted k e qs n)
    unfolding add_members
    add_members-Alike k e none_returned a = both_raise Exception.value_error
    add_members-Alike Kind.map e (one_returned {r} {rs} {q} {qs} h hs) a =
        let all = one_returned h hs in
        rw (deepest-same hs, h.multi_decode, unions-same hs, h.unions)
          (both
            (nest-Adds _ (round-Shows (s_sum-Shows (these-EachShows all))) (longest-Adds all a)))
    add_members-Alike Kind.list e (one_returned h hs) a =
        same_check _ _ (all_empty-same (one_returned h hs)) (longest-Adds (one_returned h hs) a)
    add_members-Alike Kind.group e (one_returned h hs) a =
        let all = one_returned h hs in
        both (depth-Adds 0 all (s_sum-Shows (one_shown a.this (these-EachShows all))) a)
    add_members-Alike k e (one_returned h hs) a =
        let all = one_returned h hs in
        Alike-bind (Alike-self (c.implicit_union e)) (λ b d p. rw (p) (
          both (
            depth-Adds (if d then 0 else 1) all
              (s_sum-Shows (two_shown a.this (s_max-Shows (these-EachShows all)))) a)))
