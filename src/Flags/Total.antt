-- ===== src/Flags/Total.antt =====
-- zcbor/zcbor.py, class CodeGenerator: `_num_map_search_flags` gives the texts of the numbers if the calls on other
-- elements do.
use zcbor.Prelude.{ℕ, ◌≡◌, refl, String, Bool, true, false, some, is_some, if◌then◌else◌}
use zcbor.Outcome.{Result, ok, ◌>>=◌}
use zcbor.Elem.{Elem, Cddl, attrs, key, kind, children, find, resolve}
use zcbor.PostValidate.{is_parent}
use zcbor.Unambiguous.{is_other}
use zcbor.Flags.{
  Flags, expressions, flags_of, in_map_below, add_members, with_members, with_flags, with_type,
  multi_decode_w_backup_condition, times_max_qty, flags_by,
}
use zcbor.Expressions.Shown.{nothing, s_sum-Shows, shown-Shows}
use zcbor.Expressions.Products.{enclosed-shown}
use zcbor.Flags.Limits.{
  numbers, Conditions, literal_answers, number_answers, is_limited, all_limited, parts_limited,
  max_qty-shown, times-shown,
}
use zcbor.Flags.Related.{
  Alike, both, Alike-bind, Alike-self, Adds, Returned, two_shown, resolve-Alike,
}
use zcbor.Flags.Steps.{with_key-Alike, with_contents-Alike, flags_of-Alike, add_members-Alike}

module _ (cddl : Cddl) (unordered_maps : Bool) (c : Conditions) (define : String) where
  module _ (below : Bool → Elem → Result (Flags String)) (counted : Bool → Elem → Result (Flags ℕ))
      (same : (m : Bool) (x : Elem)
        → is_limited x ≡ true
        → Alike Returned (below m x) (counted m x)) where
    with_members-Alike :
        (m : Bool) (e : Elem) {t : Flags String} {n : Flags ℕ}
        → all_limited (children e) ≡ true
        → Adds t n
        → Alike Adds
            (with_members expressions (literal_answers c define) cddl unordered_maps below m e t)
            (with_members numbers (number_answers c) cddl unordered_maps counted m e n)
    unfolding with_members
    with_members-Alike m e {t} {n} l a = counted_if (is_parent (kind e))
      where
        counted_if :
            (b : Bool)
            → Alike Adds
                (if b
                  then (flags_of expressions
                        (literal_answers c define)
                        cddl
                        unordered_maps
                        below
                        (in_map_below m (kind e))
                        (children e)
                      >>= λ rs.
                          add_members expressions
                            (literal_answers c define)
                            cddl
                            unordered_maps
                            below
                            (kind e)
                            e
                            rs
                            t)
                  else ok t)
                (if b
                  then (flags_of numbers
                        (number_answers c)
                        cddl
                        unordered_maps
                        counted
                        (in_map_below m (kind e))
                        (children e)
                      >>= λ rs.
                          add_members numbers
                            (number_answers c)
                            cddl
                            unordered_maps
                            counted
                            (kind e)
                            e
                            rs
                            n)
                  else ok n)
        counted_if true =
            Alike-bind
              (flags_of-Alike cddl unordered_maps c define below counted same _ (children e) l)
              (λ rs qs h.
                add_members-Alike cddl unordered_maps c define below counted same (kind e) e h a)
        counted_if false = both a

    with_type-Alike :
        (m : Bool) (e : Elem) {t : Flags String} {n : Flags ℕ}
        → ((name : String) (d : Elem) → find name cddl.types ≡ some d → is_limited d ≡ true)
        → Adds t n
        → Alike Adds
            (with_type expressions (literal_answers c define) cddl unordered_maps below m e t)
            (with_type numbers (number_answers c) cddl unordered_maps counted m e n)
    unfolding with_type
    with_type-Alike m e {t} {n} l a = counted_if (is_other (kind e))
      where
        counted_if :
            (b : Bool)
            → Alike Adds
                (if b
                  then (resolve cddl e >>= λ d. below m d >>= λ r. ok (with_flags expressions t r))
                  else ok t)
                (if b
                  then (resolve cddl e >>= λ d. counted m d >>= λ r. ok (with_flags numbers n r))
                  else ok n)
        counted_if false = both a
        counted_if true = Alike-bind (resolve-Alike cddl e l) (λ d d' p. rw (← p.0) (
            Alike-bind (same m d p.1) (λ r q h. both (record {
              this = s_sum-Shows (two_shown a.this (shown-Shows h.this));
              nested = s_sum-Shows (two_shown a.nested (shown-Shows h.nested));
              multi_decode = cc (a.multi_decode, h.multi_decode);
              unions = cc (a.unions, h.unions);
            }))))

    times_max_qty-Alike :
        (e : Elem) {t : Flags String} {n : Flags ℕ}
        → is_some (attrs e).max_qty ≡ true
        → Adds t n
        → Alike Returned
            (times_max_qty expressions (literal_answers c define) cddl unordered_maps below e t)
            (times_max_qty numbers (number_answers c) cddl unordered_maps counted e n)
    unfolding times_max_qty
    times_max_qty-Alike e l a = both (record {
      this = times-shown _ a.this (max_qty-shown define e l);
      nested = enclosed-shown a.nested;
      multi_decode = a.multi_decode;
      unions = a.unions;
    })

    pub flags_by-Alike :
        (m : Bool) (e : Elem)
        → ((name : String) (d : Elem) → find name cddl.types ≡ some d → is_limited d ≡ true)
        → is_limited e ≡ true
        → Alike Returned
            (flags_by expressions (literal_answers c define) cddl unordered_maps below m e)
            (flags_by numbers (number_answers c) cddl unordered_maps counted m e)
    unfolding flags_by multi_decode_w_backup_condition
    flags_by-Alike m e types l =
        let (qty, inside, key_l, cbor_l) = parts_limited e l in
        Alike-bind
          (Alike-self (
            multi_decode_w_backup_condition expressions (literal_answers c define) cddl
              unordered_maps e))
          (λ b d p.
            Alike-bind
              (with_key-Alike cddl unordered_maps c define below counted same m (key e) key_l
                (start b d p))
              (λ t n a.
                Alike-bind
                  (with_contents-Alike cddl unordered_maps c define below counted same e cbor_l a)
                  (λ t n a. Alike-bind (with_members-Alike m e inside a) (λ t n a.
                    Alike-bind (with_type-Alike m e types a)
                      (λ t n a. times_max_qty-Alike e qty a)))))
      where
        start :
            (b d : Bool)
            → b ≡ d
            → Adds
                (record { this = ""; nested = ""; multi_decode = if b then 1 else 0; unions = 0 })
                (record { this = 0; nested = 0; multi_decode = if d then 1 else 0; unions = 0 })
        start b d p = record {
          this = nothing refl refl;
          nested = nothing refl refl;
          multi_decode = cc;
          unions = refl;
        }
