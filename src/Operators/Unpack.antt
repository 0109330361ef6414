-- ===== src/Operators/Unpack.antt =====
-- zcbor/zcbor.py, class CddlParser: `unpack_value` ends, and finds what an operand stands for.
use package.text.Mathlib.TextEquality.{eq_iff}
use zcbor.Prelude.{
  ℕ, zero, suc, ◌+◌, ◌<◌, ◌≤◌, ◌≡◌, refl, inl, inr, length, String, str_eq, true, false, not,
  any_of, Bool-cases, some, List, [], ◌∷◌, if◌then◌else◌, arith,
}
use zcbor.Outcome.{
  ok, Exception, Ensures, returns, Ensures-bind, Ensures-if, Ensures-weaken, Ends-require,
  or_raise-Ensures,
}
use zcbor.Elem.{Kind, Elem, elem, members, no_elems, elems, Cddl, kind, reference, find, resolve}
use zcbor.Unambiguous.{is_other}
use zcbor.PostValidate.{is_group_kind}
use zcbor.Operators.{enforce_no_modifier, unpack_groups, unpack_from, unpack_value}
use zcbor.Operators.Spec.{IsPlain, IsWrapper, StandsFor, itself, in_group, by_name}

-- The types whose names have not been met.
abbrev unmet : List String → List (String × Elem) → ℕ
unmet seen [] = 0
unmet seen ((n, e) ∷ m) = (if any_of (str_eq n) seen then 0 else 1) + unmet seen m

unmet_less :
    (n : String) (seen : List String) (m : List (String × Elem)) → unmet (n ∷ seen) m ≤ unmet seen m
unmet_less n seen [] = omega arith
unmet_less n seen ((k, e) ∷ m) = ground (arith, unmet_less n seen m)

unmet_found :
    (n : String) (seen : List String) (m : List (String × Elem)) (t : Elem)
    → find n m ≡ some t
    → any_of (str_eq n) seen ≡ false
    → unmet (n ∷ seen) m < unmet seen m
unfolding find
unmet_found n seen [] t h p = cc
unmet_found n seen ((k, e) ∷ m) t h p = elim (Bool-cases (str_eq k n)) [
  | inl q ↦
      let same : k ≡ n = (eq_iff k n).0 q in
      let fresh : any_of (str_eq k) seen ≡ false = rw same p in
      let less = unmet_less n seen m in ground (arith, less)
  | inr q ↦ let rest = unmet_found n seen m t (rw (q, find) at h) p in ground (arith, rest)
]

module _ (cddl : Cddl) where
  -- What is left when the groups are off: the rest of the chain, and no group of one member.
  record Peeled (e g : Elem) : Type 0 where
    kept : (b : Elem) → StandsFor cddl g b → StandsFor cddl e b
    bare : is_other (kind g) ≡ false → IsWrapper g → ⊥

  Peeled-self :
      (e : Elem) → (is_other (kind e) ≡ false → IsWrapper e → ⊥) → Ensures (Peeled e) (ok e)
  Peeled-self e h = returns (record { kept = λ b s. s; bare = h })

  plain : (e : Elem) → Ensures (λ _. IsPlain e) (enforce_no_modifier ("value" ∷ []) e)
  unfolding enforce_no_modifier
  plain e = Ends-require Exception.parsing_error _

  group_kind : (k : Kind) → is_group_kind k ≡ true → k ≡ Kind.group
  group_kind Kind.group h = refl
  group_kind k h = cc

  other_kind : (k : Kind) → is_other k ≡ true → k ≡ Kind.other
  other_kind Kind.other h = refl
  other_kind k h = cc

  unpack_groups-Peeled : (e : Elem) → Ensures (Peeled e) (unpack_groups e)
  unfolding unpack_groups
  unpack_groups-Peeled (elem a (members (elems x no_elems)) k c d) =
      Ensures-if (is_group_kind a.kind)
        (λ p. Ensures-bind (plain (elem a (members (elems x no_elems)) k c d)) (λ _ q.
          Ensures-weaken (unpack_groups-Peeled x) (λ g peeled. record {
            kept = λ b s. in_group (group_kind a.kind p) refl q (peeled.kept b s);
            bare = peeled.bare;
          })))
        (λ p.
          Peeled-self (elem a (members (elems x no_elems)) k c d)
            (λ q w. elim w [ inl r ↦ ground arith | inr (r, y, s) ↦ ground arith ]))
  unpack_groups-Peeled (elem a v k c d) =
      Peeled-self (elem a v k c d) (λ p w. elim w [ inl r ↦ ground arith | inr (r, y, s) ↦ cc ])

  fewer :
      (f : ℕ) (n : String) (seen : List String) (t : Elem)
      → find n cddl.types ≡ some t
      → not (any_of (str_eq n) seen) ≡ true
      → unmet seen cddl.types < suc f
      → unmet (n ∷ seen) cddl.types < f
  fewer f n seen t found fresh h =
      let less = unmet_found n seen cddl.types t found (ground arith) in omega arith

  resolve-found :
      (g : Elem)
      → Ensures
          (λ t. (find (reference g) cddl.types ≡ some t) × (resolve cddl g ≡ ok t))
          (resolve cddl g)
  unfolding resolve
  resolve-found g =
      Ensures-weaken (or_raise-Ensures Exception.key_error (find (reference g) cddl.types))
        (λ t h. (h, rw h refl))

  -- With more fuel than there are types that have not been met.
  unpack_from-StandsFor :
      (f : ℕ) (seen : List String) (e : Elem)
      → unmet seen cddl.types < f
      → Ensures (StandsFor cddl e) (unpack_from cddl f seen e)
  unfolding unpack_from
  unpack_from-StandsFor zero seen e h = absurd (omega arith)
  unpack_from-StandsFor (suc f) seen e h = Ensures-bind (unpack_groups-Peeled e) (λ g peeled.
      Ensures-if (is_other (kind g))
        (λ p. Ensures-bind (plain g) (λ _ q. Ensures-bind (resolve-found g) (λ t (there, found).
          Ensures-bind (Ends-require Exception.parsing_error _) (λ _ fresh.
            Ensures-weaken
              (unpack_from-StandsFor f (reference g ∷ seen) t
                (fewer f (reference g) seen t there fresh h))
              (λ b s. peeled.kept b (by_name (other_kind (kind g) p) found q s))))))
        (λ p. returns (peeled.kept g (itself (peeled.bare p)))))

unmet_all : (m : List (String × Elem)) → unmet [] m ≡ length m
unmet_all [] = refl
unmet_all ((n, e) ∷ m) = omega (arith, unmet_all m)

-- `unpack_value` ends, whatever the types refer to, and the element it returns is the one that the
-- operand stands for: it is no reference and no group of one member, and the references and the groups
-- of one member that lead to it have no modifier but a value.
pub unpack_value-StandsFor :
    (cddl : Cddl) (e : Elem) → Ensures (StandsFor cddl e) (unpack_value cddl e)
unfolding unpack_value
unpack_value-StandsFor cddl e =
    unpack_from-StandsFor cddl (suc (length cddl.types)) [] e
      (let all = unmet_all cddl.types in omega arith)
