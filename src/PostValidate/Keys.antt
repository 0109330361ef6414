-- ===== src/PostValidate/Keys.antt =====
-- zcbor/zcbor.py, class CddlParser: what `has_key` answers.
use zcbor.Prelude.{
  ◌⊎◌, ℕ, zero, suc, ◌≡◌, refl, Bool, true, false, not, ◌&&◌, ◌||◌, inl, inr, List, ◌∷◌, any_of,
  arith,
}
use zcbor.Outcome.{first_returns, Result, ok, raised, out_of_fuel, ◌>>=◌, or_else, and_also}
use zcbor.Elem.{
  Kind, Elem, Elems, no_elems, elems, Slot, absent, present, Cddl, key, kind, children, is_present,
  resolve,
}
use zcbor.Unambiguous.{is_other, every}
use zcbor.PostValidate.{is_splice, has_members, has_key, is_valid_map_elem, valid_flags}
use zcbor.PostValidate.Spec.{
  HasKey, own_key, type_key, member_keys, HaveKeys, no_members, more_members, AllElems,
}

-- Splits of the two short-circuit operators.
or_else-cases :
    (m : Result Bool) (k : Unit {0} → Result Bool) {b : Bool}
    → or_else m k ≡ ok b
    → ((m ≡ ok true) × (b ≡ true)) ⊎ ((m ≡ ok false) × (k tt ≡ ok b))
or_else-cases (ok true) k h = inl (refl, cc)
or_else-cases (ok false) k h = inr (refl, h)
or_else-cases (raised e) k h = cc
or_else-cases out_of_fuel k h = cc

and_also-cases :
    (m : Result Bool) (k : Unit {0} → Result Bool) {b : Bool}
    → and_also m k ≡ ok b
    → ((m ≡ ok false) × (b ≡ false)) ⊎ ((m ≡ ok true) × (k tt ≡ ok b))
and_also-cases (ok false) k h = inl (refl, cc)
and_also-cases (ok true) k h = inr (refl, h)
and_also-cases (raised e) k h = cc
and_also-cases out_of_fuel k h = cc

present_key : (s : Slot) → is_present s ≡ true → (k : Elem) × (s ≡ present k)
present_key absent h = cc
present_key (present k) h = (k, refl)

other_kind : (k : Kind) → is_other k ≡ true → k ≡ Kind.other
other_kind Kind.other h = refl
other_kind k h = cc

true_ne_false : ◌≡◌ {A = Bool} false true → ⊥
true_ne_false h = cc

true_ne_false_ok : ◌≡◌ {A = Result Bool} (ok true) (ok false) → ⊥
true_ne_false_ok h = cc

module _ (cddl : Cddl) where
  every-HaveKeys :
      (p : Elem → Result Bool)
      → ((c : Elem) → p c ≡ ok true → HasKey cddl c)
      → (cs : Elems) → every p cs ≡ ok true
      → HaveKeys cddl cs
  unfolding every
  every-HaveKeys p sound no_elems h = no_members
  every-HaveKeys p sound (elems c cs) h = elim (and_also-cases (p c) (λ _. every p cs) h) [
    | inl (e, b) ↦ cc
    | inr (e, rest) ↦ more_members (sound c e) (every-HaveKeys p sound cs rest)
  ]

  some_member : (cs : Elems) → has_members cs ≡ true → (c : Elem) × (ds : Elems) × (cs ≡ elems c ds)
  some_member no_elems h = cc
  some_member (elems c cs) h = (c, cs, refl)

  -- The parts of `has_key`, in the order in which it asks.
  abbrev by_ref : ℕ → Elem → Unit {0} → Result Bool
  by_ref f e u = resolve cddl e >>= has_key cddl f

  abbrev by_members : ℕ → Elem → Unit {0} → Result Bool
  by_members f e u =
      and_also (ok (is_splice (kind e) && has_members (children e)))
        (λ _. every (has_key cddl f) (children e))

  abbrev by_others : ℕ → Elem → Unit {0} → Result Bool
  by_others f e u = or_else (and_also (ok (is_other (kind e))) (by_ref f e)) (by_members f e)

  -- Where `has_key` says yes, the element has a key.
  pub has_key_sound : (f : ℕ) (e : Elem) → has_key cddl f e ≡ ok true → HasKey cddl e
  unfolding has_key
  has_key_sound zero e h = cc
  has_key_sound (suc f) e h = elim (or_else-cases (ok (is_present (key e))) (by_others f e) h) [
    | inl (p, b) ↦ let (k, q) = present_key (key e) (cc) in own_key q
    | inr (p, h1) ↦
        elim (or_else-cases (and_also (ok (is_other (kind e))) (by_ref f e)) (by_members f e) h1) [
          | inl (q, b) ↦ elim (and_also-cases (ok (is_other (kind e))) (by_ref f e) q) [
            | inl (r, b') ↦ cc
            | inr (r, h2) ↦
                let (t, found, h3) = first_returns (resolve cddl e) _ h2 in
                type_key (other_kind (kind e) (cc)) found (has_key_sound f t h3)
          ]
          | inr (q, h2) ↦
              elim (and_also-cases (ok (is_splice (kind e) && has_members (children e)))
                (λ _. every (has_key cddl f) (children e)) h2) [
                  | inl (r, b) ↦ cc
                  | inr (r, h3) ↦
                      let (c, cs, m) = some_member (children e) (ground arith) in
                      member_keys (ground arith) m
                        (every-HaveKeys (has_key cddl f) (has_key_sound f) (children e) h3)
                ]
        ]
  ]

  mutual
    unfolding has_key every

    -- Where the element has a key, `has_key` does not say no.
    has_key-true :
        (f : ℕ) {e : Elem} {b : Bool} → HasKey cddl e → has_key cddl f e ≡ ok b → b ≡ true
    has_key-true zero k h = cc
    has_key-true (suc f) {e} (own_key p) h =
        elim (or_else-cases (ok (is_present (key e))) (by_others f e) h) [
          | inl (q, r) ↦ r
          | inr (q, h1) ↦ absurd (true_ne_false_ok (rw p at q))
        ]
    has_key-true (suc f) {e} (type_key {t = t0} k found t) h =
        elim (or_else-cases (ok (is_present (key e))) (by_others f e) h) [
          | inl (q, r) ↦ r
          | inr (q, h1) ↦
              elim (or_else-cases (and_also (ok (is_other (kind e))) (by_ref f e)) (by_members f e)
                h1) [
                  | inl (r, r') ↦ r'
                  | inr (r, h2) ↦ elim (and_also-cases (ok (is_other (kind e))) (by_ref f e) r) [
                    | inl (u, u') ↦ absurd (true_ne_false_ok (rw k at u))
                    | inr (u, h3) ↦
                        let (t', found', says) = first_returns (resolve cddl e) _ h3 in
                        let same : t' ≡ t0 = cc in
                        absurd (true_ne_false (has_key-true f t (rw same at says)))
                  ]
                ]
        ]
    has_key-true (suc f) {e} (member_keys s m ks) h =
        elim (or_else-cases (ok (is_present (key e))) (by_others f e) h) [
          | inl (q, r) ↦ r
          | inr (q, h1) ↦
              elim (or_else-cases (and_also (ok (is_other (kind e))) (by_ref f e)) (by_members f e)
                h1) [
                  | inl (r, r') ↦ r'
                  | inr (r, h2) ↦
                      elim (and_also-cases (ok (is_splice (kind e) && has_members (children e)))
                        (λ _. every (has_key cddl f) (children e)) h2) [
                          | inl (u, u') ↦ absurd (true_ne_false_ok (rw (s, m) at u))
                          | inr (u, h3) ↦ every-true f ks h3
                        ]
                ]
        ]

    every-true :
        (f : ℕ) {cs : Elems} {b : Bool}
        → HaveKeys cddl cs
        → every (has_key cddl f) cs ≡ ok b
        → b ≡ true
    every-true f no_members h = cc
    every-true f (more_members {c = c} {cs = cs} k ks) h =
        elim (and_also-cases (has_key cddl f c) (λ _. every (has_key cddl f) cs) h) [
          | inl (e, b) ↦ absurd (true_ne_false (has_key-true f k e))
          | inr (e, rest) ↦ every-true f ks rest
        ]

  -- Where `has_key` says no, the element has no key.
  pub has_key_complete : (f : ℕ) (e : Elem) → has_key cddl f e ≡ ok false → HasKey cddl e → ⊥
  has_key_complete f e h k = true_ne_false (has_key-true f k h)

  -- The flags say which members have a key.
  pub all_flags :
      (f : ℕ) (cs : Elems) (bs : List Bool)
      → valid_flags cddl f cs ≡ ok bs
      → any_of not bs ≡ false
      → AllElems (HasKey cddl) cs
  unfolding valid_flags is_valid_map_elem
  all_flags f no_elems bs h p = tt
  all_flags f (elems c cs) bs h p =
      let (b, one, h1) = first_returns (has_key cddl f c) _ h in
      let (rest, others, h2) = first_returns (valid_flags cddl f cs) _ h1 in
      let split : bs ≡ b ∷ rest = cc in
      let q : (not b || any_of not rest) ≡ false = rw split at p in
      let here : b ≡ true = ground arith in
      (has_key_sound f c (rw here at one), all_flags f cs rest others (ground arith))

  pub no_flags :
      (f : ℕ) (cs : Elems) (bs : List Bool)
      → valid_flags cddl f cs ≡ ok bs
      → any_of (λ b. b) bs ≡ false
      → AllElems (λ c. HasKey cddl c → ⊥) cs
  unfolding valid_flags is_valid_map_elem
  no_flags f no_elems bs h p = tt
  no_flags f (elems c cs) bs h p =
      let (b, one, h1) = first_returns (has_key cddl f c) _ h in
      let (rest, others, h2) = first_returns (valid_flags cddl f cs) _ h1 in
      let split : bs ≡ b ∷ rest = cc in
      let q : (b || any_of (λ b. b) rest) ≡ false = rw split at p in
      let none_here : b ≡ false = ground arith in
      (has_key_complete f c (rw none_here at one), no_flags f cs rest others (ground arith))
