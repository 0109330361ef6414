-- ===== src/Flatten/Merged.antt =====
-- zcbor/zcbor.py, class CddlParser: what `merge_modifiers` leaves of an element's attributes.
use text.Mathlib.TextEquality.{eq_iff}
use zcbor.Prelude.{
  ◌≡◌, refl, sym, ◌∙◌, inl, inr, String, str_eq, Bool, true, false, ◌||◌, any_of, Bool-cases, List,
  [], ◌∷◌, ◌++◌, arith,
}
use zcbor.Outcome.{first_returns, ok, raised, Exception}
use zcbor.Elem.{Attrs}
use zcbor.Bounds.{add_modifier}
use zcbor.Flatten.{put_modifier, merge_modifier, merge_modifiers}

abbrev pub has_quantifier : Attrs → Bool
has_quantifier a = any_of (str_eq "quantifier") a.modifiers

any_of-append :
    (p : String → Bool) (xs ys : List String) → any_of p (xs ++ ys) ≡ (any_of p xs || any_of p ys)
any_of-append p [] ys = refl
any_of-append p (x ∷ xs) ys = ground (arith, any_of-append p xs ys)

-- What a merge of modifiers leaves alone, and what it says of the quantifier.
pub record Merged (ms : List String) (a b : Attrs) : Type 0 where
  pub same_kind : b.kind ≡ a.kind
  pub same_min : b.min_qty ≡ a.min_qty
  pub same_max : b.max_qty ≡ a.max_qty
  pub kept : has_quantifier b ≡ (any_of (str_eq "quantifier") ms || has_quantifier a)
  pub apart : any_of (str_eq "quantifier") ms ≡ true → has_quantifier a ≡ false

-- A modifier that is not the quantifier, left out or put last.
Merged-none :
    (m : String) (a b : Attrs) → b ≡ a → str_eq "quantifier" m ≡ false → Merged (m ∷ []) a b
Merged-none m a b e p = rw e (record {
  same_kind = refl;
  same_min = refl;
  same_max = refl;
  kept = rw p refl;
  apart = λ q. ground arith;
})

Merged-last :
    (m : String) (a b : Attrs)
    → b ≡ record a { modifiers = a.modifiers ++ m ∷ [] }
    → (str_eq "quantifier" m ≡ true → has_quantifier a ≡ false)
    → Merged (m ∷ []) a b
Merged-last m a b e p = rw e (record {
  same_kind = refl;
  same_min = refl;
  same_max = refl;
  kept = ground (arith, any_of-append (str_eq "quantifier") a.modifiers (m ∷ []));
  apart = λ q. p (ground arith);
})

other_name :
    (m n : String)
    → str_eq m n ≡ true
    → str_eq "quantifier" n ≡ false
    → str_eq "quantifier" m ≡ false
other_name m n h p = let e : m ≡ n = (eq_iff m n).0 h in rw e p

-- A modifier that is not there yet.
not_there :
    (m : String) (a : Attrs)
    → any_of (str_eq m) a.modifiers ≡ false
    → str_eq "quantifier" m ≡ true
    → has_quantifier a ≡ false
not_there m a h p = let e : "quantifier" ≡ m = (eq_iff "quantifier" m).0 p in rw e h

put-Merged :
    (m : String) (a b : Attrs)
    → put_modifier m a ≡ b
    → str_eq "quantifier" m ≡ false
    → Merged (m ∷ []) a b
unfolding put_modifier
put-Merged m a b h p = elim (Bool-cases (any_of (str_eq m) a.modifiers)) [
  | inl q ↦ Merged-none m a b (sym (rw (q, put_modifier) at h)) p
  | inr q ↦ Merged-last m a b (sym (rw (q, put_modifier) at h)) (λ r. ground arith)
]

add-Merged : (m : String) (a b : Attrs) → add_modifier m a ≡ ok b → Merged (m ∷ []) a b
unfolding add_modifier
add-Merged m a b h = elim (Bool-cases (any_of (str_eq m) a.modifiers)) [
  | inl q ↦ absurd (refused (rw (q, add_modifier) at h))
  | inr q ↦ Merged-last m a b (added (rw (q, add_modifier) at h)) (not_there m a q)
]
  where
    refused : raised Exception.parsing_error ≡ ok b → ⊥
    refused e = cc

    added :
        ok (record a { modifiers = a.modifiers ++ m ∷ [] }) ≡ ok b
        → b ≡ record a { modifiers = a.modifiers ++ m ∷ [] }
    added e = cc

one-Merged : (m : String) (a b : Attrs) → merge_modifier m a ≡ ok b → Merged (m ∷ []) a b
unfolding merge_modifier
one-Merged m a b h = elim (Bool-cases (str_eq m "value")) [
  | inl p ↦ Merged-none m a b (same_ok (rw (p, merge_modifier) at h)) (other_name m "value" p refl)
  | inr p ↦ elim (Bool-cases (str_eq m "tag")) [
    | inl q ↦ put-Merged m a b (put_ok (rw (p, q, merge_modifier) at h)) (other_name m "tag" q refl)
    | inr q ↦ add-Merged m a b (rw (p, q, merge_modifier) at h)
  ]
]
  where
    same_ok : ok a ≡ ok b → b ≡ a
    same_ok e = cc

    put_ok : ok (put_modifier m a) ≡ ok b → put_modifier m a ≡ b
    put_ok e = cc

pub all-Merged : (ms : List String) (a b : Attrs) → merge_modifiers ms a ≡ ok b → Merged ms a b
unfolding merge_modifiers
all-Merged [] a b h =
    let e : b ≡ a = cc in
    rw e
      (record { same_kind = refl; same_min = refl; same_max = refl; kept = refl; apart = λ p. cc })
all-Merged (m ∷ ms) a b h =
    let (mid, h1, h2) = first_returns (merge_modifier m a) (merge_modifiers ms) h in
    let one = one-Merged m a mid h1 in
    let rest = all-Merged ms mid b h2 in
    record {
      same_kind = rest.same_kind ∙ one.same_kind;
      same_min = rest.same_min ∙ one.same_min;
      same_max = rest.same_max ∙ one.same_max;
      kept = ground arith;
      apart = λ p. ground arith;
    }
