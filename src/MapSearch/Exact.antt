-- ===== src/MapSearch/Exact.antt =====
-- zcbor/zcbor.py, class CodeGenerator: `elem_needs_map_smart_search` answers as its specification does.
use zcbor.Prelude.{
  ℕ, zero, suc, ◌≡◌, refl, ◌⊎◌, inl, inr, String, Bool, true, false, not, ◌&&◌, ◌||◌,
}
use zcbor.Outcome.{Result, ok, raised, out_of_fuel, ◌>>=◌}
use zcbor.Outcome.Tells.{
  Tells, Tells-bool, Tells-false, Tells-fuel, Tells-iff, Tells-or, Tells-and, Tells-bind,
}
use zcbor.Elem.{
  Elem, Elems, no_elems, elems, Slot, absent, present, Cddl, attrs, key, cbor, kind, children,
  reference, resolve,
}
use zcbor.Unambiguous.{is_other, is_unambiguous_repeated}
use zcbor.Translator.Spec.{Among, here, there}
use zcbor.PostValidate.{is_list, is_map, is_parent}
use zcbor.MapSearch.{
  some_child, is_repeatable, has_open_key, is_searched, elem_needs_map_smart_search,
}
use zcbor.MapSearch.Spec.{IsSearched, Needs, itself, by_name, in_member, in_cbor}

some_child-Tells :
    (P : Elem → Type 0) (p : Elem → Result Bool)
    → ((c : Elem) → Tells (P c) (p c))
    → (cs : Elems) → Tells ((c : Elem) × Among c cs × P c) (some_child p cs)
unfolding some_child
some_child-Tells P p t no_elems = Tells-false (λ x. elim x.1 [ ])
some_child-Tells P p t (elems c cs) =
    Tells-iff (Tells-or (t c) (λ _. some_child-Tells P p t cs))
      (λ s. elim s [ inl x ↦ (c, here, x) | inr x ↦ (x.0, there x.1, x.2) ]) (λ x. back x.1 x.2)
  where
    back : {d : Elem} → Among d (elems c cs) → P d → P c ⊎ ((e : Elem) × Among e cs × P e)
    back here x = inl x
    back {d} (there a) x = inr (d, a, x)

module _ (cddl : Cddl) (unordered_maps : Bool) (is_entry : String → Bool) (g : ℕ) where
  flipped : (r : Result Bool) → Tells (r ≡ ok false) (r >>= λ b. ok (not b))
  flipped (ok true) = Tells-false (λ h. cc)
  flipped (ok false) = record { yes_holds = λ h. refl; no_fails = λ h. cc }
  flipped (raised e) = record { yes_holds = λ h. cc; no_fails = λ h. cc }
  flipped out_of_fuel = record { yes_holds = λ h. cc; no_fails = λ h. cc }

  has_open_key-Tells :
      (s : Slot)
      → Tells
          ((k : Elem) × (s ≡ present k) × (is_unambiguous_repeated cddl g k ≡ ok false))
          (has_open_key cddl g s)
  unfolding has_open_key
  has_open_key-Tells absent = Tells-false (λ x. no_key x.1)
    where
      no_key : {k : Elem} → ◌≡◌ {A = Slot} absent (present k) → ⊥
      no_key h = cc
  has_open_key-Tells (present k) =
      Tells-iff (flipped (is_unambiguous_repeated cddl g k)) (λ h. (k, refl, h)) (λ x. same x.1 x.2)
    where
      same :
          {l : Elem}
          → present k ≡ present l
          → is_unambiguous_repeated cddl g l ≡ ok false
          → is_unambiguous_repeated cddl g k ≡ ok false
      same {l} h q = let e : k ≡ l = cc in rw e q

  is_searched-Tells :
      (m : Bool) (e : Elem)
      → Tells
          (IsSearched cddl unordered_maps is_entry g m e)
          (is_searched cddl unordered_maps is_entry g m e)
  unfolding is_searched
  is_searched-Tells m e = Tells-and (Tells-bool (m && unordered_maps)) (λ _ _.
      Tells-or (Tells-bool (is_repeatable (attrs e).max_qty)) (λ _. has_open_key-Tells (key e)))

  -- The contents of a byte string.
  contents-Tells :
      (P : Elem → Type 0) (p : Elem → Result Bool)
      → ((c : Elem) → Tells (P c) (p c))
      → (s : Slot)
      → Tells ((c : Elem) × (s ≡ present c) × P c) (elim s [ absent ↦ ok false | present c ↦ p c ])
  contents-Tells P p t absent = Tells-false (λ x. no_contents x.1)
    where
      no_contents : {k : Elem} → ◌≡◌ {A = Slot} absent (present k) → ⊥
      no_contents h = cc
  contents-Tells P p t (present c) = Tells-iff (t c) (λ h. (c, refl, h)) (λ x. same x.1 x.2)
    where
      same : {d : Elem} → present c ≡ present d → P d → P c
      same {d} h q = let e : c ≡ d = cc in rw e q

  abbrev Sub : Bool → Elem → Type 0
  Sub m e = Needs cddl unordered_maps is_entry g m e

  -- The four ways to need the search.
  abbrev Ways : Bool → Elem → Type 0
  Ways m e =
      IsSearched cddl unordered_maps is_entry g m e
      ⊎ (((is_other (kind e) && (not (is_entry (reference e)) || m)) ≡ true)
          × ((t : Elem) × (resolve cddl e ≡ ok t) × Sub m t))
      ⊎ ((is_parent (kind e) ≡ true)
          × ((c : Elem) × Among c (children e)
              × Sub (not (is_list (kind e)) && (m || is_map (kind e))) c))
      ⊎ ((c : Elem) × (cbor e ≡ present c) × Sub false c)

  take_apart : {m : Bool} {e : Elem} → Sub m e → Ways m e
  take_apart (itself s) = inl s
  take_apart (by_name {t = t} p r n) = inr (inl (p, (t, r, n)))
  take_apart (in_member {c = c} p a n) = inr (inr (inl (p, (c, a, n))))
  take_apart (in_cbor {c = c} p n) = inr (inr (inr (c, p, n)))

  put_back : {m : Bool} {e : Elem} → Ways m e → Sub m e
  put_back (inl s) = itself s
  put_back (inr (inl (p, (t, r, n)))) = by_name p r n
  put_back (inr (inr (inl (p, (c, a, n))))) = in_member p a n
  put_back (inr (inr (inr (c, p, n)))) = in_cbor p n

  pub search-Tells :
      (f : ℕ) (m : Bool) (e : Elem)
      → Tells
          (Needs cddl unordered_maps is_entry g m e)
          (elem_needs_map_smart_search cddl unordered_maps is_entry g f m e)
  unfolding elem_needs_map_smart_search
  search-Tells zero m e = Tells-fuel
  search-Tells (suc f) m e =
      let inner : Bool = not (is_list (kind e)) && (m || is_map (kind e)) in
      Tells-iff
        (Tells-or (is_searched-Tells m e) (λ _.
          Tells-or
            (Tells-and (Tells-bool (is_other (kind e) && (not (is_entry (reference e)) || m)))
              (λ _ _. Tells-bind (Sub m) (resolve cddl e) (search-Tells f m)))
            (λ _.
              Tells-or
                (Tells-and (Tells-bool (is_parent (kind e))) (λ _ _.
                  some_child-Tells (Sub inner)
                    (elem_needs_map_smart_search cddl unordered_maps is_entry g f inner)
                    (search-Tells f inner) (children e)))
                (λ _.
                  contents-Tells (Sub false)
                    (elem_needs_map_smart_search cddl unordered_maps is_entry g f false)
                    (search-Tells f false) (cbor e)))))
        put_back take_apart
