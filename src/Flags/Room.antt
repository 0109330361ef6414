-- ===== src/Flags/Room.antt =====
-- zcbor/zcbor.py, class CodeGenerator: the flags that `_num_map_search_flags` counts for an element are enough for
-- each element in it.
use zcbor.Prelude.{
  ℕ, zero, suc, ◌+◌, ◌==◌, max, ◌≤◌, ◌≡◌, refl, ◌∙◌, Bool, true, false, List, [], ◌∷◌, map,
  if◌then◌else◌, arith,
}
use zcbor.Outcome.{Result, ok, Exception, first_returns, require, ◌>>=◌}
use zcbor.Elem.{
  Kind, Elem, Elems, no_elems, elems, Slot, absent, present, Cddl, key, cbor, kind, children,
  resolve,
}
use zcbor.Unambiguous.{is_other}
use zcbor.PostValidate.{is_parent}
use zcbor.Translator.Spec.{Among, here, there}
use zcbor.Expressions.{highest}
use zcbor.Backups.Held.{Inside, as_key, as_contents, as_member, as_type}
use zcbor.Flags.{
  Flags, Answers, multi_decode_w_backup_condition, with_key, with_cbor, with_contents, flags_of,
  in_map_below, deepest, most_unions, nest, longest_nested, each_empty, add_members, with_members,
  with_flags, with_type, times_max_qty, flags_by,
}
use zcbor.Flags.Limits.{numbers}

returned_nested : (t u : Flags ℕ) → ◌≡◌ {A = Result (Flags ℕ)} (ok t) (ok u) → t.nested ≡ u.nested
returned_nested t u h = cc

module _ (cddl : Cddl) (unordered_maps : Bool) (answers : Answers ℕ) where
  module _ (below : Bool → Elem → Result (Flags ℕ)) where
    -- The call on an element has returned no more nested flags than these.
    unfoldable pub Fits : ℕ → Elem → Type 0
    Fits n x = (m : Bool) × (r : Flags ℕ) × (below m x ≡ ok r) × (r.nested ≤ n)

    Fits-mono : {n l : ℕ} (x : Elem) → Fits n x → n ≤ l → Fits l x
    unfolding Fits
    Fits-mono x (m, r, p, q) h = (m, r, p, omega arith)

    -- The flags of the element in a slot are added.
    key-more :
        (m : Bool) (s : Slot) (t u : Flags ℕ)
        → with_key numbers answers cddl unordered_maps below m s t ≡ ok u
        → (t.nested ≤ u.nested) × ((x : Elem) → s ≡ present x → Fits u.nested x)
    unfolding with_key Fits
    key-more m absent t u h = let e = returned_nested t u h in (omega arith, λ x p. cc)
    key-more m (present k) t u h =
        let (r, p, h1) = first_returns (below m k) _ h in
        let (v, q, h2) = first_returns (require Exception.assertion_error (r.this == 0)) _ h1 in
        let e = returned_nested _ u h2 in
        (omega arith, λ x same. let k_x : k ≡ x = cc in (m, r, rw (← k_x) p, omega arith))

    cbor-more :
        (s : Slot) (t u : Flags ℕ)
        → with_cbor numbers answers cddl unordered_maps below s t ≡ ok u
        → (t.nested ≤ u.nested) × ((x : Elem) → s ≡ present x → Fits u.nested x)
    unfolding with_cbor Fits
    cbor-more absent t u h = cc
    cbor-more (present k) t u h =
        let (r, p, h1) = first_returns (below false k) _ h in
        let (v, q, h2) = first_returns (require Exception.assertion_error (r.this == 0)) _ h1 in
        let e = returned_nested _ u h2 in
        (omega arith, λ x same. let k_x : k ≡ x = cc in (false, r, rw (← k_x) p, omega arith))

    contents-more :
        (e : Elem) (t u : Flags ℕ)
        → with_contents numbers answers cddl unordered_maps below e t ≡ ok u
        → (t.nested ≤ u.nested)
          × ((x : Elem)
              → answers.cbor_var_condition e ≡ ok true
              → cbor e ≡ present x
              → Fits u.nested x)
    unfolding with_contents
    contents-more e t u h =
        let (b, p, h1) = first_returns (answers.cbor_var_condition e) _ h in chosen b p h1
      where
        chosen :
            (b : Bool)
            → answers.cbor_var_condition e ≡ ok b
            → (if b then with_cbor numbers answers cddl unordered_maps below (cbor e) t else ok t)
              ≡ ok u
            → (t.nested ≤ u.nested)
              × ((x : Elem)
                  → answers.cbor_var_condition e ≡ ok true
                  → cbor e ≡ present x
                  → Fits u.nested x)
        chosen true p h = let (more, fits) = cbor-more (cbor e) t u h in (more, λ x q r. fits x r)
        chosen false p h = let e = returned_nested t u h in (omega arith, λ x q r. cc)

    flags_of-In :
        (m : Bool) {c : Elem} {cs : Elems} (rs : List (Flags ℕ))
        → Among c cs
        → flags_of numbers answers cddl unordered_maps below m cs ≡ ok rs
        → Fits (highest (map (λ r. r.nested) rs)) c
    unfolding flags_of Fits
    flags_of-In m {cs = no_elems} rs a h = elim a [ ]
    flags_of-In m {c} {cs = elems d cs} rs here h =
        let (r, p, h1) = first_returns (below m d) _ h in
        let (qs, q, h2) =
          first_returns (flags_of numbers answers cddl unordered_maps below m cs) _ h1 in
        let e : rs ≡ r ∷ qs = cc in (m, r, p, rw (e) (omega arith))
    flags_of-In m {c} {cs = elems d cs} rs (there a) h =
        let (r, p, h1) = first_returns (below m d) _ h in
        let (qs, q, h2) =
          first_returns (flags_of numbers answers cddl unordered_maps below m cs) _ h1 in
        let e : rs ≡ r ∷ qs = cc in Fits-mono c (flags_of-In m qs a q) (rw (e) (omega arith))

    nest-more :
        (flags multiplier : ℕ) (t : Flags ℕ)
        → t.nested ≤ (nest numbers answers cddl unordered_maps below flags multiplier t).nested
    nest-more flags multiplier t = chosen (flags == 0) unordered_maps
      where
        chosen :
            (z b : Bool)
            → t.nested
              ≤ (if z then t else record t {
                nested =
                    numbers.sum (
                      t.nested
                      ∷ (if b then numbers.mult (flags ∷ multiplier ∷ []) else flags)
                      ∷ []);
              }).nested
        chosen true b = omega arith
        chosen false b = omega arith

    -- The nested flags of the members are among those that are compared.
    members-more :
        (k : Kind) (e : Elem) (rs : List (Flags ℕ)) (t u : Flags ℕ)
        → add_members numbers answers cddl unordered_maps below k e rs t ≡ ok u
        → max t.nested (highest (map (λ r. r.nested) rs)) ≤ u.nested
    unfolding add_members
    members-more k e [] t u h = cc
    members-more Kind.map e (r ∷ rs) t u h =
        let longest : Flags ℕ =
          longest_nested numbers answers cddl unordered_maps below (r ∷ rs) t in
        let flags : ℕ = numbers.round_up (numbers.sum (map (λ q. q.this) (r ∷ rs))) in
        let multiplier : ℕ = 1 + deepest (r ∷ rs) + most_unions (r ∷ rs) in
        let e =
          returned_nested (nest numbers answers cddl unordered_maps below flags multiplier longest)
            u h in
        let more = nest-more flags multiplier longest in omega arith
    members-more Kind.list e (r ∷ rs) t u h =
        let (v, q, h1) =
          first_returns (require Exception.assertion_error (each_empty numbers (r ∷ rs))) _ h in
        let e = returned_nested _ u h1 in omega arith
    members-more Kind.group e (r ∷ rs) t u h = let e = returned_nested _ u h in omega arith
    members-more k e (r ∷ rs) t u h =
        let (b, q, h1) = first_returns (answers.implicit_union_condition e) _ h in
        let e = returned_nested _ u h1 in omega arith

    parent-more :
        (m : Bool) (e : Elem) (t u : Flags ℕ)
        → with_members numbers answers cddl unordered_maps below m e t ≡ ok u
        → (t.nested ≤ u.nested)
          × ((x : Elem) → is_parent (kind e) ≡ true → Among x (children e) → Fits u.nested x)
    unfolding with_members
    parent-more m e t u h = chosen (is_parent (kind e)) h
      where
        chosen :
            (b : Bool)
            → (if b
                then (flags_of numbers answers cddl unordered_maps below
                      (in_map_below m (kind e))
                      (children e)
                    >>= λ rs. add_members numbers answers cddl unordered_maps below (kind e) e rs t)
                else ok t)
              ≡ ok u
            → (t.nested ≤ u.nested)
              × ((x : Elem) → b ≡ true → Among x (children e) → Fits u.nested x)
        chosen false h = let same = returned_nested t u h in (omega arith, λ x p a. cc)
        chosen true h =
            let (rs, p, h1) =
              first_returns
                (flags_of numbers answers cddl unordered_maps below (in_map_below m (kind e))
                  (children e))
                _ h in
            let more = members-more (kind e) e rs t u h1 in
            (
              omega arith,
              λ x q a. Fits-mono x (flags_of-In (in_map_below m (kind e)) rs a p) (omega arith),
            )

    type-more :
        (m : Bool) (e : Elem) (t u : Flags ℕ)
        → with_type numbers answers cddl unordered_maps below m e t ≡ ok u
        → (t.nested ≤ u.nested)
          × ((x : Elem) → is_other (kind e) ≡ true → resolve cddl e ≡ ok x → Fits u.nested x)
    unfolding with_type Fits
    type-more m e t u h = chosen (is_other (kind e)) h
      where
        chosen :
            (b : Bool)
            → (if b
                then (resolve cddl e >>= λ d. below m d >>= λ r. ok (with_flags numbers t r))
                else ok t)
              ≡ ok u
            → (t.nested ≤ u.nested)
              × ((x : Elem) → b ≡ true → resolve cddl e ≡ ok x → Fits u.nested x)
        chosen false h = let same = returned_nested t u h in (omega arith, λ x p a. cc)
        chosen true h =
            let (d, p, h1) = first_returns (resolve cddl e) _ h in
            let (r, q, h2) = first_returns (below m d) _ h1 in
            let same = returned_nested (with_flags numbers t r) u h2 in
            (omega arith, λ x b a. let d_x : d ≡ x = cc in (m, r, rw (← d_x) q, omega arith))

    times-nested :
        (e : Elem) (t u : Flags ℕ)
        → times_max_qty numbers answers cddl unordered_maps below e t ≡ ok u
        → t.nested ≡ u.nested
    unfolding times_max_qty
    times-nested e t u h =
        let (q, p, h1) = first_returns (answers.val_define_name_or_lit _ e) _ h in
        unchanged t.nested ∙ returned_nested _ u h1
      where
        unchanged : (n : ℕ) → n ≡ (if n == 0 then 0 else n)
        unchanged zero = refl
        unchanged (suc n) = ground arith

    -- What is inside an element fits.
    pub flags_by-Fits :
        (m : Bool) (e x : Elem) (u : Flags ℕ) (multi : Elem → Result Bool)
        → flags_by numbers answers cddl unordered_maps below m e ≡ ok u
        → Inside cddl answers.cbor_var_condition multi e x
        → Fits u.nested x
    unfolding flags_by
    flags_by-Fits m e x u multi h i =
        let (b, p0, h0) =
          first_returns (multi_decode_w_backup_condition numbers answers cddl unordered_maps e) _
            h in
        let (t1, p1, h1) =
          first_returns (with_key numbers answers cddl unordered_maps below m (key e) _) _ h0 in
        let (t2, p2, h2) =
          first_returns (with_contents numbers answers cddl unordered_maps below e t1) _ h1 in
        let (t3, p3, h3) =
          first_returns (with_members numbers answers cddl unordered_maps below m e t2) _ h2 in
        let (t4, p4, h4) =
          first_returns (with_type numbers answers cddl unordered_maps below m e t3) _ h3 in
        let (k, in_key) = key-more m (key e) _ t1 p1 in
        let (c, in_cbor) = contents-more e t1 t2 p2 in
        let (l, in_members) = parent-more m e t2 t3 p3 in
        let (y, in_type) = type-more m e t3 t4 p4 in
        let same = times-nested e t4 u h4 in
        elim i [
          | as_key q ↦ Fits-mono x (in_key x q) (omega arith)
          | as_contents q r ↦ Fits-mono x (in_cbor x q r) (omega arith)
          | as_member q a ↦ Fits-mono x (in_members x q a) (omega arith)
          | as_type q r ↦ Fits-mono x (in_type x q r) (omega arith)
        ]
