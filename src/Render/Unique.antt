-- ===== src/Render/Unique.antt =====
-- zcbor/zcbor.py, class CodeRenderer: `unique_types`, `unique_funcs` and `used_defines` keep one entry for
-- each name.
use text.Mathlib.TextEquality.{eq_iff}
use zcbor.Prelude.{
  String, str_eq, ◌≡◌, ◌≢◌, ◌⊎◌, inl, inr, refl, sym, ◌∙◌, ap, Bool, true, Bool-cases, Option-cases,
  All, In, In-append_left, In-append_right, In-append_cases, none, some, List, [], ◌∷◌, ◌++◌, arith,
  append_assoc, append-nil,
}
use zcbor.Outcome.{first_returns, ok, raised, Exception, require, ◌>>◌}
use zcbor.Render.{
  TypeDef, Xcoder, join, bodies, named, add, add_all, add_each, same_type, unique_types, same_func,
  unique_funcs, is_used, filter_used, same_define, chosen_defines,
}

abbrev pub concat : {A : Type 0} → List (List A) → List A
concat [] = []
concat (xs ∷ xss) = xs ++ concat xss

-- Any two entries have different names.
abbrev pub IsUnique : {A : Type 0} → (A → String) → List A → Type 0
IsUnique name [] = Unit
IsUnique name (x ∷ xs) = All (λ y. name x ≢ name y) xs × IsUnique name xs

module _ {A : Type 0} (name : A → String) (same : A → A → Bool) (e : Exception)
    (same_refl : (x : A) → same x x ≡ true) where
  named-append :
      (n : String) (xs : List A) (x : A)
      → named name n xs ≡ none
      → name x ≡ n
      → named name n (xs ++ x ∷ []) ≡ some x
  unfolding named
  named-append n [] x h p = let q : str_eq (name x) n ≡ true = (eq_iff (name x) n).1 p in rw q refl
  named-append n (y ∷ xs) x h p = elim (Bool-cases (str_eq (name y) n)) [
    | inl same_name ↦ absurd (ground arith)
    | inr other ↦ rw other (named-append n xs x (ground arith) p)
  ]

  named-keeps :
      (n : String) (xs ys : List A) (y : A)
      → named name n xs ≡ some y
      → named name n (xs ++ ys) ≡ some y
  unfolding named
  named-keeps n [] ys y h = cc
  named-keeps n (x ∷ xs) ys y h = ground (arith, named-keeps n xs ys y)

  named-none : (n : String) (xs : List A) → named name n xs ≡ none → All (λ y. name y ≢ n) xs
  unfolding named
  named-none n [] h = tt
  named-none n (x ∷ xs) h = (λ p. ground (arith, eq_iff (name x) n), named-none n xs (ground arith))

  IsUnique-snoc :
      (xs : List A) (x : A)
      → IsUnique name xs
      → All (λ y. name y ≢ name x) xs
      → IsUnique name (xs ++ x ∷ [])
  IsUnique-snoc [] x u a = (tt, tt)
  IsUnique-snoc (y ∷ xs) x u a = (All-snoc xs (u.0) (a.0), IsUnique-snoc xs x u.1 a.1)
    where
      All-snoc :
          (zs : List A)
          → All (λ z. name y ≢ name z) zs
          → name y ≢ name x
          → All (λ z. name y ≢ name z) (zs ++ x ∷ [])
      All-snoc [] h p = (p, tt)
      All-snoc (z ∷ zs) h p = (h.0, All-snoc zs h.1 p)

  -- What one more entry leaves: the result, how it extends what was there, and where the entry is.
  record Added (x : A) (out out' : List A) : Type 0 where
    extra : List A
    extends : out' ≡ out ++ extra
    found : (y : A) × (named name (name x) out' ≡ some y) × (same y x ≡ true)
    unique : IsUnique name out → IsUnique name out'
    from : (y : A) → In y out' → In y out ⊎ (y ≡ x)

  add-Added : (x : A) (out out' : List A) → add name same e x out ≡ ok out' → Added x out out'
  unfolding add
  add-Added x out out' h = elim (Option-cases (named name (name x) out)) [
    | inl new ↦ fresh new (rw (new, add) at h)
    | inr (y, old) ↦ known y old (rw (old, add) at h)
  ]
    where
      fresh : named name (name x) out ≡ none → ok (out ++ x ∷ []) ≡ ok out' → Added x out out'
      fresh new p =
          let q : out' ≡ out ++ x ∷ [] = cc in
          rw q (record {
            extra = x ∷ [];
            extends = refl;
            found = (x, named-append (name x) out x new refl, same_refl x);
            unique = λ u. IsUnique-snoc out x u (named-none (name x) out new);
            from = λ y i. elim (In-append_cases y out (x ∷ []) i) [
              | inl j ↦ inl j
              | inr j ↦ inr (elim j [ inl r ↦ r | inr r ↦ absurd r ])
            ];
          })

      known :
          (y : A)
          → named name (name x) out ≡ some y
          → (require e (same y x) >> ok out) ≡ ok out'
          → Added x out out'
      known y old p = elim (Bool-cases (same y x)) [
        | inr differs ↦ absurd (refused (rw differs at p))
        | inl equal ↦
            let q : ok out ≡ ok out' = rw equal at p in
            let r : out' ≡ out = cc in
            rw r (record {
              extra = [];
              extends = sym (append-nil out);
              found = (y, old, equal);
              unique = λ u. u;
              from = λ z i. inl i;
            })
      ]
        where
          refused : (raised e >> ok out) ≡ ok out' → ⊥
          refused q = cc

  -- What a run of the loops leaves: each name once, an entry for each that was read, and no other.
  pub record Kept (xs out out' : List A) : Type 0 where
    pub extra : List A
    pub extends : out' ≡ out ++ extra
    pub found :
        (x : A) → In x xs → (y : A) × (named name (name x) out' ≡ some y) × (same y x ≡ true)
    pub unique : IsUnique name out → IsUnique name out'
    pub from : (y : A) → In y out' → In y out ⊎ In y xs

  Kept-none : (out : List A) → Kept [] out out
  Kept-none out = record {
    extra = [];
    extends = sym (append-nil out);
    found = λ x i. absurd i;
    unique = λ u. u;
    from = λ y i. inl i;
  }

  Kept-trans : (xs ys a b c : List A) → Kept xs a b → Kept ys b c → Kept (xs ++ ys) a c
  Kept-trans xs ys a b c h k = record {
    extra = h.extra ++ k.extra;
    extends = k.extends ∙ ap (λ l. l ++ k.extra) h.extends ∙ append_assoc a h.extra k.extra;
    found = λ x i. elim (In-append_cases x xs ys i) [
      | inl j ↦
          let (y, p, q) = h.found x j in
          (y, ap (named name (name x)) k.extends ∙ named-keeps (name x) b k.extra y p, q)
      | inr j ↦ k.found x j
    ];
    unique = λ u. k.unique (h.unique u);
    from = λ y i. elim (k.from y i) [
      | inr j ↦ inr (In-append_right y xs ys j)
      | inl j ↦ elim (h.from y j) [ inl l ↦ inl l | inr l ↦ inr (In-append_left y xs ys l) ]
    ];
  }

  add-Kept : (x : A) (out out' : List A) → Added x out out' → Kept (x ∷ []) out out'
  add-Kept x out out' h = record {
    extra = h.extra;
    extends = h.extends;
    found =
        λ z i. elim i [ inl p ↦ let (y, q, r) = h.found in (y, rw p q, rw p r) | inr i ↦ absurd i ];
    unique = h.unique;
    from = λ y i. elim (h.from y i) [ inl j ↦ inl j | inr p ↦ inr (inl p) ];
  }

  add_all-Kept : (xs out out' : List A) → add_all name same e xs out ≡ ok out' → Kept xs out out'
  unfolding add_all
  add_all-Kept [] out out' h = let p : out' ≡ out = cc in rw p (Kept-none out)
  add_all-Kept (x ∷ xs) out out' h =
      let (mid, p, q) = first_returns (add name same e x out) _ h in
      Kept-trans (x ∷ []) xs out mid out' (add-Kept x out mid (add-Added x out mid p))
        (add_all-Kept xs mid out' q)

  add_each-Kept :
      (xss : List (List A)) (out out' : List A)
      → add_each name same e xss out ≡ ok out'
      → Kept (concat xss) out out'
  unfolding add_each
  add_each-Kept [] out out' h = let p : out' ≡ out = cc in rw p (Kept-none out)
  add_each-Kept (xs ∷ xss) out out' h =
      let (mid, p, q) = first_returns (add_all name same e xs out) _ h in
      Kept-trans xs (concat xss) out mid out' (add_all-Kept xs out mid p)
        (add_each-Kept xss mid out' q)

  named-In : (n : String) (xs : List A) (y : A) → named name n xs ≡ some y → In y xs × (name y ≡ n)
  unfolding named
  named-In n [] y h = cc
  named-In n (x ∷ xs) y h = elim (Bool-cases (str_eq (name x) n)) [
    | inl here ↦ (inl (ground arith), ground (arith, eq_iff (name x) n))
    | inr other ↦ let (i, p) = named-In n xs y (ground arith) in (inr i, p)
  ]

  -- Entries of one name stand for the same.
  abbrev pub Agree : List A → Type 0
  Agree zs = (x y : A) → In x zs → In y zs → name y ≡ name x → same y x ≡ true

  module _ (zs : List A) (agree : Agree zs) where
    abbrev Inside : List A → Type 0
    Inside xs = (x : A) → In x xs → In x zs

    add-ok :
        (x : A) (out : List A)
        → In x zs
        → Inside out
        → (out' : List A) × (add name same e x out ≡ ok out') × Inside out'
    unfolding add
    add-ok x out i inside = elim (Option-cases (named name (name x) out)) [
      | inl new ↦ (
        out ++ x ∷ [],
        rw (new, add) refl,
        λ y j. elim (In-append_cases y out (x ∷ []) j) [
          | inl k ↦ inside y k
          | inr k ↦ elim k [ inl p ↦ rw p i | inr l ↦ absurd l ]
        ],
      )
      | inr (y, old) ↦
          let (j, p) = named-In (name x) out y old in
          let equal : same y x ≡ true = agree x y i (inside y j) p in
          (out, rw (old, add, equal) refl, inside)
    ]

    add_all-ok :
        (xs out : List A)
        → Inside xs
        → Inside out
        → (out' : List A) × (add_all name same e xs out ≡ ok out') × Inside out'
    unfolding add_all
    add_all-ok [] out i o = (out, refl, o)
    add_all-ok (x ∷ xs) out i o =
        let (mid, p, m) = add-ok x out (i x (inl refl)) o in
        let (out', q, o') = add_all-ok xs mid (λ y j. i y (inr j)) m in (out', rw p q, o')

    add_each-ok :
        (xss : List (List A)) (out : List A)
        → Inside (concat xss)
        → Inside out
        → (out' : List A) × (add_each name same e xss out ≡ ok out')
    unfolding add_each
    add_each-ok [] out i o = (out, refl)
    add_each-ok (xs ∷ xss) out i o =
        let (mid, p, m) = add_all-ok xs out (λ y j. i y (In-append_left y xs (concat xss) j)) o in
        let (out', q) = add_each-ok xss mid (λ y j. i y (In-append_right y xs (concat xss) j)) m in
        (out', rw p q)

str_refl : (s : String) → str_eq s s ≡ true
str_refl s = (eq_iff s s).1 refl

-- The entries that are kept for those that were read: each name once, for each that was read one of its
-- name that stands for the same, and none that was not read.
pub record IsIndex {A : Type 0} (name : A → String) (same : A → A → Type 0) (xs out : List A)
    : Type 0 where
  pub unique : IsUnique name out
  pub found : (x : A) → In x xs → (y : A) × In y out × (name y ≡ name x) × same y x
  pub from : (y : A) → In y out → In y xs

Kept-IsIndex :
    {A : Type 0} (name : A → String) (same : A → A → Bool) (e : Exception)
    (same_refl : (x : A) → same x x ≡ true) (xs out : List A)
    → Kept name same e same_refl xs [] out
    → IsIndex name (λ x y. same x y ≡ true) xs out
Kept-IsIndex name same e r xs out h = record {
  unique = h.unique tt;
  found = λ x i.
      let (y, p, q) = h.found x i in
      let (j, n) = named-In name same e r (name x) out y p in (y, j, n, q);
  from = λ y i. elim (h.from y i) [ inl j ↦ absurd j | inr j ↦ j ];
}

-- Where `unique_types` returns, the typedefs have different names, each is one of those that were read,
-- and each that was read has one of its name with the same text among them. And `unique_types`
-- returns where typedefs of one name have one text.
pub unique_types-IsIndex :
    (defs : List (List TypeDef))
    → ((out : List TypeDef)
        → unique_types defs ≡ ok out
        → IsIndex (λ t. t.type_name) (λ s t. same_type s t ≡ true) (concat defs) out)
      × (((s t : TypeDef)
            → In s (concat defs)
            → In t (concat defs)
            → t.type_name ≡ s.type_name
            → join t.lines ≡ join s.lines)
          → (out : List TypeDef) × (unique_types defs ≡ ok out))
unfolding unique_types
unique_types-IsIndex defs = (
  λ out h.
      Kept-IsIndex _ same_type Exception.assertion_error (λ t. str_refl (join t.lines))
        (concat defs) out
        (add_each-Kept _ same_type Exception.assertion_error (λ t. str_refl (join t.lines)) defs []
          out h),
  λ agree.
      add_each-ok (λ t. t.type_name) same_type Exception.assertion_error
        (λ t. str_refl (join t.lines)) (concat defs)
        (λ s t i j p. (eq_iff (join t.lines) (join s.lines)).1 (agree s t i j p)) defs [] (λ x i. i)
        (λ x i. absurd i),
)

-- Where `unique_funcs` returns, the functions have different names, each is one of those that were read,
-- and each that was read has one of its name with the same code among them. And `unique_funcs` returns
-- where functions of one name have one code.
pub unique_funcs-IsIndex :
    (xcoders : List (List Xcoder))
    → ((out : List Xcoder)
        → unique_funcs xcoders ≡ ok out
        → IsIndex (λ f. f.func_name) (λ f g. same_func f g ≡ true) (concat xcoders) out)
      × (((f g : Xcoder)
            → In f (concat xcoders)
            → In g (concat xcoders)
            → g.func_name ≡ f.func_name
            → g.body ≡ f.body)
          → (out : List Xcoder) × (unique_funcs xcoders ≡ ok out))
unfolding unique_funcs
unique_funcs-IsIndex xss = (
  λ out h.
      Kept-IsIndex _ same_func Exception.assertion_error (λ f. str_refl f.body) (concat xss) out
        (add_each-Kept _ same_func Exception.assertion_error (λ f. str_refl f.body) xss [] out h),
  λ agree.
      add_each-ok (λ f. f.func_name) same_func Exception.assertion_error (λ f. str_refl f.body)
        (concat xss) (λ f g i j p. (eq_iff g.body f.body).1 (agree f g i j p)) xss [] (λ x i. i)
        (λ x i. absurd i),
)

-- Where `used_defines` chooses, the defines that it chooses have different names, each is one that is
-- used, and each that is used has one of its name with the same body among them.
pub chosen_defines-IsIndex :
    (functions : List Xcoder) (defines out : List (String × String))
    → chosen_defines functions defines ≡ ok out
    → IsIndex
        (λ d. d.0)
        (λ a b. same_define a b ≡ true)
        (filter_used (is_used (join (bodies functions))) defines)
        out
unfolding chosen_defines
chosen_defines-IsIndex functions defines out h =
    Kept-IsIndex _ same_define Exception.value_error (λ d. str_refl d.1) _ out
      (add_all-Kept _ same_define Exception.value_error (λ d. str_refl d.1) _ [] out h)
