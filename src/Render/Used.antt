-- ===== src/Render/Used.antt =====
-- zcbor/zcbor.py, class CodeRenderer: which functions `used_funcs` keeps.
use text.Mathlib.TextLemmas.{append-nil as str_append-nil, append_assoc as str_append_assoc}
use mathlib.Core.List.{reverse-append, reverse-reverse, reverse-cons}
use Prim.Native.String as String
use Prim.Native.String.append
use zcbor.Prelude.{
  String, ◌≡◌, ◌⊎◌, inl, inr, refl, sym, ◌∙◌, ap, Bool, true, false, not, ◌&&◌, Bool-cases, any_of,
  In, In-append_left, In-append_right, In-append_cases, List, [], ◌∷◌, ◌++◌, reverse, append_assoc,
  append-nil, arith,
}
use zcbor.Render.{Xcoder, join, bodies, same_tuple, used_from, used_funcs}

-- The code of all, as `full_code` has it.
abbrev pub text_of : List Xcoder → String
text_of fs = join (bodies fs)

text_of-snoc :
    (fs : List Xcoder) (f : Xcoder) → text_of (fs ++ f ∷ []) ≡ String.◌++◌ (text_of fs) f.body
text_of-snoc [] f = str_append-nil f.body ∙ sym (append.nil f.body)
text_of-snoc (g ∷ fs) f =
    ap (λ t. String.◌++◌ g.body t) (text_of-snoc fs f)
    ∙ sym (str_append_assoc g.body (text_of fs) f.body)

-- A member's code stands in the text of all.
text_of-In :
    (fs : List Xcoder) (g : Xcoder)
    → In g fs
    → (before after : String) × (text_of fs ≡ String.◌++◌ before (String.◌++◌ g.body after))
text_of-In [] g i = absurd i
text_of-In (f ∷ fs) g (inl e) = (
  "",
  text_of fs,
  ap (λ h. String.◌++◌ h.body (text_of fs)) (sym e)
      ∙ sym (append.nil (String.◌++◌ g.body (text_of fs))),
)
text_of-In (f ∷ fs) g (inr i) =
    let (before, after, p) = text_of-In fs g i in
    (
      String.◌++◌ f.body before,
      after,
      ap (λ t. String.◌++◌ f.body t) p
          ∙ sym (str_append_assoc f.body before (String.◌++◌ g.body after)),
    )

In-reverse : {A : Type 0} (a : A) (xs : List A) → In a xs → In a (reverse xs)
In-reverse a [] i = absurd i
In-reverse a (x ∷ xs) (inl e) =
    rw (reverse-cons x xs) (In-append_right a (reverse xs) (x ∷ []) (inl e))
In-reverse a (x ∷ xs) (inr i) =
    rw (reverse-cons x xs) (In-append_left a (reverse xs) (x ∷ []) (In-reverse a xs i))

module _ (called : String → String → Bool) (entries : List Xcoder) where
  abbrev run : List Xcoder → List Xcoder → List Xcoder
  run fs out = used_from called entries fs (text_of out) out

  run-true :
      (f : Xcoder) (fs out : List Xcoder)
      → (not (any_of (same_tuple f) entries) && called f.func_name (text_of out)) ≡ true
      → run (f ∷ fs) out ≡ run fs (out ++ f ∷ [])
  unfolding used_from
  run-true f fs out h =
      rw (h, used_from)
        (ap (λ t. used_from called entries fs t (out ++ f ∷ [])) (sym (text_of-snoc out f)))

  run-false :
      (f : Xcoder) (fs out : List Xcoder)
      → (not (any_of (same_tuple f) entries) && called f.func_name (text_of out)) ≡ false
      → run (f ∷ fs) out ≡ run fs out
  unfolding used_from
  run-false f fs out h = rw (h, used_from) refl

  -- The loop over a list is the loop over its first part and then over the rest.
  run-append : (fs gs out : List Xcoder) → run (fs ++ gs) out ≡ run gs (run fs out)
  run-append [] gs out = unfold used_from in refl
  run-append (f ∷ fs) gs out =
      elim (Bool-cases (not (any_of (same_tuple f) entries) && called f.func_name (text_of out))) [
        | inl h ↦
            run-true f (fs ++ gs) out h
            ∙ run-append fs gs (out ++ f ∷ [])
            ∙ ap (run gs) (sym (run-true f fs out h))
        | inr h ↦
            run-false f (fs ++ gs) out h
            ∙ run-append fs gs out
            ∙ ap (run gs) (sym (run-false f fs out h))
      ]

  run-keeps : (fs out : List Xcoder) (g : Xcoder) → In g out → In g (run fs out)
  run-keeps [] out g i = unfold used_from in i
  run-keeps (f ∷ fs) out g i =
      elim (Bool-cases (not (any_of (same_tuple f) entries) && called f.func_name (text_of out))) [
        | inl h ↦
            rw (run-true f fs out h)
              (run-keeps fs (out ++ f ∷ []) g (In-append_left g out (f ∷ []) i))
        | inr h ↦ rw (run-false f fs out h) (run-keeps fs out g i)
      ]

  -- A function that the kept code calls is added.
  run-adds :
      (f g : Xcoder) (fs gs : List Xcoder)
      → ((name before after : String)
          → called name g.body ≡ true
          → called name (String.◌++◌ before (String.◌++◌ g.body after)) ≡ true)
      → any_of (same_tuple f) entries ≡ false
      → called f.func_name g.body ≡ true
      → In g (run fs entries)
      → In f (run (fs ++ f ∷ gs) entries)
  run-adds f g fs gs wider new calls i =
      let out = run fs entries in
      let (before, after, text) = text_of-In out g i in
      let seen : called f.func_name (text_of out) ≡ true =
        rw text (wider f.func_name before after calls) in
      let test : (not (any_of (same_tuple f) entries) && called f.func_name (text_of out)) ≡ true =
        rw (new, seen) refl in
      rw (run-append fs (f ∷ gs) entries, run-true f gs out test)
        (run-keeps gs (out ++ f ∷ []) f (In-append_right f out (f ∷ []) (inl refl)))

  run-extends : (fs out : List Xcoder) → (extra : List Xcoder) × (run fs out ≡ out ++ extra)
  run-extends [] out = ([], unfold used_from in sym (append-nil out))
  run-extends (f ∷ fs) out =
      elim (Bool-cases (not (any_of (same_tuple f) entries) && called f.func_name (text_of out))) [
        | inl h ↦
            let (extra, p) = run-extends fs (out ++ f ∷ []) in
            (f ∷ extra, run-true f fs out h ∙ p ∙ append_assoc out (f ∷ []) extra)
        | inr h ↦ let (extra, p) = run-extends fs out in (extra, run-false f fs out h ∙ p)
      ]

  -- The code kept before the function calls it.
  abbrev pub IsCalled : List Xcoder → Xcoder → Type 0
  IsCalled out f =
      (before : List Xcoder) × (after : List Xcoder) × (out ≡ before ++ f ∷ after)
      × (called f.func_name (text_of before) ≡ true)

  run-from :
      (fs out : List Xcoder) (f : Xcoder)
      → In f (run fs out)
      → In f out ⊎ (In f fs × IsCalled (run fs out) f)
  run-from [] out f i = inl (unfold used_from in i)
  run-from (g ∷ fs) out f i =
      elim (Bool-cases (not (any_of (same_tuple g) entries) && called g.func_name (text_of out))) [
        | inr h ↦ elim (run-from fs out f (rw (run-false g fs out h) at i)) [
          | inl j ↦ inl j
          | inr (j, k) ↦ inr (inr j, rw (run-false g fs out h) k)
        ]
        | inl h ↦ elim (run-from fs (out ++ g ∷ []) f (rw (run-true g fs out h) at i)) [
          | inr (j, k) ↦ inr (inr j, rw (run-true g fs out h) k)
          | inl j ↦ elim (In-append_cases f out (g ∷ []) j) [
            | inl k ↦ inl k
            | inr k ↦ inr (added h (elim k [ inl p ↦ p | inr l ↦ absurd l ]))
          ]
        ]
      ]
    where
      added :
          (not (any_of (same_tuple g) entries) && called g.func_name (text_of out)) ≡ true
          → f ≡ g
          → In f (g ∷ fs) × IsCalled (run (g ∷ fs) out) f
      added h p =
          let (extra, q) = run-extends fs (out ++ g ∷ []) in
          rw p (
            inl refl,
            (
              out,
              extra,
              run-true g fs out h ∙ q ∙ append_assoc out (g ∷ []) extra,
              second (not (any_of (same_tuple g) entries)) (called g.func_name (text_of out)) h,
            ),
          )
        where
          second : (b c : Bool) → (b && c) ≡ true → c ≡ true
          second b c h = ground arith

-- `used_funcs` keeps the entry functions. It keeps a function that is not one of them if it calls it in
-- the code of a function kept among those that come after it, given that a name that is found in a text
-- is found in a longer one. And what it keeps else is called by the code of the functions that
-- were kept when it was reached.
pub used_funcs-IsClosed :
    (called : String → String → Bool) (entries functions : List Xcoder)
    → ((name text before after : String)
        → called name text ≡ true
        → called name (String.◌++◌ before (String.◌++◌ text after)) ≡ true)
    → ((f : Xcoder) → In f entries → In f (used_funcs called entries functions))
      × ((f g : Xcoder) (earlier later : List Xcoder)
          → functions ≡ earlier ++ f ∷ later
          → In g (used_funcs called entries later)
          → any_of (same_tuple f) entries ≡ false
          → called f.func_name g.body ≡ true
          → In f (used_funcs called entries functions))
      × ((f : Xcoder)
          → In f (used_funcs called entries functions)
          → In f entries
            ⊎ (In f functions
                × IsCalled called entries (reverse (used_funcs called entries functions)) f))
unfolding used_funcs
used_funcs-IsClosed called entries functions wider = (
  λ f i. In-reverse f _ (run-keeps called entries (reverse functions) entries f i),
  λ f g earlier later split kept new calls.
      In-reverse f (used_from called entries (reverse functions) (text_of entries) entries) (
        rw
          (
            split,
            reverse-append earlier (f ∷ later),
            reverse-cons f later,
            append_assoc (reverse later) (f ∷ []) (reverse earlier),
          )
          (run-adds called entries f g (reverse later) (reverse earlier)
            (λ name before after. wider name g.body before after) new calls (unreverse g _ kept))),
  λ f i.
      rw (reverse-reverse (used_from called entries (reverse functions) (text_of entries) entries))
        (elim (run-from called entries (reverse functions) entries f (unreverse f _ i)) [
          | inl j ↦ inl j
          | inr (j, k) ↦ inr (unreverse f functions j, k)
        ]),
)
  where
    unreverse : (f : Xcoder) (fs : List Xcoder) → In f (reverse fs) → In f fs
    unreverse f fs i = rw (reverse-reverse fs) at (In-reverse f (reverse fs) i)
