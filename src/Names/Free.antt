-- ===== src/Names/Free.antt =====
-- zcbor/zcbor.py: no variable is named as a word of the C language.
use package.text.Mathlib.TextEquality.{eq_iff}
use Prim.Native.String as String
use zcbor.Prelude.{
  ℕ, ◌≡◌, refl, Bool-cases, inl, inr, String, str_eq, Bool, true, false, not, ◌&&◌, ◌||◌, List, [],
  ◌∷◌, arith,
}
use zcbor.Outcome.{Result, ok, Exception, first_returns, require, and_also, ◌>>◌}
use zcbor.Elem.{Elem, elem, Value, members, elems, Cddl}
use zcbor.Conditions.{skip_condition}
use zcbor.Unambiguous.{is_container}
use zcbor.Names.{
  Naming, c_keywords, c_keywords_underscore, is_in, capitalize, no_keyword, id, own_name, var_name,
  first_name,
}

-- A word of the C language.
pub is_word : String → Bool
unfolding is_in c_keywords c_keywords_underscore
is_word s = is_in s c_keywords || is_in s c_keywords_underscore

each_free : (String → String) → List String → Bool
each_free f [] = true
each_free f (k ∷ ks) = not (is_word (f k)) && each_free f ks

each_free-In :
    (f : String → String) (ks : List String) (s : String)
    → each_free f ks ≡ true
    → is_in s ks ≡ true
    → is_word (f s) ≡ false
unfolding each_free is_in
each_free-In f [] s h i = cc
each_free-In f (k ∷ ks) s h i = elim (Bool-cases (str_eq s k)) [
  | inl p ↦ let e : s ≡ k = ground (arith, eq_iff s k) in rw (e) (ground arith)
  | inr p ↦ each_free-In f ks s (ground arith) (ground arith)
]

capitals_free : each_free capitalize c_keywords ≡ true
unfolding each_free is_word c_keywords capitalize is_in
capitals_free = refl

underscores_free : each_free (String.◌++◌ "_") c_keywords_underscore ≡ true
unfolding each_free is_word c_keywords_underscore is_in
underscores_free = refl

no_keyword-free : (s : String) → is_word (no_keyword s) ≡ false
unfolding no_keyword
no_keyword-free s = elim (Bool-cases (is_in s c_keywords)) [
  | inl p ↦ rw (p, no_keyword) (each_free-In capitalize c_keywords s capitals_free p)
  | inr p ↦ elim (Bool-cases (is_in s c_keywords_underscore)) [
    | inl q ↦
        rw (p, no_keyword, q)
          (each_free-In (String.◌++◌ "_") c_keywords_underscore s underscores_free q)
    | inr q ↦ rw (p, no_keyword, q) (unfold is_word in rw (p, q) refl)
  ]
]

passed_name :
    (b : Bool) (n s : String) → (require Exception.assertion_error b >> ok n) ≡ ok s → n ≡ s
passed_name true n s h = cc
passed_name false n s h = cc

either_free :
    (b : Bool) {p q : Result String} {s : String}
    → (p ≡ ok s → is_word s ≡ false)
    → (q ≡ ok s → is_word s ≡ false)
    → (elim b [ true ↦ p | false ↦ q ]) ≡ ok s
    → is_word s ≡ false
either_free true f g h = f h
either_free false f g h = g h

module _ (naming : Naming) where
  own_name-free :
      (w : Bool) (e : Elem) (s : String) → own_name naming w e ≡ ok s → is_word s ≡ false
  unfolding own_name
  own_name-free w e s h =
      let n = no_keyword (id naming w e) in
      let same : n ≡ s = passed_name (not (str_eq n "None")) n s h in
      rw (← same) (no_keyword-free (id naming w e))

  module _ (cddl : Cddl) (registered : Elem → Bool) (unordered_maps : Bool) (f : ℕ) where
    mutual
      unfolding var_name

      named_free :
          (w o : Bool) (e : Elem) (s : String)
          → var_name naming cddl registered unordered_maps f w o e ≡ ok s
          → is_word s ≡ false
      named_free w o (elem a v k c d) s h =
          let e : Elem = elem a v k c d in
          let (skipped, _, r) =
            first_returns
              (and_also (ok o)
                (λ _. skip_condition cddl registered unordered_maps f (naming.skipped e) e))
              _ h in
          either_free (skipped && is_container a.kind) (first_free w v e s) (own_name-free w e s) r

      first_free :
          (w : Bool) (v : Value) (e : Elem) (s : String)
          → first_name naming cddl registered unordered_maps f w v (own_name naming w e) ≡ ok s
          → is_word s ≡ false
      first_free w (members (elems x xs)) e s h = named_free w true x s h
      first_free w v e s h = own_name-free w e s h

-- Where `var_name` returns a name, it is none of the words of the C language.
pub var_name-is_word :
    (naming : Naming) (cddl : Cddl) (registered : Elem → Bool) (unordered_maps : Bool) (f : ℕ)
    (with_prefix observe_skipped : Bool) (e : Elem) (s : String)
    → var_name naming cddl registered unordered_maps f with_prefix observe_skipped e ≡ ok s
    → is_word s ≡ false
var_name-is_word naming cddl registered unordered_maps f with_prefix observe_skipped e s h =
    named_free naming cddl registered unordered_maps f with_prefix observe_skipped e s h
