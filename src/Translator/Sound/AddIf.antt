-- ===== src/Translator/Sound/AddIf.antt =====
-- zcbor/zcbor.py, class DataTranslator: `_add_if` ends within its fuel.
use zcbor.Prelude.{
  ℕ, suc, ◌<◌, String, Bool, true, false, not, ◌&&◌, ◌||◌, Option, none, List, [], ◌∷◌, ◌≡◌, refl,
  if◌then◌else◌, arith,
}
use zcbor.Outcome.{
  Result, raised, Exception, Ensures, Ends, returns, raises, require, Ensures-bind, Ensures-if,
  Ends-require, or_raise-Ensures,
}
use zcbor.Elem.{Elem, Slot, absent, present, Cddl, key, cbor, kind, is_present}
use zcbor.Data.{Obj, Objs, null, bytes, list, key_tuple, no_objs, objs}
use zcbor.Unambiguous.{is_other}
use zcbor.Unambiguous.Enough.{is_unambiguous-Ends, cbor_var_condition-Ends}
use zcbor.Rank.{IsRanked, height, height_slot, key-lt, cbor-lt, slot-eq, resolve-Ensures}
use zcbor.Translator.Pull.{Pull}
use zcbor.Translator.Pull.Yields.{Yields, gives, throws}
use zcbor.Translator.Build.{Runtime, Entry, var_name, construct_obj-Ends}
use zcbor.Translator.AddIf.{
  Appends, append, first_do, and_then, Calls, all_bytes, is_bstr, only_if_moved, decode_obj,
  decode_str, is_cbor_bstr, decode_each, add_cbor, add_value, add_key, add_entry, settle_one,
  settle, add_known, add_if,
}
use zcbor.Translator.Sound.Members.{IsSound}

-- The call of `_add_if` returns or raises.
pub record Finishes (w : Appends) : Type 0 where
  pub ends : Ends w.outcome

appends : (es : List Entry) → Finishes (append es)
appends es = record { ends = returns tt }

fails : (es : List Entry) (e : Exception) → Finishes (record { entries = es; outcome = raised e })
fails es e = record { ends = raises e }

first_do-Finishes :
    {A : Type 0} {P : A → Type 0} {r : Result A} (k : A → Appends)
    → Ensures P r
    → ((a : A) → P a → Finishes (k a))
    → Finishes (first_do r k)
first_do-Finishes k (returns {a} h) hk = hk a h
first_do-Finishes k (raises e) hk = fails [] e

outcome_then :
    (es : List Entry) {r : Result (Unit {0})} (k : Appends)
    → Ends r
    → Finishes k
    → Finishes (and_then (record { entries = es; outcome = r }) k)
outcome_then es k (returns h) hk = record { ends = hk.ends }
outcome_then es k (raises e) hk = fails es e

and_then-Finishes : (w k : Appends) → Finishes w → Finishes k → Finishes (and_then w k)
and_then-Finishes w k hw hk = outcome_then w.entries k hw.ends hk

if-Finishes :
    (b : Bool) (x y : Appends)
    → (b ≡ true → Finishes x)
    → (b ≡ false → Finishes y)
    → Finishes (if b then x else y)
if-Finishes true x y hx hy = hx refl
if-Finishes false x y hx hy = hy refl

only_if_moved-Ends :
    {P : Obj × List Obj → Type 0} {m : Pull (Obj × List Obj)} → Yields P m → Ends (only_if_moved m)
only_if_moved-Ends (gives {a = (o, rest)} h true) = returns tt
only_if_moved-Ends (gives {a = (o, rest)} h false) = raises _
only_if_moved-Ends (throws e m) = raises e

module _ (rt : Runtime) (cddl : Cddl) (default_max_qty : ℕ) (rank : String → ℕ)
    (ranked : IsRanked rank cddl) (f : ℕ) (self : Calls)
    (sound : IsSound cddl default_max_qty rank f self) where
  decode_obj-Ends :
      (e : Elem) (obj : Obj) (d : Bool)
      → height rank e < f
      → Ends (decode_obj rt cddl (suc f) self e obj d)
  unfolding decode_obj
  decode_obj-Ends e obj d h = only_if_moved-Ends (sound.full e (obj ∷ []) d h)

  decode_str-Ends :
      (e : Elem) (s : List ℕ) → height rank e < f → Ends (decode_str rt cddl (suc f) self e s)
  unfolding decode_str
  decode_str-Ends e s h =
      Ensures-bind (or_raise-Ensures Exception.decode_error (rt.loads s))
        λ obj _. decode_obj-Ends e obj true h

  decode_each-Ends :
      (c : Elem) (xs : Objs) → height rank c < f → Ends (decode_each rt cddl (suc f) self c xs)
  unfolding decode_each
  decode_each-Ends c no_objs h = returns tt
  decode_each-Ends c (objs (bytes b) xs) h =
      Ensures-bind (decode_str-Ends c b h)
        λ _ _. Ensures-bind (decode_each-Ends c xs h) λ _ _. returns tt
  decode_each-Ends c (objs _ xs) h = raises _

  is_cbor_bstr-Ends :
      (e : Elem) → height rank e < suc f → Ends (is_cbor_bstr rt cddl (suc f) self e)
  unfolding is_cbor_bstr
  is_cbor_bstr-Ends e h =
      Ensures-if (is_bstr (kind e)) (λ _. cbor_var_condition-Ends rank ranked (suc f) e h)
        (λ _. returns tt)

  add_cbor-Finishes :
      (c : Slot) (n : String) (obj : Obj)
      → height_slot rank c < f
      → Finishes (add_cbor rt cddl (suc f) self c n obj)
  unfolding add_cbor
  add_cbor-Finishes absent n obj h = appends _
  add_cbor-Finishes (present c) n (list xs) h =
      if-Finishes (all_bytes xs) _ _
        (λ _.
          first_do-Finishes _ (decode_each-Ends c xs (omega (arith, slot-eq rank c)))
            λ _ _. appends _)
        (λ _. appends _)
  add_cbor-Finishes (present c) n (bytes b) h =
      first_do-Finishes _ (decode_str-Ends c b (omega (arith, slot-eq rank c))) λ _ _. appends _
  add_cbor-Finishes (present c) n _ h = appends _

  add_value-Finishes :
      (e : Elem) (n : String) (obj : Obj)
      → height rank e < suc f
      → Finishes (add_value rt cddl (suc f) self e n obj)
  unfolding add_value
  add_value-Finishes e n obj h = first_do-Finishes _ (is_cbor_bstr-Ends e h) λ b _.
      if-Finishes b _ _ (λ _. add_cbor-Finishes (cbor e) n obj (omega (arith, cbor-lt rank e)))
        (λ _. appends _)

  add_key-Finishes :
      (k : Slot) (n : String) (o : Obj) (d : Bool)
      → height_slot rank k < f
      → Finishes (add_key rt cddl (suc f) self k n o d)
  unfolding add_key
  add_key-Finishes k n null d h = appends _
  add_key-Finishes absent n _ d h = fails _ _
  add_key-Finishes (present k) n _ d h = record {
    ends = sound.add_if k _ d false _ (omega (arith, slot-eq rank k));
  }

  add_entry-Finishes :
      (e : Elem) (obj : Obj) (d : Bool) (n : Option String)
      → height rank e < suc f
      → Finishes (add_entry rt cddl (suc f) self e obj d n)
  unfolding add_entry
  add_entry-Finishes e (key_tuple k v) d n h =
      and_then-Finishes (add_key rt cddl (suc f) self (key e) (var_name e) k d) _
        (add_key-Finishes (key e) (var_name e) k d (omega (arith, key-lt rank e)))
        (add_value-Finishes e _ v h)
  add_entry-Finishes e obj d n h = add_value-Finishes e _ obj h

  settle_one-Ends :
      (e : Elem) (all d : Bool) (x : Obj)
      → height rank e < suc f
      → Ends (settle_one rt cddl (suc f) self e all d x)
  unfolding settle_one
  settle_one-Ends e all d (key_tuple k v) h =
      Ensures-bind
        (Ensures-bind (add_entry-Finishes e (key_tuple k v) d none h).ends
          λ _ _. construct_obj-Ends rt _ d)
        λ _ _. Ensures-bind (is_cbor_bstr-Ends e h) λ _ _. returns tt
  settle_one-Ends e all d (bytes b) h = Ensures-bind (is_cbor_bstr-Ends e h) λ s _.
      Ensures-bind {r = require Exception.assertion_error (not s || all)}
        (Ends-require Exception.assertion_error _) λ _ _. returns tt
  settle_one-Ends e all d _ h = Ensures-bind (is_cbor_bstr-Ends e h) λ _ _. returns tt

  settle-Ends :
      (e : Elem) (all d : Bool) (xs : Objs)
      → height rank e < suc f
      → Ends (settle rt cddl (suc f) self e all d xs)
  unfolding settle
  settle-Ends e all d no_objs h = returns tt
  settle-Ends e all d (objs x xs) h =
      Ensures-bind (settle_one-Ends e all d x h)
        λ _ _. Ensures-bind (settle-Ends e all d xs h) λ _ _. returns tt

  add_known-Finishes :
      (e : Elem) (obj : Obj) (d : Bool) (n : Option String)
      → height rank e < suc f
      → Finishes (add_known rt cddl (suc f) self e obj d n)
  unfolding add_known
  add_known-Finishes e (list xs) d n h =
      first_do-Finishes _ (settle-Ends e (all_bytes xs) d xs h)
        λ ys _. add_entry-Finishes e (list ys) d n h
  add_known-Finishes e obj d n h = add_entry-Finishes e obj d n h

  -- With fuel above the height of an element, `_add_if` returns or raises.
  pub add_if-Finishes :
      (e : Elem) (obj : Obj) (d x : Bool) (n : Option String)
      → height rank e < suc f
      → Finishes (add_if rt cddl (suc f) self e obj d x n)
  unfolding add_if
  add_if-Finishes e obj d x n h =
      if-Finishes (x && is_other (kind e) && not (is_present (key e))) _ _
        (λ _.
          first_do-Finishes _ (resolve-Ensures rank ranked e)
            λ t r. record { ends = sound.add_if t obj d false none (omega (arith, r.1)) })
        (λ _.
          first_do-Finishes _ (is_unambiguous-Ends rank ranked (suc f) e h)
            λ known _. if-Finishes known _ _ (λ _. appends _) (λ _. add_known-Finishes e obj d n h))
