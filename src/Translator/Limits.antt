-- ===== src/Translator/Limits.antt =====
-- zcbor/zcbor.py, class DataTranslator: the restrictions of one value, and cases in which validation
-- says something other than the CDDL.
use zcbor.Prelude.{
  ℕ, suc, ◌≡◌, refl, ◌↔◌, ℤ, negsuc, ◌≤ℤ◌, Bool, true, false, none, some, String, List, [], ◌∷◌,
  arith,
}
use zcbor.Outcome.{ok, raised, Exception}
use zcbor.Number.{Number, number_le}
use zcbor.Elem.{
  Kind, Attrs, Elem, elem, Value, no_value, text, Slot, absent, Cddl, attrs, value, key, kind,
}
use zcbor.Conditions.{is_integer}
use zcbor.Data.{Obj}
use zcbor.Translator.Check.{check_type, check_range, check_value}
use zcbor.Translator.Pull.{threw}
use zcbor.Translator.Build.{Runtime}
use zcbor.Translator.AddIf.{Calls, validate_obj}
use zcbor.Translator.Single.{decode_single_obj}
use zcbor.Translator.Decode.{decode_next, decode_as, decode_upto, decode_round, decode_full, calls}
use zcbor.Translator.Spec.{is_leaf}

-- An integer element with both bounds inclusive, no literal value and no bits.
pub record IsRange (a : Attrs) (lo hi : ℤ) : Type 0 where
  pub low : a.min_value ≡ some (Number.int lo)
  pub high : a.max_value ≡ some (Number.int hi)
  pub low_inclusive : a.min_value_inclusive ≡ true
  pub high_inclusive : a.max_value_inclusive ≡ true

-- An integer passes the range check of an "INT", "UINT" or "NINT" element with two inclusive bounds
-- exactly when it lies between them.
pub check_range_iff :
    (a : Attrs) (v : Value) (k c d : Slot) (lo hi n : ℤ)
    → is_integer a.kind ≡ true
    → IsRange a lo hi
    → (check_range (elem a v k c d) (Obj.int n) ≡ ok tt) ↔ ((lo ≤ℤ n) × (n ≤ℤ hi))
unfolding check_range number_le
check_range_iff a v k c d lo hi n p r = (λ h. (ground arith, ground arith), λ h. ground arith)

-- A byte string element with a literal value accepts no byte string: the text that the CDDL gives is
-- compared with the bytes as it is.
pub bstr_literal_rejects :
    (cddl : Cddl) (e : Elem) (s : String) (b : List ℕ)
    → kind e ≡ Kind.bstr
    → value e ≡ text s
    → check_value cddl e (Obj.bytes b) ≡ raised Exception.validation_error
unfolding check_value
bstr_literal_rejects cddl (elem a v k c d) s b p q = ground arith

-- An unsigned integer element that has no bound, literal or bits accepts every negative integer.
pub uint_accepts_negative :
    (cddl : Cddl) (e : Elem) (n : ℕ)
    → kind e ≡ Kind.uint
    → value e ≡ no_value
    → (attrs e).min_value ≡ none
    → (attrs e).max_value ≡ none
    → (attrs e).bits ≡ none
    → (check_type e (Obj.int (negsuc n)) ≡ ok tt)
      × (check_value cddl e (Obj.int (negsuc n)) ≡ ok tt)
unfolding check_type check_value
uint_accepts_negative cddl e n p q lo hi b = (ground arith, ground arith)

decode_as-leaf :
    (rt : Runtime) (cddl : Cddl) (m f : ℕ) (self : Calls) (k : Kind) (e : Elem) (it : List Obj)
    (d : Bool)
    → is_leaf k ≡ true
    → decode_as rt cddl m f self k e it d ≡ decode_next rt cddl m f self e it d
unfolding decode_as
decode_as-leaf rt cddl m f self Kind.other e it d h = cc
decode_as-leaf rt cddl m f self Kind.list e it d h = refl
decode_as-leaf rt cddl m f self Kind.group e it d h = cc
decode_as-leaf rt cddl m f self Kind.union e it d h = cc
decode_as-leaf rt cddl m f self _ e it d h = refl

decode_next-fails :
    (rt : Runtime) (cddl : Cddl) (m f : ℕ) (self : Calls) (e : Elem) (obj : Obj) (d : Bool)
    → decode_single_obj rt cddl f self e obj d ≡ raised Exception.validation_error
    → decode_next rt cddl m f self e (obj ∷ []) d ≡ threw Exception.validation_error true
unfolding decode_next
decode_next-fails rt cddl m f self e obj d bad = ground arith

-- At the top, an optional element accepts any object that it cannot decode: the copy of the iterator
-- that was tried has moved the iterator on which `decode_obj` then looks for remaining objects.
pub optional_accepts :
    (rt : Runtime) (cddl : Cddl) (default_max_qty n f : ℕ) (a : Attrs) (v : Value) (c d : Slot)
    (obj : Obj)
    → a.min_qty ≡ 0
    → a.max_qty ≡ some 1
    → a.tags ≡ []
    → is_leaf a.kind ≡ true
    → decode_single_obj rt cddl
        (suc f)
        (calls rt cddl default_max_qty f)
        (elem a v absent c d)
        obj
        false
      ≡ raised Exception.validation_error
    → validate_obj rt cddl n (calls rt cddl default_max_qty (suc f)) (elem a v absent c d) obj
      ≡ ok true
unfolding validate_obj calls decode_full
optional_accepts rt cddl m n f a v c d obj lo hi t k bad = ground (
  arith,
  decode_as-leaf rt cddl m (suc f) (calls rt cddl m f) a.kind (elem a v absent c d) (obj ∷ [])
      false,
  decode_next-fails rt cddl m (suc f) (calls rt cddl m f) (elem a v absent c d) obj false,
)

-- A repeated element with a tag raises `StopIteration` where the objects end, in place of stopping.
pub tagged_stops :
    (rt : Runtime) (cddl : Cddl) (default_max_qty f : ℕ) (self : Calls) (e : Elem) (t : ℕ)
    (tags : List ℕ) (n : ℕ) (d : Bool)
    → key e ≡ absent
    → (attrs e).tags ≡ t ∷ tags
    → decode_upto (decode_round rt cddl default_max_qty f self e d) (suc n) []
      ≡ threw Exception.stop_iteration true
unfolding decode_upto decode_round
tagged_stops rt cddl m f self (elem a v k c s) t tags n d p q = ground arith
