-- ===== src/Yaml/Canonical.antt =====
-- zcbor/zcbor.py, class DataTranslator: CBOR bytes that are written as a text and read again.
use zcbor.Prelude.{zero, suc, ℕ, ◌≤◌, ◌≡◌, refl, String, Bool, true, some, List}
use zcbor.Outcome.{ok, first_returns, ◌>>=◌}
use zcbor.Elem.{Elem, Cddl}
use zcbor.Data.{Obj, str, bytes}
use zcbor.Texts.{from_hex}
use zcbor.Translator.Build.{Runtime}
use zcbor.Translator.AddIf.{Calls, validate_obj}
use zcbor.Yaml.{Codec, strict_loads, bstr_of, from_yaml_obj, to_yaml_by, to_yaml_obj}
use zcbor.Yaml.Spec.{IsCodec, Kept, longest}
use zcbor.Yaml.Whole.{from_yaml_obj-to_yaml_obj}
use zcbor.Yaml.Methods.{Format, from_text, from_yaml, obj_to_yaml, str_to_yaml, str_to_canonical}

module _ (rt : Runtime) (cddl : Cddl) (f : ℕ) (self : Calls) (codec : Codec) (format : Format)
    (g : ℕ) (e : Elem) where
  valid_dumped :
      (x : Obj) (s : String)
      → obj_to_yaml rt cddl f self codec format g e true x ≡ ok s
      → (b : Bool) × (validate_obj rt cddl f self e x ≡ ok b)
        × (to_yaml_obj codec g x >>= format.dump) ≡ ok s
  unfolding obj_to_yaml
  valid_dumped x s h = first_returns (validate_obj rt cddl f self e x) _ h

  pub from_yaml-str_to_yaml :
      (can : Bool) (x : Obj) (cbor_str : List ℕ) (s : String)
      → IsCodec codec
      → ((y : Obj) → to_yaml_obj codec g x ≡ ok y → format.dump y ≡ ok s → format.load s ≡ ok y)
      → Kept codec can x
      → longest x ≤ g
      → rt.loads cbor_str ≡ some x
      → str_to_yaml rt cddl f self codec format g e true cbor_str ≡ ok s
      → from_yaml rt cddl f self codec format g e true can s ≡ codec.dumps can x
  unfolding str_to_yaml from_yaml
  from_yaml-str_to_yaml can x cbor_str s laws reads kept enough loaded h =
      let (b, valid, dumped) = valid_dumped x s (rw (loaded, str_to_yaml) at h) in
      let (y, written, read) = from_yaml_obj-to_yaml_obj codec laws can g x kept enough in
      let back = reads y written (rw written at dumped) in rw (from_text, back, read, valid) refl

-- With fuel from the length of the longest byte string of an object on, where `str_to_yaml` writes a text
-- for the bytes of the object, which is not taken for another one, and the package yaml or json reads
-- this text as what it was written for, `str_to_canonical` returns the canonical encoding of the object.
pub str_to_canonical-dumps :
    (rt : Runtime) (cddl : Cddl) (f : ℕ) (self : Calls) (codec : Codec) (format : Format) (g : ℕ)
    (e : Elem) (x : Obj) (cbor_str : List ℕ) (s : String)
    → IsCodec codec
    → ((y : Obj) → to_yaml_obj codec g x ≡ ok y → format.dump y ≡ ok s → format.load s ≡ ok y)
    → Kept codec true x
    → longest x ≤ g
    → rt.loads cbor_str ≡ some x
    → str_to_yaml rt cddl f self codec format g e true cbor_str ≡ ok s
    → str_to_canonical rt cddl f self codec format g e cbor_str ≡ codec.dumps true x
unfolding str_to_canonical
str_to_canonical-dumps rt cddl f self codec format g e x cbor_str s laws reads kept enough loaded
      h =
    rw (str_to_canonical, h)
      (from_yaml-str_to_yaml rt cddl f self codec format g e true x cbor_str s laws reads kept
        enough loaded h)

-- A byte string that is the CBOR encoding of a text comes back as the bytes that the text gives in
-- hexadecimal digits, and fails with `ValueError` where it gives none: the text is read as the digits.
pub text_read_as_hex :
    (codec : Codec) (can : Bool) (f : ℕ) (b : List ℕ) (s : String)
    → strict_loads codec b ≡ ok (str s)
    → (to_yaml_obj codec (suc f) (bytes b) >>= from_yaml_obj codec can)
      ≡ (from_hex s >>= λ c. ok (bytes c))
unfolding to_yaml_obj to_yaml_by from_yaml_obj bstr_of
text_read_as_hex codec can zero b s h = rw (to_yaml_by, h) refl
text_read_as_hex codec can (suc f) b s h = rw (to_yaml_by, h) refl
