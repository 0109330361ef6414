-- ===== src/Yaml/Methods.antt =====
-- zcbor/zcbor.py, class DataTranslator: the methods between CBOR bytes and YAML or JSON texts, which convert
-- with `_from_yaml_obj` and `_to_yaml_obj` if `yaml_compat` is given, and validate on the way.
use zcbor.Prelude.{ℕ, String, Bool, true, List, if◌then◌else◌}
use zcbor.Outcome.{Result, ok, Exception, or_raise, ◌>>=◌}
use zcbor.Elem.{Elem, Cddl}
use zcbor.Data.{Obj}
use zcbor.Translator.Build.{Runtime}
use zcbor.Translator.AddIf.{Calls, validate_obj, decode_obj}
use zcbor.Yaml.{Codec, from_yaml_obj, to_yaml_obj}

-- `safe_load` and `dump` of the package yaml, or `loads` and `dumps` of json.
pub record Format : Type 0 where
  pub load : String → Result Obj
  pub dump : Obj → Result String

-- `f` and `self` are the fuel and the methods of the translator, `g` the fuel of `_to_yaml_obj`.
module _ (rt : Runtime) (cddl : Cddl) (f : ℕ) (self : Calls) (codec : Codec) (format : Format)
    (g : ℕ) (e : Elem) where
  unfoldable pub from_text : Bool → Bool → String → Result Obj
  from_text yaml_compat canonical s = do
    y ← format.load s
    if yaml_compat then from_yaml_obj codec canonical y else ok y

  -- `from_yaml` and `from_json`.
  unfoldable pub from_yaml : Bool → Bool → String → Result (List ℕ)
  unfolding from_text
  from_yaml yaml_compat canonical s = do
    obj ← from_text yaml_compat canonical s
    _ ← validate_obj rt cddl f self e obj
    codec.dumps canonical obj

  unfoldable pub decode_str_yaml : Bool → Bool → String → Result Obj
  unfolding from_text
  decode_str_yaml yaml_compat canonical s = do
    obj ← from_text yaml_compat canonical s
    _ ← validate_obj rt cddl f self e obj
    decode_obj rt cddl f self e obj true

  -- `obj_to_yaml` and `obj_to_json`.
  unfoldable pub obj_to_yaml : Bool → Obj → Result String
  obj_to_yaml yaml_compat obj = do
    _ ← validate_obj rt cddl f self e obj
    y ← if yaml_compat then to_yaml_obj codec g obj else ok obj
    format.dump y

  -- `str_to_yaml` and `str_to_json`.
  unfoldable pub str_to_yaml : Bool → List ℕ → Result String
  unfolding obj_to_yaml
  str_to_yaml yaml_compat cbor_str = do
    obj ← or_raise Exception.decode_error (rt.loads cbor_str)
    obj_to_yaml yaml_compat obj

  unfoldable pub validate_str : List ℕ → Result Bool
  validate_str cbor_str = do
    obj ← or_raise Exception.decode_error (rt.loads cbor_str)
    validate_obj rt cddl f self e obj

  unfoldable pub str_to_canonical : List ℕ → Result (List ℕ)
  unfolding str_to_yaml from_yaml
  str_to_canonical cbor_str = do s ← str_to_yaml true cbor_str; from_yaml true true s
