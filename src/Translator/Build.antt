-- ===== src/Translator/Build.antt =====
-- zcbor/zcbor.py, class DataTranslator: `_flatten_obj`, `_flatten_list`, `_construct_obj`, `id`.
use Prim.Native.Char.{code}
use zcbor.Prelude.{
  ℕ, ◌==◌, String, str_eq, Bool, true, false, not, ◌||◌, Option, List, [], ◌∷◌, map, any_of,
  if◌then◌else◌,
}
use zcbor.Outcome.{Result, ok, Exception, require, ◌>>◌, Ends, returns, Ensures-bind, Ends-require}
use zcbor.Elem.{Elem, attrs}
use zcbor.Data.{Obj, Fields, null, list, tuple, named, key_tuple, no_objs, objs, no_fields, field}

-- What the code takes from outside this repository: `cbor2.loads`, which returns an object or raises,
-- the names that `namedtuple` accepts, and the names that `hasattr` finds on every list and tuple.
pub record Runtime : Type 0 where
  pub loads : List ℕ → Option Obj
  pub accepts_names : List String → Bool
  pub list_attr : String → Bool
  pub tuple_attr : String → Bool

-- `getrp(r"\A_").sub("f_", name)`.
unfoldable pub public_name : String → String
public_name String.[] = ""
public_name (String.◌∷◌ c s) =
    if code c == b'_' then String.◌∷◌ "f" (String.◌∷◌ "_" s) else String.◌∷◌ c s

-- `DataTranslator.id` and `var_name`.
unfoldable pub var_name : Elem → String
unfolding public_name
var_name e = public_name (attrs e).name

abbrev pub Entry : Type 0
Entry = String × Obj

abbrev pub has_field : String → Fields → Bool
has_field name no_fields = false
has_field name (field j v fs) = str_eq j name || has_field name fs

unfoldable pub flatten_obj : Obj → Obj
flatten_obj (tuple (objs x no_objs)) = flatten_obj x
flatten_obj (named (field n v no_fields)) = flatten_obj v
flatten_obj obj = obj

-- `values` after its one member, if it has one, is flattened.
abbrev pub flatten_only : List Entry → List Entry
flatten_only ((n, v) ∷ []) = (n, flatten_obj v) ∷ []
flatten_only es = es

abbrev pub is_key_tuple : Obj → Bool
is_key_tuple (key_tuple k v) = true
is_key_tuple obj = false

abbrev pub to_fields : List Entry → Fields
to_fields [] = no_fields
to_fields ((n, v) ∷ es) = field n v (to_fields es)

module _ (rt : Runtime) where
  -- The member of a list or tuple of one that has the attribute `name`.
  unfoldable pub flatten_member : String → Obj → Obj
  flatten_member name (list (objs x no_objs)) =
      if rt.list_attr name then x else list (objs x no_objs)
  flatten_member name (tuple (objs x no_objs)) =
      if rt.tuple_attr name then x else tuple (objs x no_objs)
  flatten_member name (named (field n v no_fields)) =
      if str_eq n name || rt.tuple_attr name then v else named (field n v no_fields)
  flatten_member name obj = obj

  unfoldable pub flatten_list : String → Obj → Obj
  unfolding flatten_member
  flatten_list name (list (objs x no_objs)) = list (objs (flatten_member name x) no_objs)
  flatten_list name obj = obj

  abbrev pub flatten_entries : List Entry → List Entry
  flatten_entries [] = []
  flatten_entries ((n, v) ∷ es) = (n, flatten_list n v) ∷ flatten_entries es

  unfoldable pub make_tuple : List Entry → Result Obj
  make_tuple es = do
    require Exception.assertion_error (not (any_of (λ e. is_key_tuple e.1) es))
    require Exception.value_error (rt.accepts_names (map (λ e. e.0) es))
    ok (named (to_fields es))

  unfoldable pub construct_obj : List Entry → Bool → Result Obj
  unfolding flatten_list flatten_obj make_tuple
  construct_obj es false = ok null
  construct_obj [] true = ok null
  construct_obj (e ∷ es) true = make_tuple (flatten_entries (flatten_only (e ∷ es)))

  make_tuple-Ends : (es : List Entry) → Ends (make_tuple es)
  unfolding make_tuple
  make_tuple-Ends es =
      Ensures-bind {r = require Exception.assertion_error (not (any_of (λ e. is_key_tuple e.1) es))}
        (Ends-require Exception.assertion_error _)
        λ _ _.
          Ensures-bind {r = require Exception.value_error (rt.accepts_names (map (λ e. e.0) es))}
            (Ends-require Exception.value_error _) λ _ _. returns tt

  -- Building the result ends.
  pub construct_obj-Ends : (es : List Entry) (d : Bool) → Ends (construct_obj es d)
  unfolding construct_obj
  construct_obj-Ends es false = returns tt
  construct_obj-Ends [] true = returns tt
  construct_obj-Ends (e ∷ es) true = make_tuple-Ends (flatten_entries (flatten_only (e ∷ es)))
