-- ===== src/Yaml.antt =====
-- zcbor/zcbor.py, class DataTranslator: `_from_yaml_obj` and `_to_yaml_obj`, between the objects that YAML or
-- JSON can write and those that CBOR can, with `strict_loads` and the methods that chain them.
pub mod Spec
pub mod Dicts
pub mod Back
pub mod Whole
pub mod Methods
pub mod Canonical
pub mod Enough
use zcbor.Prelude.{
  ℕ, zero, suc, ◌+◌, ◌==◌, pos, String, str_eq, Bool, true, false, ◌&&◌, ◌||◌, Option, none, some,
  List, [], ◌∷◌, if◌then◌else◌,
}
use zcbor.Outcome.{Result, ok, raised, out_of_fuel, Exception, ◌>>=◌, ◌>>◌}
use zcbor.Number.{Number, number_eq}
use zcbor.Data.{
  Obj, null, undefined, int, float, bool, str, bytes, list, tuple, dict, tag, key_tuple, named,
  Objs, no_objs, objs, Pairs, no_pairs, pair, Fields, no_fields, field,
}
use zcbor.Translator.Check.{as_number, number_equals}
use zcbor.Texts.{hex, from_hex, decimal}
use Prim.Native.String as String

-- `CBORDecoder(f).decode()` with what is then left to read, `dumps` with `canonical`, the constructor
-- `CBORTag`, and `fullmatch` of the pattern of a "zcbor_keyval" with a number.
pub record Codec : Type 0 where
  pub decode : List ℕ → Result (Obj × List ℕ)
  pub dumps : Bool → Obj → Result (List ℕ)
  pub make_tag : Obj → Obj → Result Obj
  pub is_keyval : String → Bool

abbrev pub is_str : Obj → Bool
is_str (str s) = true
is_str obj = false

abbrev pub is_text : String → Obj → Bool
is_text s (str t) = str_eq t s
is_text s obj = false

abbrev pub same_bytes : List ℕ → List ℕ → Bool
same_bytes [] [] = true
same_bytes (b ∷ bs) (c ∷ cs) = b == c && same_bytes bs cs
same_bytes bs cs = false

abbrev pub values_of : Fields → Objs
values_of no_fields = no_objs
values_of (field n x fs) = objs x (values_of fs)

-- What stands in a tuple.
abbrev pub elements : Obj → Option Objs
elements (tuple xs) = some xs
elements (key_tuple k v) = some (objs k (objs v no_objs))
elements (named fs) = some (values_of fs)
elements obj = none

-- `==` between keys of a dictionary. `KeyTuple` and `namedtuple` are tuples.
unfoldable mutual
  pub key_eq : Obj → Obj → Bool
  key_eq null null = true
  key_eq undefined undefined = true
  key_eq (int n) y = number_equals (Number.int n) y
  key_eq (float x) y = number_equals (Number.float x) y
  key_eq (bool b) y = elim (as_number (bool b)) [ none ↦ false | some n ↦ number_equals n y ]
  key_eq (str s) y = is_text s y
  key_eq (bytes b) (bytes c) = same_bytes b c
  key_eq (tuple xs) y = elim (elements y) [ none ↦ false | some ys ↦ objs_eq xs ys ]
  key_eq (key_tuple k v) y = elim (elements y) [
    | some (objs a (objs b no_objs)) ↦ key_eq k a && key_eq v b
    | _ ↦ false
  ]
  key_eq (named fs) y = elim (elements y) [ none ↦ false | some ys ↦ fields_eq fs ys ]
  key_eq (tag n x) (tag m y) = n == m && key_eq x y
  key_eq x y = false

  pub objs_eq : Objs → Objs → Bool
  objs_eq no_objs no_objs = true
  objs_eq (objs x xs) (objs y ys) = key_eq x y && objs_eq xs ys
  objs_eq xs ys = false

  pub fields_eq : Fields → Objs → Bool
  fields_eq no_fields no_objs = true
  fields_eq (field n x fs) (objs y ys) = key_eq x y && fields_eq fs ys
  fields_eq fs ys = false

-- Whether an object has a `hash`.
unfoldable mutual
  pub is_hashable : Obj → Bool
  is_hashable (list xs) = false
  is_hashable (dict m) = false
  is_hashable (tuple xs) = all_hashable xs
  is_hashable (key_tuple k v) = is_hashable k && is_hashable v
  is_hashable (named fs) = fields_hashable fs
  is_hashable (tag n x) = is_hashable x
  is_hashable obj = true

  pub all_hashable : Objs → Bool
  all_hashable no_objs = true
  all_hashable (objs x xs) = is_hashable x && all_hashable xs

  pub fields_hashable : Fields → Bool
  fields_hashable no_fields = true
  fields_hashable (field n x fs) = is_hashable x && fields_hashable fs

-- `retval[key] = val`.
unfoldable pub put : Obj → Obj → Pairs → Pairs
put k v no_pairs = pair k v no_pairs
put k v (pair j w m) = let rest = put k v m in if key_eq j k then pair j v m else pair j w rest

unfoldable pub assign : Obj → Obj → Pairs → Result Pairs
unfolding put
assign k v m = if is_hashable k then ok (put k v m) else raised Exception.type_error

-- What the keys of a dictionary say that it stands for.
pub data Shape : Type 0 where
  bstr tagged plain : Shape

abbrev pub shape : Pairs → Shape
shape (pair k v no_pairs) = if is_text "zcbor_bstr" k then bstr else plain
shape (pair k v (pair l w no_pairs)) =
    if is_text "zcbor_tag" k && is_text "zcbor_tag_val" l then tagged else plain
shape m = plain

-- `len(obj) == 1 and obj[0] == "zcbor_undefined"`.
abbrev pub is_mark : Objs → Bool
is_mark (objs x no_objs) = is_text "zcbor_undefined" x
is_mark xs = false

abbrev pub as_key : Obj → Obj
as_key (list xs) = tuple xs
as_key obj = obj

-- `f"zcbor_keyval{i}"`.
abbrev pub keyval_name : ℕ → String
keyval_name i = String.◌++◌ "zcbor_keyval" (decimal i)

module _ (codec : Codec) where
  open codec use {decode, dumps, make_tag, is_keyval}

  abbrev pub is_keyval_key : Obj → Bool
  is_keyval_key (str s) = is_keyval s
  is_keyval_key obj = false

  -- The contents of a "zcbor_bstr": `r` is what `_from_yaml_obj` gives for them.
  unfoldable pub bstr_of : Bool → Obj → Result Obj → Result Obj
  bstr_of can (str s) r = from_hex s >>= λ b. ok (bytes b)
  bstr_of can obj r = r >>= λ x. dumps can x >>= λ b. ok (bytes b)

  -- `from_pairs` is the loop over the items, and `from_entry` is `_from_yaml_obj(val[name], can)`.
  unfoldable mutual
    pub from_yaml_obj : Bool → Obj → Result Obj
    from_yaml_obj can (list xs) = elim (is_mark xs) [
      | true ↦ ok undefined
      | false ↦ from_objs can xs >>= λ ys. ok (list ys)
    ]
    from_yaml_obj can (dict m) = elim (shape m) [
      | bstr ↦ from_bstr can m
      | tagged ↦ from_tag can m
      | plain ↦ from_pairs can m no_pairs >>= λ r. ok (dict r)
    ]
    from_yaml_obj can obj = ok obj

    pub from_objs : Bool → Objs → Result Objs
    from_objs can no_objs = ok no_objs
    from_objs can (objs x xs) = do y ← from_yaml_obj can x; ys ← from_objs can xs; ok (objs y ys)

    pub from_bstr : Bool → Pairs → Result Obj
    from_bstr can (pair k v m) = bstr_of can v (from_yaml_obj can v)
    from_bstr can no_pairs = raised Exception.key_error

    pub from_tag : Bool → Pairs → Result Obj
    from_tag can (pair k v m) = from_last can m >>= λ x. make_tag v x
    from_tag can no_pairs = raised Exception.key_error

    pub from_last : Bool → Pairs → Result Obj
    from_last can (pair k v m) = from_yaml_obj can v
    from_last can no_pairs = raised Exception.key_error

    pub from_pairs : Bool → Pairs → Pairs → Result Pairs
    from_pairs can no_pairs retval = ok retval
    from_pairs can (pair k v m) retval = do
      (k', v') ← elim (is_keyval_key k) [
        | true ↦ from_entry can "key" v >>= λ a. from_entry can "val" v >>= λ b. ok (as_key a, b)
        | false ↦ from_yaml_obj can v >>= λ b. ok (k, b)
      ]
      retval' ← assign k' v' retval
      from_pairs can m retval'

    pub from_entry : Bool → String → Obj → Result Obj
    from_entry can name (dict m) = from_item can name m
    from_entry can name obj = raised Exception.type_error

    pub from_item : Bool → String → Pairs → Result Obj
    from_item can name no_pairs = raised Exception.key_error
    from_item can name (pair k v m) = elim (is_text name k) [
      | true ↦ from_yaml_obj can v
      | false ↦ from_item can name m
    ]

  -- `strict_load` of a `BytesIO`.
  unfoldable pub strict_loads : List ℕ → Result Obj
  strict_loads b = do
    (obj, rest) ← decode b
    elim rest [ [] ↦ ok obj | _ ∷ _ ↦ raised Exception.decode_error ]

  -- `except (CBORDecodeValueError, CBORDecodeEOF)`.
  abbrev pub catch_decode : Result Obj → Obj → Result Obj
  catch_decode (raised Exception.decode_error) other = ok other
  catch_decode r other = r

  -- `inner` stands for `_to_yaml_obj` on the object that a byte string holds.
  unfoldable mutual
    pub to_yaml_by : (Obj → Result Obj) → Obj → Result Obj
    to_yaml_by inner (list xs) = to_objs inner xs >>= λ ys. ok (list ys)
    to_yaml_by inner (tuple xs) = to_objs inner xs >>= λ ys. ok (list ys)
    to_yaml_by inner (key_tuple k v) = do
      a ← to_yaml_by inner k
      b ← to_yaml_by inner v
      ok (list (objs a (objs b no_objs)))
    to_yaml_by inner (named fs) = to_fields inner fs >>= λ ys. ok (list ys)
    to_yaml_by inner (dict m) = to_pairs inner m 0 no_pairs >>= λ r. ok (dict r)
    to_yaml_by inner (bytes b) = do
      x ← catch_decode (strict_loads b >>= inner) (str (hex b))
      ok (dict (pair (str "zcbor_bstr") x no_pairs))
    to_yaml_by inner (tag n x) = do
      y ← to_yaml_by inner x
      ok (dict (pair (str "zcbor_tag") (int (pos n)) (pair (str "zcbor_tag_val") y no_pairs)))
    to_yaml_by inner undefined = ok (list (objs (str "zcbor_undefined") no_objs))
    to_yaml_by inner obj = ok obj

    pub to_objs : (Obj → Result Obj) → Objs → Result Objs
    to_objs inner no_objs = ok no_objs
    to_objs inner (objs x xs) = do y ← to_yaml_by inner x; ys ← to_objs inner xs; ok (objs y ys)

    pub to_fields : (Obj → Result Obj) → Fields → Result Objs
    to_fields inner no_fields = ok no_objs
    to_fields inner (field n x fs) = do
      y ← to_yaml_by inner x
      ys ← to_fields inner fs
      ok (objs y ys)

    pub to_pairs : (Obj → Result Obj) → Pairs → ℕ → Pairs → Result Pairs
    to_pairs inner no_pairs i retval = ok retval
    to_pairs inner (pair k v m) i retval = elim (is_str k) [
      | true ↦ to_yaml_by inner v >>= λ v'. assign k v' retval >>= λ r. to_pairs inner m i r
      | false ↦ to_yaml_by inner k >>= λ k'. to_yaml_by inner v >>= λ v'.
          assign (str (keyval_name i)) (dict (pair (str "key") k' (pair (str "val") v' no_pairs)))
            retval
          >>= λ r. to_pairs inner m (i + 1) r
    ]

  -- A level of fuel for each byte string that stands in another.
  unfoldable pub to_yaml_obj : ℕ → Obj → Result Obj
  to_yaml_obj zero obj = to_yaml_by (λ _. out_of_fuel) obj
  to_yaml_obj (suc f) obj = to_yaml_by (to_yaml_obj f) obj
