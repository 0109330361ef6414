-- ===== src/Examples/Converting.antt =====
-- Objects that are written as YAML or JSON and read back, with a codec of a few encodings.
use text.Mathlib.Text.{starts_with}
use text.Mathlib.TextPositions.{starts_with-append}
use zcbor.Prelude.{
  str_eq, ℕ, ltb, ◌+◌, Option, ◌<◌, ◌≡◌, refl, pos, String, true, false, none, some, Bool, List, [],
  ◌∷◌, length, ◌==◌, if◌then◌else◌, arith,
}
use zcbor.Outcome.{Result, ok, raised, Exception, Ends, returns, raises, ◌>>=◌}
use zcbor.Elem.{Kind, Elem, no_value}
use zcbor.Data.{
  Obj, null, undefined, int, str, bytes, list, tuple, dict, tag, no_objs, objs, no_pairs, pair,
}
use zcbor.Translator.Build.{Runtime}
use zcbor.Translator.AddIf.{validate_obj}
use zcbor.Translator.Decode.{calls}
use zcbor.Texts.{decimal, from_hex}
use zcbor.Yaml.{
  Codec, to_yaml_obj, to_yaml_by, from_yaml_obj, bstr_of, assign, strict_loads, key_eq, is_hashable,
}
use zcbor.Yaml.Spec.{
  IsCodec, longest, clashes, Kept, scalar, as_hex, as_object, kept_list, kept_tag, kept_dict,
  none_left, one_kept, no_items, one_item, text_key, value_key, tuple_key,
}
use zcbor.Yaml.Whole.{from_yaml_obj-to_yaml_obj}
use zcbor.Yaml.Enough.{to_yaml_obj-Ends}
use zcbor.Yaml.Methods.{Format, str_to_yaml, str_to_canonical}
use zcbor.Yaml.Canonical.{str_to_canonical-dumps, text_read_as_hex}
use zcbor.Examples.Sample.{bare, leaf_of, cddl, runtime, max_qty}

-- Numbers below 24, null, the empty text, and, for writing, short byte strings.
abbrev value_of : ℕ → Option Obj
value_of b =
    if ltb b 24
    then some (int (pos b))
    else if b == 246
    then some null
    else if b == 96
    then some (str "")
    else none

abbrev and_rest : List ℕ → Option Obj → Result (Obj × List ℕ)
and_rest rest none = raised Exception.decode_error
and_rest rest (some x) = ok (x, rest)

abbrev read_one : List ℕ → Result (Obj × List ℕ)
read_one [] = raised Exception.decode_error
read_one (b ∷ rest) = and_rest rest (value_of b)

abbrev write_one : Obj → Result (List ℕ)
write_one (int (pos n)) = if ltb n 24 then ok (n ∷ []) else raised Exception.type_error
write_one null = ok (246 ∷ [])
write_one (bytes b) = ok ((64 + length b) ∷ b)
write_one obj = raised Exception.type_error

abbrev tag_of : Obj → Obj → Result Obj
tag_of (int (pos n)) x = ok (tag n x)
tag_of n x = raised Exception.type_error

abbrev small_codec : Codec
small_codec = record {
  decode = read_one;
  dumps = λ can. write_one;
  make_tag = tag_of;
  is_keyval = λ s. starts_with s "zcbor_keyval";
}

-- An object without byte strings, if any.
Flat : Option Obj → Type 0
Flat o = (x : Obj) → o ≡ some x → longest x ≡ 0

if-Flat : (b : Bool) (o p : Option Obj) → Flat o → Flat p → Flat (if b then o else p)
if-Flat true o p f g = f
if-Flat false o p f g = g

some-Flat : (y : Obj) → longest y ≡ 0 → Flat (some y)
unfolding Flat
some-Flat y p x h = let e : y ≡ x = cc in rw (← e, p) refl

none-Flat : Flat none
unfolding Flat
none-Flat x h = cc

value_of-Flat : (b : ℕ) → Flat (value_of b)
unfolding longest
value_of-Flat b = if-Flat (ltb b 24) (some (int (pos b))) _ (some-Flat (int (pos b)) refl) (
    if-Flat (b == 246) (some null) _ (some-Flat null refl)
      (if-Flat (b == 96) (some (str "")) none (some-Flat (str "") refl) none-Flat))

read_one-shorter : (b rest : List ℕ) (x : Obj) → read_one b ≡ ok (x, rest) → longest x < length b
unfolding Flat
read_one-shorter [] rest x h = cc
read_one-shorter (b ∷ bs) rest x h = at_head (value_of b) (value_of-Flat b) h
  where
    at_head : (o : Option Obj) → Flat o → and_rest bs o ≡ ok (x, rest) → longest x < length (b ∷ bs)
    at_head none f h = cc
    at_head (some y) f h = let e : y ≡ x = cc in rw (← e, f y refl) (omega arith)

read_one-Ends : (b : List ℕ) → Ends (read_one b)
read_one-Ends [] = raises Exception.decode_error
read_one-Ends (b ∷ bs) = at_head (value_of b)
  where
    at_head : (o : Option Obj) → Ends (and_rest bs o)
    at_head none = raises Exception.decode_error
    at_head (some x) = returns tt

small_codec-IsCodec : IsCodec small_codec
small_codec-IsCodec = record {
  shorter = read_one-shorter;
  tags = λ n x h. refl;
  keyvals = λ i. starts_with-append "zcbor_keyval" (decimal i);
  not_bstr = refl;
  not_tag = refl;
  not_tag_val = refl;
}

-- `{"a": [1, undefined], 5: 24(h'01'), (1, 1): h'ff'}`.
abbrev mixed : Obj
mixed = dict (
    pair (str "a") (list (objs (int (pos 1)) (objs undefined no_objs))) (
      pair (int (pos 5)) (tag 24 (bytes (1 ∷ []))) (
        pair (tuple (objs (int (pos 1)) (objs (int (pos 1)) no_objs))) (bytes (255 ∷ []))
          no_pairs)))

mixed-Kept : Kept small_codec false mixed
unfolding clashes key_eq is_hashable strict_loads
mixed-Kept = kept_dict refl (
    one_item (text_key refl)
      (kept_list refl (one_kept (scalar refl) (one_kept (scalar refl) none_left))) refl
      (one_item (value_key refl refl (scalar refl))
        (kept_tag (omega arith) (as_object refl refl (scalar refl) refl)) refl
        (one_item (tuple_key refl refl (one_kept (scalar refl) (one_kept (scalar refl) none_left)))
          (as_hex (omega arith, tt) refl) refl no_items)))

from_yaml_obj-to_yaml_obj_example :
    (y : Obj) × (to_yaml_obj small_codec 1 mixed ≡ ok y)
    × (from_yaml_obj small_codec false y ≡ ok mixed)
from_yaml_obj-to_yaml_obj_example =
    from_yaml_obj-to_yaml_obj small_codec small_codec-IsCodec false 1 mixed mixed-Kept
      (unfold longest in omega arith)

to_yaml_obj-Ends_example : Ends (to_yaml_obj small_codec 1 mixed)
to_yaml_obj-Ends_example =
    to_yaml_obj-Ends small_codec small_codec-IsCodec read_one-Ends 1 mixed
      (unfold longest in omega arith)

written :
    to_yaml_obj small_codec 1 (tag 24 (bytes (1 ∷ [])))
    ≡ ok (
        dict (
          pair (str "zcbor_tag") (int (pos 24)) (
            pair
              (str "zcbor_tag_val")
              (dict (pair (str "zcbor_bstr") (int (pos 1)) no_pairs))
              no_pairs)))
unfolding to_yaml_obj to_yaml_by strict_loads
written = refl

named_key :
    to_yaml_obj small_codec 1 (dict (pair (int (pos 5)) null (pair (int (pos 6)) null no_pairs)))
    ≡ ok (
        dict (
          pair
            (str "zcbor_keyval0")
            (dict (pair (str "key") (int (pos 5)) (pair (str "val") null no_pairs)))
            (pair
              (str "zcbor_keyval1")
              (dict (pair (str "key") (int (pos 6)) (pair (str "val") null no_pairs)))
              no_pairs)))
unfolding to_yaml_obj to_yaml_by assign is_hashable key_eq decimal
named_key = refl

-- `h'60'` comes back as `h''`.
text_read_as_hex_example :
    (to_yaml_obj small_codec 1 (bytes (96 ∷ [])) >>= from_yaml_obj small_codec false)
    ≡ (from_hex "" >>= λ c. ok (bytes c))
unfolding strict_loads
text_read_as_hex_example = text_read_as_hex small_codec false 0 (96 ∷ []) "" refl

emptied :
    (to_yaml_obj small_codec 1 (bytes (96 ∷ [])) >>= from_yaml_obj small_codec false)
    ≡ ok (bytes [])
unfolding to_yaml_obj from_yaml_obj to_yaml_by strict_loads bstr_of from_hex
emptied = refl

-- The text that JSON has for `{"zcbor_bstr": null}`.
abbrev null_text : String
null_text = "{\"zcbor_bstr\": null}"

-- A few texts of JSON, where a tuple is written as a list and a key null as a text.
abbrev dump_some : Obj → Result String
dump_some null = ok "null"
dump_some (list no_objs) = ok "[]"
dump_some (tuple no_objs) = ok "[]"
dump_some (dict (pair (str s) null no_pairs)) =
    if str_eq s "zcbor_bstr" then ok null_text else raised Exception.type_error
dump_some (dict (pair null null no_pairs)) = ok "{\"null\": null}"
dump_some obj = raised Exception.type_error

abbrev load_some : String → Result Obj
load_some s =
    if str_eq s null_text
    then ok (dict (pair (str "zcbor_bstr") null no_pairs))
    else if str_eq s "null"
    then ok null
    else if str_eq s "[]"
    then ok (list no_objs)
    else raised Exception.value_error

abbrev small_format : Format
small_format = record { load = load_some; dump = dump_some }

null_written :
    to_yaml_obj small_codec 1 (bytes (246 ∷ [])) ≡ ok (dict (pair (str "zcbor_bstr") null no_pairs))
unfolding to_yaml_obj to_yaml_by strict_loads
null_written = refl

null_text-read :
    (y : Obj)
    → to_yaml_obj small_codec 1 (bytes (246 ∷ [])) ≡ ok y
    → small_format.dump y ≡ ok null_text
    → small_format.load null_text ≡ ok y
null_text-read y h p =
    let same = rw null_written at h in
    let e : dict (pair (str "zcbor_bstr") null no_pairs) ≡ y = cc in rw (← e) refl

abbrev loading : Runtime
loading = record runtime { loads = λ b. some (bytes (246 ∷ [])) }

abbrev any_bytes : Elem
any_bytes = leaf_of (bare Kind.bstr) no_value

dumped :
    str_to_yaml loading cddl 9
      (calls loading cddl max_qty 9)
      small_codec
      small_format
      1
      any_bytes
      true
      (65 ∷ 246 ∷ [])
    ≡ ok null_text
unfolding str_to_yaml validate_obj calls to_yaml_obj to_yaml_by strict_loads
dumped = refl

str_to_canonical-dumps_example :
    str_to_canonical loading cddl 9
      (calls loading cddl max_qty 9)
      small_codec
      small_format
      1
      any_bytes
      (65 ∷ 246 ∷ [])
    ≡ ok (65 ∷ 246 ∷ [])
unfolding strict_loads
str_to_canonical-dumps_example =
    str_to_canonical-dumps loading cddl 9 (calls loading cddl max_qty 9) small_codec small_format 1
      any_bytes (bytes (246 ∷ [])) (65 ∷ 246 ∷ []) null_text small_codec-IsCodec null_text-read
      (as_object refl refl (scalar refl) refl) (unfold longest in omega arith) refl dumped
