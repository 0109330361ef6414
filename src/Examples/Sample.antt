-- ===== src/Examples/Sample.antt =====
-- Elements and objects for the tests: a CDDL with `count = 0..9`, `pair = [count, * tstr]` and
-- `opt = ? count`, and byte strings, tags and unions beside it.
use zcbor.Prelude.{
  ℕ, pos, negsuc, String, str_eq, true, false, none, some, [], ◌∷◌, if◌then◌else◌, arith,
}
use zcbor.Number.{Number}
use zcbor.Elem.{
  Kind, Attrs, Elem, elem, Value, no_value, text, members, no_elems, elems, absent, Cddl, find,
}
use zcbor.Data.{Obj, no_objs, objs}
use zcbor.Rank.{IsRanked, height}
use zcbor.Translator.Build.{Runtime}

abbrev pub bare : Kind → Attrs
bare k = record {
  kind = k;
  name = "x";
  label = none;
  min_value = none;
  max_value = none;
  min_value_inclusive = true;
  max_value_inclusive = true;
  min_qty = 1;
  max_qty = some 1;
  size = none;
  min_size = none;
  max_size = none;
  is_key = false;
  is_socket = false;
  tags = [];
  bits = none;
  modifiers = [];
}

abbrev pub leaf_of : Attrs → Value → Elem
leaf_of a v = elem a v absent absent absent

-- `0..9`.
abbrev pub digit_attrs : Attrs
digit_attrs = record (bare Kind.uint) {
  min_value = some (Number.int (pos 0));
  max_value = some (Number.int (pos 9));
}

abbrev pub digit : Elem
digit = leaf_of digit_attrs no_value

-- `-5..9`.
abbrev pub range_attrs : Attrs
range_attrs = record (bare Kind.int) {
  min_value = some (Number.int (negsuc 4));
  max_value = some (Number.int (pos 9));
}

-- `? count`, as an element of its own.
abbrev pub optional_attrs : Attrs
optional_attrs = record digit_attrs { min_qty = 0 }

abbrev pub optional_digit : Elem
optional_digit = leaf_of optional_attrs no_value

-- `* #6.1(#6.2(uint))`.
abbrev pub tagged_attrs : Attrs
tagged_attrs = record (bare Kind.uint) { min_qty = 0; max_qty = none; tags = 1 ∷ 2 ∷ [] }

abbrev pub many_texts : Elem
many_texts = leaf_of (record (bare Kind.tstr) { min_qty = 0; max_qty = none }) no_value

abbrev pub count_ref : Elem
count_ref = leaf_of (bare Kind.other) (text "count")

-- `[count, * tstr]`.
abbrev pub pair_list : Elem
pair_list = leaf_of (bare Kind.list) (members (elems count_ref (elems many_texts no_elems)))

abbrev pub cddl : Cddl
cddl = record { types = ("count", digit) ∷ ("pair", pair_list) ∷ []; control_groups = [] }

abbrev pub rank : String → ℕ
rank name = if str_eq "count" name then 1 else if str_eq "pair" name then 9 else 0

pub cddl-IsRanked : IsRanked rank cddl
unfolding find height
cddl-IsRanked = record { ranked = λ name t h. ground arith }

-- `cbor2` gives up on everything, and every name is accepted.
abbrev pub runtime : Runtime
runtime = record {
  loads = λ b. none;
  accepts_names = λ names. true;
  list_attr = λ name. false;
  tuple_attr = λ name. false;
}

abbrev pub max_qty : ℕ
max_qty = 0xFFFF_FFFF

-- `[7, "a", "b"]` and `[7, 8]`.
abbrev pub good_list : Obj
good_list = Obj.list (objs (Obj.int (pos 7)) (objs (Obj.str "a") (objs (Obj.str "b") no_objs)))

abbrev pub bad_list : Obj
bad_list = Obj.list (objs (Obj.int (pos 7)) (objs (Obj.int (pos 8)) no_objs))
