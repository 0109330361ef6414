-- ===== src/Lib.antt =====
-- zcbor's Python tool, zcbor/zcbor.py: CDDL elements, and the validation and decoding of CBOR data
-- against them.
--
-- The tool parses a CDDL file into elements (class CddlParser), refines them for coding (class
-- CddlXcoder), and then either checks and converts data (class DataTranslator) or writes C code
-- (classes CodeGenerator and CodeRenderer). The modules here follow those classes:
-- - Elem: the fields of an element and the tables my_types and my_control_groups, as they stand after
--   parsing. `name` is what get_base_name() returns. Number and Data are the Python numbers and
--   objects that the code compares and builds; a float is a multiple of 2 ^ -1074, an infinity or nan.
-- - Outcome: how a call ends. Exceptions are values, and `catch` and `attempt` (in Translator/Pull)
--   are the handlers of CddlValidationError.
-- - Unambiguous, Quantity: is_unambiguous and the conditions on quantities.
-- - Sizes, BitSize: sizeof, divide_round_up and CodeGenerator.bit_size and float_type, the widths of numbers.
-- - Conditions: the methods of CddlXcoder that choose variables, typedefs and functions (key_var_condition
--   to single_func_impl_condition), and int_val with all_children_disambiguated. `named` stands for
--   the test `self in self.my_types.values()`, which Python makes by identity.
-- - Bounds: set_min_value, set_max_value, set_min_size, set_max_size, set_size_range and set_size, and
--   in Bounds/Range type_and_range; Bounds/Uint and Bounds/Accepts follow a range of unsigned
--   integers to the bounds that it leaves and to the check of a number, with the byte counts in
--   Bounds/Bits and Bounds/Sizes. The methods that set values
--   and sizes call each other; their fuel is the nesting of these calls,
--   which Bounds/Nesting and Bounds/Ending are about.
-- - Operators: unpack_value, extract_unambiguous_val, extract_ineq_val, the processors of .gt, .ge, .lt and
--   .le (set_lower, set_upper), match_elem, find_matching_child, set_default; Operators/Spec is what an
--   operand stands for, and Bounds/Apart and Bounds/Order follow the two bounds of an element.
--   Operators/Process: set_value, the processors of .size and .eq, and process_modifiers, which takes the
--   operators that wait in the order of a set, here a list; Operators/Turns is about this order.
--   Operators/Types: type_and_value, float_with_size, set_num_range and add_control_op.
--   Operators/Marks: set_label, set_key, set_key_or_label, set_quantifier, add_tag, set_cbor,
--   set_cborseq, set_bits, which get their text parsed.
-- - PostValidate: has_key, post_validate, post_validate_control_group; PostValidate/Spec is the rules that
--   a parsed CDDL keeps, PostValidate/Keys what has_key tells.
-- - Flatten: merge_modifiers, _flatten and flatten; Flatten/Merged, Absorbed, Spliced and Counted follow
--   the counts of list items (in Counts/Spec) from an element to what flatten returns for it.
-- - Counts: or_none and its uses, and list_counts; Counts/Spec is the counts that an element can have.
-- - MapSearch: is_in_map, elem_needs_map_smart_search, is_multiple_elem_group, expect_union_condition and
--   implicit_union_condition in class CodeGenerator; MapSearch/Spec is when the smart search is needed.
--   is_cbor is that of class CddlXcoder here too, where CodeGenerator has one of its own.
-- - Render: unique_types, unique_funcs, used_funcs and the choice of used_defines in class CodeRenderer.
-- - Translator/Check: _check_key, _check_tag, _check_type, _check_value.
-- - Translator/Build, Translator/AddIf: _flatten_obj, _flatten_list, _construct_obj, _add_if.
-- - Translator/Members, Single, Decode: the loops over members, _decode_single_obj, _handle_key,
--   _decode_obj (decode_once), _decode_full. Each method is a function of the recursive calls that it
--   makes (`Calls`), and `calls` ties them together.
-- - Translator/Spec: what an element stands for, as relations; Translator/Sound: the methods against
--   them, with Translator/Sound/Clear for the tags that _decode_obj passes over; Translator/Tags and Translator/Limits: the checks of one object, and what they miss.
-- - Texts: bytes.hex, bytes.fromhex and numbers in an f-string, with Texts/Exact on what they keep.
-- - Yaml: _from_yaml_obj, _to_yaml_obj, strict_loads; Yaml/Methods: from_yaml, from_json, obj_to_yaml,
--   str_to_yaml, str_to_canonical and the other methods between bytes and texts. Yaml/Spec is which objects
--   keep their meaning, Yaml/Dicts, Back and Whole follow what is written until it is read back, and
--   Yaml/Enough is about the fuel.
-- - Names: id, var_name with the words of C (c_keywords), val_define_name; Names/Free is about these words. The
--   fields of an element that set_id_prefix and set_skipped set are functions of the element (`Naming`).
-- - Backups: num_backups; Backups/Held is which backups are held at the same time.
-- - Expressions, Flags: _num_map_search_flags, and the functions in it that put texts of C expressions
--   together. What it does with these texts is a record (`Ops`), so that Flags/Limits can put numbers in
--   their place; Expressions/Shown, Expressions/Products, Flags/Steps and Flags/Total follow the texts of
--   numbers,
--   and Flags/Room and Flags/Reached the numbers from an element to those in it.
--   In Backups and Flags, what the conditions say of an element is a parameter.
-- - Rank: types that do not refer to themselves.
-- - Examples: sample elements and objects, with the theorems at them.
--
-- Iterators. An iterator is the list of the objects left in it. The code never reads from an iterator
-- again after a tee of it, but in decode_obj, which looks at the iterator that it gave away; so a call
-- also returns whether it has called next (`Pull`).
--
-- Fuel. The methods call one another through my_types, so they take fuel, a unit for each level of
-- elements. A height above which fuel suffices exists if no type refers to itself (`IsRanked`); for
-- other types is_unambiguous does not end in Python either. unpack_value finds circles itself, and its
-- fuel is one round for each type and one more. _to_yaml_obj goes through byte strings in byte strings,
-- which get shorter; its fuel is the length of the longest.
--
-- Outside the repository: cbor2.loads, what namedtuple accepts as field names, and which names hasattr
-- finds on every list and tuple are the fields of `Runtime`. `Codec` is cbor2's decoder, dumps and
-- CBORTag, and the pattern of a "zcbor_keyval"; `Format` is the package yaml or json;
-- `Escapes` is the two functions on escape sequences, which leave the work to the package regex and to
-- codecs.
--
-- Not modelled: the text patterns and the parser that runs them, and generate_base_name, which rest on the
-- package regex; the error texts in self.errors; the writing of C code; the command line.
pub mod Prelude
pub mod Outcome
pub mod Number
pub mod Elem
pub mod Data
pub mod Unambiguous
pub mod Quantity
pub mod Rank
pub mod Sizes
pub mod BitSize
pub mod Conditions
pub mod Bounds
pub mod Operators
pub mod Flatten
pub mod PostValidate
pub mod Counts
pub mod MapSearch
pub mod Translator
pub mod Render
pub mod Texts
pub mod Yaml
pub mod Names
pub mod Backups
pub mod Expressions
pub mod Flags
pub mod Examples
