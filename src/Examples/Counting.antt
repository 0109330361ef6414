-- ===== src/Examples/Counting.antt =====
-- Names, backups and flags of sample elements.
use zcbor.Prelude.{
  ℕ, ◌≤◌, ◌≡◌, refl, pos, String, str_eq, Bool, true, false, some, none, [], ◌∷◌, if◌then◌else◌,
  arith,
}
use zcbor.Outcome.{ok, returns, Ensures, ◌>>=◌}
use zcbor.Number.{Number}
use zcbor.Elem.{
  Kind, Attrs, Elem, elem, Value, no_value, number, text, members, no_elems, elems, absent, present,
  Cddl, find, cbor, is_present,
}
use zcbor.Quantity.{count_var_condition}
use zcbor.Rank.{IsRanked, height}
use zcbor.Names.{Naming, var_name}
use zcbor.Names.Free.{is_word, var_name-is_word}
use zcbor.Backups.{num_backups}
use zcbor.Backups.Held.{Held, as_member}
use zcbor.Translator.Spec.{here, there}
use zcbor.Backups.Enough.{num_backups-Ensures}
use zcbor.Flags.{Flags, expressions, num_map_search_flags_by, num_map_search_flags}
use zcbor.Flags.Limits.{numbers, Conditions, literal_answers, number_answers, is_limited}
use zcbor.Flags.Related.{show_all}
use zcbor.Flags.Reached.{itself, inside, num_map_search_flags_by-Reached}
use zcbor.Flags.Counted.{num_map_search_flags_by-show_all}
use zcbor.Examples.Sample.{bare, leaf_of, digit, rank}

abbrev counts : Cddl
counts = record { types = ("count", digit) ∷ []; control_groups = [] }

counts-IsRanked : IsRanked rank counts
unfolding find height
counts-IsRanked = record { ranked = λ name t h. ground arith }

types_limited : (name : String) (d : Elem) → find name counts.types ≡ some d → is_limited d ≡ true
unfolding find is_limited
types_limited name d h = only (str_eq "count" name) h
  where
    only : (b : Bool) → (if b then some digit else none) ≡ some d → is_limited d ≡ true
    only true h = let e : digit ≡ d = cc in rw (← e) refl
    only false h = cc

-- `int`, as a type of that name.
abbrev word : Elem
word = leaf_of (record (bare Kind.uint) { name = "int" }) no_value

abbrev naming : Naming
naming = record {
  id_prefix = λ e. "";
  base_stem = λ e. "pet";
  short_names = true;
  skipped = λ e. false;
}

named_int : var_name naming counts (λ e. false) false 5 false true word ≡ ok "Int"
unfolding var_name zcbor.Conditions.skip_condition
named_int = refl

named_pet_int : var_name naming counts (λ e. false) false 5 true true word ≡ ok "pet_int"
unfolding var_name zcbor.Conditions.skip_condition
named_pet_int = refl

var_name-is_word_example : is_word "Int" ≡ false
var_name-is_word_example =
    var_name-is_word naming counts (λ e. false) false 5 false true word "Int" named_int

-- The members of a map: the key 1 with `count`, and the key 2 with a union.
abbrev key_of : ℕ → Elem
key_of n = leaf_of (bare Kind.uint) (number (Number.int (pos n)))

abbrev keyed : ℕ → Attrs → Value → Elem
keyed n a v = elem a v (present (key_of n)) absent absent

abbrev pets : Elem
pets = leaf_of (bare Kind.map) (
    members (
      elems (keyed 1 (bare Kind.other) (text "count"))
        (elems (keyed 2 (bare Kind.union) (members (elems word (elems digit no_elems)))) no_elems)))

abbrev conditions : Conditions
conditions = record {
  cbor_var = λ e. ok (is_present (cbor e));
  func_impl = λ e. ok true;
  implicit_union = λ e. ok false;
}

two_bytes_of_flags :
    num_map_search_flags expressions
      (literal_answers conditions "ZCBOR_DEFAULT_MAX_QTY")
      counts
      true
      9
      pets
    ≡ ok "16"
unfolding num_map_search_flags count_var_condition zcbor.Quantity.present_var_condition
    zcbor.Elem.resolve find zcbor.Expressions.s_round_bits_to_nearest_byte zcbor.Expressions.s_sum
    zcbor.Texts.decimal zcbor.Texts.isdigit zcbor.Texts.int_of zcbor.Expressions.s_mult
    zcbor.Expressions.s_max zcbor.Sizes.divide_round_up
two_bytes_of_flags = refl

num_map_search_flags_by-show_all_example :
    num_map_search_flags_by expressions
      (literal_answers conditions "ZCBOR_DEFAULT_MAX_QTY")
      counts
      true
      9
      false
      pets
    ≡ (num_map_search_flags_by numbers (number_answers conditions) counts true 9 false pets >>= λ n.
        ok (show_all n))
num_map_search_flags_by-show_all_example =
    num_map_search_flags_by-show_all counts true conditions "ZCBOR_DEFAULT_MAX_QTY" types_limited 9
      false pets (unfold is_limited in refl)

-- `3( * 1 => uint, 2 => uint )`.
abbrev open_attrs : Attrs
open_attrs = record (bare Kind.uint) { min_qty = 0; max_qty = none }

abbrev thrice : Elem
thrice =
    leaf_of (record (bare Kind.group) { min_qty = 3; max_qty = some 3 })
      (members
        (elems (keyed 1 open_attrs no_value) (elems (keyed 2 (bare Kind.uint) no_value) no_elems)))

sum_without_brackets :
    (num_map_search_flags_by expressions
        (literal_answers conditions "ZCBOR_DEFAULT_MAX_QTY")
        counts
        true
        9
        true
        thrice
      >>= λ t. ok t.this)
    ≡ ok "ZCBOR_DEFAULT_MAX_QTY + 1 * 3"
unfolding num_map_search_flags_by count_var_condition zcbor.Quantity.present_var_condition
    zcbor.Expressions.s_sum zcbor.Texts.decimal zcbor.Texts.isdigit zcbor.Texts.int_of
    zcbor.Expressions.s_mult
sum_without_brackets = refl

two_backups :
    num_backups counts (λ e. ok (is_present (cbor e))) (λ e. ok (count_var_condition e)) 9 pets
    ≡ ok 2
unfolding num_backups zcbor.Elem.resolve find count_var_condition
two_backups = refl

num_backups-Ensures_example :
    Ensures
      (λ total.
        (n : ℕ)
        → Held counts (λ e. ok (is_present (cbor e))) (λ e. ok (count_var_condition e)) pets n
        → n ≤ total)
      (num_backups counts (λ e. ok (is_present (cbor e))) (λ e. ok (count_var_condition e)) 9 pets)
num_backups-Ensures_example =
    num_backups-Ensures rank counts-IsRanked (λ e. ok (is_present (cbor e)))
      (λ e. ok (count_var_condition e)) (λ e. returns tt) (λ e. returns tt) 9 pets
      (unfold height in omega arith)

abbrev pets_flags : Flags ℕ
pets_flags = record { this = 0; nested = 16; multi_decode = 0; unions = 0 }

pets_counted :
    num_map_search_flags_by numbers (number_answers conditions) counts true 9 false pets
    ≡ ok pets_flags
unfolding num_map_search_flags_by count_var_condition zcbor.Quantity.present_var_condition
    zcbor.Elem.resolve find zcbor.Sizes.divide_round_up
pets_counted = refl

num_map_search_flags_by-Reached_example :
    (g : ℕ) × (m : Bool) × (r : Flags ℕ) × (num_map_search_flags_by numbers
        (number_answers conditions)
        counts
        true
        g
        m
        word
      ≡ ok r)
    × (r.nested ≤ pets_flags.nested)
num_map_search_flags_by-Reached_example =
    num_map_search_flags_by-Reached counts true (number_answers conditions) (λ e. ok false) 9 false
      pets word pets_flags
      (inside (as_member refl (there here)) (inside (as_member refl here) itself)) pets_counted
