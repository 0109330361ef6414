-- ===== src/Examples/Decoding.antt =====
-- Decoding and validation of sample objects.
use mathlib.Core.List.{Perm}
use zcbor.Prelude.{ℕ, pos, negsuc, ◌≡◌, ◌≤ℤ◌, ◌↔◌, refl, true, false, List, [], ◌∷◌, arith}
use zcbor.Outcome.{ok, raised, Exception, Ends}
use zcbor.Elem.{Kind, Elem, no_value, text, absent}
use zcbor.Data.{Obj, tag}
use zcbor.Rank.{height}
use zcbor.Unambiguous.{is_unambiguous}
use zcbor.Quantity.{multi_var_condition}
use zcbor.Unambiguous.Enough.{is_unambiguous-Ends}
use zcbor.Translator.Check.{check_tag, check_type, check_range, check_value}
use zcbor.Translator.Pull.{threw}
use zcbor.Translator.Pull.Yields.{Yields}
use zcbor.Translator.Single.{decode_single_obj}
use zcbor.Translator.AddIf.{validate_obj}
use zcbor.Translator.Decode.{calls, decode_upto, decode_round}
use zcbor.Translator.Spec.{
  IsUntagged, Fits, leaf, refers, sequence, mapping, choice, Once, keyed, single, referred, grouped,
  chosen, Takes, exactly, between,
}
use zcbor.Translator.Limits.{
  check_range_iff, bstr_literal_rejects, uint_accepts_negative, optional_accepts, tagged_stops,
}
use zcbor.Translator.Tags.{wrap, is_tagged, check_tag-perm}
use zcbor.Examples.Sample.{
  bare, leaf_of, digit_attrs, range_attrs, optional_attrs, optional_digit, tagged_attrs, pair_list,
  cddl, rank, cddl-IsRanked, runtime, max_qty, good_list, bad_list,
}

accepts_pair :
    validate_obj runtime cddl 9 (calls runtime cddl max_qty 9) pair_list good_list ≡ ok true
unfolding validate_obj calls zcbor.Elem.find zcbor.Number.number_le is_unambiguous
accepts_pair = refl

rejects_pair :
    validate_obj runtime cddl 9 (calls runtime cddl max_qty 9) pair_list bad_list
    ≡ raised Exception.validation_error
unfolding validate_obj calls zcbor.Elem.find zcbor.Number.number_le is_unambiguous
rejects_pair = refl

-- `#6.1(count)`.
abbrev tagged_count : Elem
tagged_count = leaf_of (record (bare Kind.other) { tags = 1 ∷ [] }) (text "count")

-- `#6.1(count)` takes 7 without the tag.
tag_left_out :
    validate_obj runtime cddl 9 (calls runtime cddl max_qty 9) tagged_count (Obj.int (pos 7))
    ≡ ok true
unfolding validate_obj calls zcbor.Elem.find zcbor.Number.number_le is_unambiguous
tag_left_out = refl

-- `#6.1(0..9)` does not.
tag_asked_for :
    validate_obj runtime cddl 9
      (calls runtime cddl max_qty 9)
      (leaf_of (record digit_attrs { tags = 1 ∷ [] }) no_value)
      (Obj.int (pos 7))
    ≡ raised Exception.validation_error
unfolding validate_obj calls zcbor.Elem.find zcbor.Number.number_le is_unambiguous
tag_asked_for = refl

-- `#6.1(count)` stands for no object without the tag.
tagged_count-Fits :
    (obj : Obj) → obj ≡ Obj.int (pos 7) → Fits cddl max_qty IsUntagged tagged_count obj → ⊥
unfolding check_tag zcbor.Translator.Check.strip_tags
tagged_count-Fits obj p (leaf c l) = cc
tagged_count-Fits obj p (refers c k r t) = let h = rw p at c.tagged in cc
tagged_count-Fits obj p (sequence c k x xs) = cc
tagged_count-Fits obj p (mapping c k x xs) = cc
tagged_count-Fits obj p (choice c k a t) = cc

tagged_count-Once :
    (xs : List Obj) → xs ≡ Obj.int (pos 7) ∷ [] → Once cddl max_qty IsUntagged tagged_count xs → ⊥
tagged_count-Once xs p (keyed q k v) = cc
tagged_count-Once xs p (single {x} q t) = tagged_count-Fits x (cc) t
tagged_count-Once xs p (referred u q k r t) = cc
tagged_count-Once xs p (grouped u q k t) = cc
tagged_count-Once xs p (chosen u q k a t) = cc

tagged_count-Takes :
    (xs : List Obj) → xs ≡ Obj.int (pos 7) ∷ [] → Takes cddl max_qty IsUntagged tagged_count xs → ⊥
unfolding multi_var_condition
tagged_count-Takes xs p (exactly q o) = tagged_count-Once xs p o
tagged_count-Takes xs p (between q l u t) = cc

is_unambiguous-Ends_example : Ends (is_unambiguous cddl 20 pair_list)
is_unambiguous-Ends_example =
    is_unambiguous-Ends rank cddl-IsRanked 20 pair_list (unfold height in omega arith)

check_range_iff_example :
    (check_range (leaf_of range_attrs no_value) (Obj.int (negsuc 2)) ≡ ok tt)
    ↔ ((negsuc 4 ≤ℤ negsuc 2) × (negsuc 2 ≤ℤ pos 9))
check_range_iff_example =
    check_range_iff range_attrs no_value absent absent absent (negsuc 4) (pos 9) (negsuc 2) refl
      (record { low = refl; high = refl; low_inclusive = refl; high_inclusive = refl })

bstr_literal_rejects_example :
    check_value cddl (leaf_of (bare Kind.bstr) (text "ab")) (Obj.bytes (97 ∷ 98 ∷ []))
    ≡ raised Exception.validation_error
bstr_literal_rejects_example =
    bstr_literal_rejects cddl (leaf_of (bare Kind.bstr) (text "ab")) "ab" (97 ∷ 98 ∷ []) refl refl

uint_accepts_negative_example :
    (check_type (leaf_of (bare Kind.uint) no_value) (Obj.int (negsuc 4)) ≡ ok tt)
    × (check_value cddl (leaf_of (bare Kind.uint) no_value) (Obj.int (negsuc 4)) ≡ ok tt)
uint_accepts_negative_example =
    uint_accepts_negative cddl (leaf_of (bare Kind.uint) no_value) 4 refl refl refl refl refl

not_decoded :
    decode_single_obj runtime cddl 9
      (calls runtime cddl max_qty 8)
      optional_digit
      (Obj.str "no")
      false
    ≡ raised Exception.validation_error
unfolding decode_single_obj
not_decoded = refl

optional_accepts_example :
    validate_obj runtime cddl 9 (calls runtime cddl max_qty 9) optional_digit (Obj.str "no")
    ≡ ok true
optional_accepts_example =
    optional_accepts runtime cddl max_qty 9 8 optional_attrs no_value absent absent (Obj.str "no")
      refl refl refl refl not_decoded

tagged_stops_example :
    decode_upto
      (decode_round runtime cddl max_qty 9
        (calls runtime cddl max_qty 8)
        (leaf_of tagged_attrs no_value)
        true)
      5
      []
    ≡ threw Exception.stop_iteration true
tagged_stops_example =
    tagged_stops runtime cddl max_qty 9 (calls runtime cddl max_qty 8)
      (leaf_of tagged_attrs no_value) 1 (2 ∷ []) 4 true refl refl

two_tags :
    check_tag (leaf_of tagged_attrs no_value) (tag 2 (tag 1 (Obj.int (pos 7))))
    ≡ ok (Obj.int (pos 7))
unfolding check_tag
two_tags = refl

check_tag-perm_example :
    (ts : List ℕ) × (tag 2 (tag 1 (Obj.int (pos 7))) ≡ wrap ts (Obj.int (pos 7)))
    × Perm ts (1 ∷ 2 ∷ [])
    × (is_tagged (Obj.int (pos 7)) ≡ false)
check_tag-perm_example =
    check_tag-perm (leaf_of tagged_attrs no_value) (tag 2 (tag 1 (Obj.int (pos 7))))
      (Obj.int (pos 7)) refl refl two_tags
