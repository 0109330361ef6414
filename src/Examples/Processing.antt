-- ===== src/Examples/Processing.antt =====
-- The processing of modifiers at sample elements: `uint .size 2 .le 10`, `int .eq 7`, `tstr .size 2..4`.
use zcbor.Prelude.{ℤ, Option, ◌^◌, ◌-◌, ◌≡◌, refl, pos, true, false, some, none, [], ◌∷◌, arith}
use zcbor.Outcome.{Result, ok, raised, Exception, ◌>>=◌}
use zcbor.Number.{Number}
use zcbor.Elem.{Kind, Attrs, Elem, elem, no_value, number, text, truth, absent, Cddl, attrs, value}
use zcbor.Operators.Process.{Escapes, set_value, set_size_op, process_all, process_modifiers}
use zcbor.Operators.Types.{set_num_range, float_with_size, add_control_op}
use zcbor.Operators.Turns.{literal, uint_up_to, greatest, turns_differ}
use zcbor.Examples.Sample.{bare, leaf_of}

abbrev no_types : Cddl
no_types = record { types = []; control_groups = [] }

-- No text has an escape sequence.
abbrev plain : Escapes
plain = record { process = λ s. ok s; resolved_length = λ s. ok 3 }

turns_differ_example :
    (process_all no_types plain 0
          ((".size", literal (bare Kind.uint) 2) ∷ (".le", literal (bare Kind.uint) 10) ∷ [])
          (elem (uint_up_to (bare Kind.uint) none) no_value absent absent absent)
        >>= greatest)
      ≡ ok (some (Number.int (pos 10)))
    × (process_all no_types plain 0
          ((".le", literal (bare Kind.uint) 10) ∷ (".size", literal (bare Kind.uint) 2) ∷ [])
          (elem (uint_up_to (bare Kind.uint) none) no_value absent absent absent)
        >>= greatest)
      ≡ ok (some (Number.int (pos (256 ^ 2 - 1))))
turns_differ_example =
    turns_differ no_types plain 0 (bare Kind.uint) (bare Kind.uint) absent absent absent 10 2
      (omega arith) (omega arith)

seven :
    (process_all no_types plain 0
        ((".eq", literal (bare Kind.uint) 7) ∷ [])
        (leaf_of (bare Kind.int) no_value)
      >>= λ e. ok (value e))
    ≡ ok (number (Number.int (pos 7)))
unfolding process_all zcbor.Operators.extract_unambiguous_val zcbor.Operators.unpack_value
    zcbor.Operators.unpack_from zcbor.Operators.unpack_groups zcbor.Operators.enforce_no_modifier
    zcbor.Bounds.add_modifier
seven = refl

socket :
    (set_value plain (text "$$ext") (leaf_of (bare Kind.other) no_value) >>= λ e. ok (value e))
    ≡ ok (text "ext")
unfolding set_value zcbor.Bounds.add_modifier
socket = refl

abbrev sizes_of : Elem → Result (Option ℤ × Option ℤ)
sizes_of e = ok ((attrs e).min_size, (attrs e).max_size)

-- `2..4`, and `2...4`.
abbrev sizes : Attrs
sizes = record (bare Kind.uint) {
  min_value = some (Number.int (pos 2));
  max_value = some (Number.int (pos 4));
  modifiers = "range" ∷ [];
}

sized_text :
    (set_size_op no_types plain (leaf_of sizes no_value) (leaf_of (bare Kind.tstr) no_value)
      >>= λ e. sizes_of e)
    ≡ ok (some (pos 2), some (pos 4))
unfolding set_size_op zcbor.Operators.unpack_value zcbor.Operators.unpack_from
    zcbor.Operators.unpack_groups zcbor.Operators.enforce_no_modifier zcbor.Bounds.enforce_sizeable
    zcbor.Bounds.set_size_range zcbor.Bounds.set_min_size zcbor.Bounds.set_min_size_by
    zcbor.Bounds.check_byte_count zcbor.Bounds.set_max_size zcbor.Bounds.set_max_size_by
sized_text = refl

shorter_text :
    (set_size_op no_types plain
        (leaf_of (record sizes { max_value_inclusive = false }) no_value)
        (leaf_of (bare Kind.tstr) no_value)
      >>= λ e. sizes_of e)
    ≡ ok (some (pos 2), some (pos 3))
unfolding set_size_op zcbor.Operators.unpack_value zcbor.Operators.unpack_from
    zcbor.Operators.unpack_groups zcbor.Operators.enforce_no_modifier zcbor.Bounds.enforce_sizeable
    zcbor.Bounds.set_size_range zcbor.Bounds.set_min_size zcbor.Bounds.set_min_size_by
    zcbor.Bounds.check_byte_count zcbor.Bounds.set_max_size zcbor.Bounds.set_max_size_by
shorter_text = refl

-- `.size` of a "BOOL".
no_size :
    process_modifiers no_types plain
      (λ e. (".size", literal (bare Kind.uint) 2) ∷ [])
      2
      (leaf_of (bare Kind.bool) no_value)
    ≡ raised Exception.parsing_error
unfolding process_modifiers zcbor.Operators.unpack_value zcbor.Operators.unpack_from
    zcbor.Operators.unpack_groups zcbor.Operators.extract_unambiguous_val
    zcbor.Operators.enforce_no_modifier zcbor.Bounds.set_size zcbor.Bounds.enforce_sizeable
no_size = refl

-- `1..true`.
no_range :
    set_num_range no_types
      (literal (bare Kind.uint) 1)
      (leaf_of (record (bare Kind.bool) { modifiers = "value" ∷ [] }) (truth true))
      true
      (leaf_of (bare Kind.untyped) no_value)
    ≡ raised Exception.parsing_error
unfolding set_num_range zcbor.Operators.extract_unambiguous_val zcbor.Operators.unpack_value
    zcbor.Operators.unpack_from zcbor.Operators.unpack_groups zcbor.Operators.enforce_no_modifier
no_range = refl

-- `float16-32`.
narrow_float :
    (float_with_size plain (pos 2) (some (pos 4)) (leaf_of (bare Kind.untyped) no_value)
      >>= sizes_of)
    ≡ ok (some (pos 2), some (pos 4))
unfolding float_with_size set_value zcbor.Bounds.set_size_range zcbor.Bounds.enforce_sizeable
    zcbor.Bounds.set_min_size zcbor.Bounds.set_min_size_by zcbor.Bounds.check_byte_count
    zcbor.Bounds.set_max_size zcbor.Bounds.set_max_size_by
narrow_float = refl

-- A second `.size`, and an operator before the type.
twice :
    (add_control_op ".size" (ok (literal (bare Kind.uint) 2)) (leaf_of (bare Kind.tstr) no_value)
      >>= add_control_op ".size" (ok (literal (bare Kind.uint) 3)))
    ≡ raised Exception.parsing_error
unfolding add_control_op zcbor.Bounds.add_modifier
twice = refl

no_type :
    add_control_op ".bits"
      (ok (leaf_of (bare Kind.other) (text "flags")))
      (leaf_of (bare Kind.untyped) no_value)
    ≡ raised Exception.parsing_error
unfolding add_control_op
no_type = refl
