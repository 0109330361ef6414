-- ===== src/Examples/Ranges.antt =====
-- Ranges of sample elements.
use zcbor.Prelude.{pos, negsuc, ◌≡◌, ◌↔◌, ◌≤ℤ◌, refl, true, false, some, inl, arith}
use zcbor.Outcome.{ok, raised, Exception, Ends}
use zcbor.Number.{Number}
use zcbor.Elem.{Kind, Attrs, elem, no_value, absent}
use zcbor.Data.{Obj}
use zcbor.Translator.Check.{check_range}
use zcbor.Bounds.Range.{type_and_range}
use zcbor.Bounds.Uint.{IsFresh, type_and_range_uint}
use zcbor.Bounds.Ending.{type_and_range-Ends}
use zcbor.Bounds.Accepts.{range_accepts_iff, range_refuses}
use zcbor.Examples.Sample.{bare}

abbrev untyped : Attrs
untyped = bare Kind.untyped

untyped-IsFresh : IsFresh untyped
untyped-IsFresh = record {
  no_min_value = refl;
  no_max_value = refl;
  no_min_size = refl;
  no_max_size = refl;
  no_range = refl;
}

type_and_range_uint_example :
    (b : Attrs) × (type_and_range Kind.uint
        (Number.int (pos 5))
        (Number.int (pos 1000))
        false
        no_value
        untyped
      ≡ ok (b, no_value))
    × (b.kind ≡ Kind.uint)
    × (b.min_value ≡ some (Number.int (pos 5)))
    × (b.min_value_inclusive ≡ true)
    × (b.max_value ≡ some (Number.int (pos 1000)))
    × (b.max_value_inclusive ≡ false)
type_and_range_uint_example =
    type_and_range_uint 5 1000 false untyped untyped-IsFresh (omega arith) (omega arith)

range_accepts_iff_example :
    (b : Attrs) × (type_and_range Kind.uint
        (Number.int (pos 5))
        (Number.int (pos 1000))
        true
        no_value
        untyped
      ≡ ok (b, no_value))
    × ((check_range (elem b no_value absent absent absent) (Obj.int (negsuc 0)) ≡ ok tt)
        ↔ ((pos 5 ≤ℤ negsuc 0) × (negsuc 0 ≤ℤ pos 1000)))
range_accepts_iff_example =
    range_accepts_iff 5 1000 (negsuc 0) untyped untyped-IsFresh (omega arith) (omega arith)
      (inl (omega arith))

range_refuses_example :
    (b : Attrs) × (type_and_range Kind.uint
        (Number.int (pos 70000))
        (Number.int (pos 80000))
        true
        no_value
        untyped
      ≡ ok (b, no_value))
    × (check_range (elem b no_value absent absent absent) (Obj.int (pos 75000))
        ≡ raised Exception.validation_error)
range_refuses_example =
    range_refuses 70000 80000 (pos 75000) untyped untyped-IsFresh (omega arith) (omega arith)
      (omega arith)

type_and_range-Ends_example : Ends (
    type_and_range Kind.uint
      (Number.int (pos 70000))
      (Number.int (pos 80000))
      true
      no_value
      untyped)
type_and_range-Ends_example =
    type_and_range-Ends Kind.uint (Number.int (pos 70000)) (Number.int (pos 80000)) true no_value
      untyped
