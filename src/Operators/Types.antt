-- ===== src/Operators/Types.antt =====
-- zcbor/zcbor.py, class CddlParser: the handlers that set the type of an element, and `add_control_op`, once
-- the text of a range, of a float or of an operand is taken apart and parsed.
use zcbor.Prelude.{
  ℤ, String, str_eq, Bool, not, ◌||◌, any_of, Option, none, some, [], ◌∷◌, if◌then◌else◌,
}
use zcbor.Outcome.{Result, ok, Exception, require, ◌>>=◌, ◌>>◌}
use zcbor.Elem.{Kind, Elem, elem, Value, no_value, Cddl, value, kind}
use zcbor.Conditions.{is_uint}
use zcbor.Bounds.{is_float, is_untyped, add_modifier, set_size, set_size_range}
use zcbor.Bounds.Range.{type_and_range}
use zcbor.Operators.{is_nint, same_kind, number_of, extract_unambiguous_val}
use zcbor.Operators.Marks.{set_cbor, set_cborseq, set_bits}
use zcbor.Operators.Process.{Escapes, set_value}

unfoldable pub type_and_value : Escapes → Kind → Value → Elem → Result Elem
type_and_value escapes new_type v (elem a w k c d) = do
  require Exception.parsing_error (is_untyped a.kind)
  require Exception.type_error (not (is_untyped new_type))
  set_value escapes v (elem (record a { kind = new_type }) w k c d)

-- The numbers of bytes in `float_variant`: one, or two around "-".
unfoldable pub float_with_size : Escapes → ℤ → Option ℤ → Elem → Result Elem
unfolding type_and_value
float_with_size escapes low high e = type_and_value escapes Kind.float no_value e >>= sized high
  where
    sized : Option ℤ → Elem → Result Elem
    sized none (elem a v k c d) = set_size low v a >>= λ b. ok (elem b v k c d)
    sized (some n) (elem a v k c d) =
        set_size_range v (some low) (some n) a >>= λ b. ok (elem b v k c d)

-- `new_type`, from the types of the two ends.
abbrev pub range_type : Kind → Kind → Kind
range_type k l = if same_kind k l then k else Kind.int

-- `count("FLOAT") == 1`.
abbrev pub one_float : Kind → Kind → Bool
one_float k l = if is_float k then not (is_float l) else is_float l

abbrev pub is_end_kind : Kind → Bool
is_end_kind k = is_uint k || is_nint k || is_float k

-- The operators whose processors run at once; the others wait.
abbrev pub waits : String → Bool
waits op = any_of (str_eq op) (".gt" ∷ ".ge" ∷ ".lt" ∷ ".le" ∷ ".size" ∷ ".eq" ∷ ".default" ∷ [])

abbrev pub is_op : String → Bool
is_op op = waits op || any_of (str_eq op) (".cbor" ∷ ".cborseq" ∷ ".bits" ∷ [])

unfoldable pub process_now : String → Elem → Elem → Result Elem
process_now op operand e =
    if str_eq op ".cbor"
    then set_cbor operand e
    else if str_eq op ".cborseq"
    then set_cborseq operand e
    else set_bits operand e

-- `operand` is what `parse_one` returns for the text after the operator.
unfoldable pub add_control_op : String → Result Elem → Elem → Result Elem
unfolding process_now
add_control_op op operand (elem a v k c d) = do
  require Exception.parsing_error (is_op op)
  require Exception.parsing_error (not (is_untyped a.kind))
  x ← operand
  b ← add_modifier op a
  if waits op then ok (elem b v k c d) else process_now op x (elem b v k c d)

module _ (cddl : Cddl) where
  -- `low` and `high` are what `parse_one` returns for the two ends.
  unfoldable pub set_num_range : Elem → Elem → Bool → Elem → Result Elem
  set_num_range low high inc_end (elem a v k c d) = do
    x ← extract_unambiguous_val cddl is_end_kind low
    y ← extract_unambiguous_val cddl is_end_kind high
    require Exception.parsing_error (not (one_float (kind x) (kind y)))
    m ← number_of (value x)
    n ← number_of (value y)
    (b, w) ← type_and_range (range_type (kind x) (kind y)) m n inc_end v a
    ok (elem b w k c d)
