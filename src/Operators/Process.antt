-- ===== src/Operators/Process.antt =====
-- zcbor/zcbor.py, class CddlParser: `set_value`, the processors of `.size` and `.eq`, and `process_modifiers`,
-- which runs the processors that wait until all types are parsed.
use Prim.Native.Char.{code}
use package.text.Mathlib.Text.{starts_with}
use zcbor.Prelude.{
  ℕ, zero, suc, ℤ, pos, negsuc, ◌==◌, String, str_eq, Bool, true, false, not, any_of, Option, none,
  some, List, [], ◌∷◌, if◌then◌else◌,
}
use zcbor.Outcome.{Result, ok, raised, out_of_fuel, Exception, require, ◌>>=◌, ◌>>◌}
use zcbor.Number.{Number}
use zcbor.Elem.{
  Kind, Attrs, Elem, elem, Value, number, text, members, Elems, no_elems, elems, Slot, absent,
  present, Cddl, attrs, value, kind, has_value,
}
use zcbor.Unambiguous.{is_literal_kind}
use zcbor.Conditions.{is_uint}
use zcbor.Bounds.{add_modifier, enforce_sizeable, set_size, set_size_range}
use zcbor.Bounds.Range.{literal_bounds}
use zcbor.Operators.{
  enforce_no_modifier, unpack_value, extract_unambiguous_val, agrees, set_lower, set_upper,
  set_default,
}

-- `process_unicode_escape_sequences`, and the length of what `resolve_unicode_escape_sequences` returns,
-- which are left to the package regex and to Python's codecs.
pub record Escapes : Type 0 where
  pub process : String → Result String
  pub resolved_length : String → Result ℕ

-- `s.lstrip("$")`.
unfoldable pub without_dollars : String → String
without_dollars String.[] = ""
without_dollars (String.◌∷◌ c s) =
    let rest = without_dollars s in if code c == b'$' then rest else String.◌∷◌ c s

module _ (escapes : Escapes) where
  unfoldable pub set_text : String → Attrs → Result (Attrs × Value)
  set_text s a = do
    t ← escapes.process s
    n ← escapes.resolved_length t
    ok (record a { size = some (pos n) }, text t)

  -- What `set_value` does once `self.value` is set.
  unfoldable pub after_value : Kind → Value → Attrs → Result (Attrs × Value)
  unfolding without_dollars set_text
  after_value Kind.other (text s) a =
      if starts_with s "$"
      then ok (record a { is_socket = true }, text (without_dollars s))
      else ok (a, text s)
  after_value Kind.bstr (text s) a = set_text s a
  after_value Kind.tstr (text s) a = set_text s a
  after_value Kind.uint (number n) a = literal_bounds Kind.uint n a >>= λ b. ok (b, number n)
  after_value Kind.nint (number n) a = literal_bounds Kind.nint n a >>= λ b. ok (b, number n)
  after_value Kind.nint v a = ok (record a { max_value = some (Number.int (negsuc 0)) }, v)
  after_value k v a = ok (a, v)

  -- `v` is what the generator returns.
  unfoldable pub set_value : Value → Elem → Result Elem
  unfolding after_value
  set_value v (elem a w k c d) = do
    b ←
        if has_value v
        then (require Exception.parsing_error (not (has_value w)) >> add_modifier "value" a)
        else ok a
    (b', v') ← after_value b.kind v b
    ok (elem b' v' k c d)

-- A bound of a range as a size; the model has no sizes that are floats.
abbrev pub as_size : Option Number → Result (Option ℤ)
as_size none = ok none
as_size (some (Number.int n)) = ok (some n)
as_size (some (Number.float x)) = raised Exception.type_error

abbrev pub less_one : ℤ → ℤ
less_one (pos zero) = negsuc 0
less_one (pos (suc n)) = pos n
less_one (negsuc n) = negsuc (suc n)

-- `max_size_in if inc_end else max_size_in - 1`.
abbrev pub last_size : Bool → Option ℤ → Result (Option ℤ)
last_size true s = ok s
last_size false none = raised Exception.type_error
last_size false (some n) = ok (some (less_one n))

abbrev pub has_modifier : String → Elem → Bool
has_modifier name e = any_of (str_eq name) (attrs e).modifiers

abbrev pub size_number : Value → Result ℤ
size_number (number (Number.int n)) = ok n
size_number v = raised Exception.type_error

module _ (cddl : Cddl) (escapes : Escapes) where
  unfoldable pub set_size_op : Elem → Elem → Result Elem
  set_size_op size_op (elem a v k c d) = do
    sval ← unpack_value cddl size_op
    b ←
        if has_modifier "value" sval
        then (extract_unambiguous_val cddl is_uint sval >>= λ x.
            size_number (value x) >>= λ s. set_size s v a)
        else if has_modifier "range" sval
        then (enforce_no_modifier ("range" ∷ []) sval
            >> (as_size (attrs sval).min_value >>= λ low. as_size (attrs sval).max_value >>= λ high.
                enforce_sizeable v a
                >> (last_size (attrs sval).max_value_inclusive high >>= λ last.
                    set_size_range v low last a)))
        else raised Exception.parsing_error
    ok (elem b v k c d)

  unfoldable pub set_eq : Elem → Elem → Result Elem
  unfolding set_value
  set_eq operand e = do
    require Exception.parsing_error (is_literal_kind (kind e))
    x ← extract_unambiguous_val cddl is_literal_kind operand
    require Exception.parsing_error (agrees (kind e) (kind x))
    set_value escapes (value x) e

  -- `mod_processors`, of the operators that wait; `f` is the fuel of `set_default`.
  unfoldable pub process_one : ℕ → String → Elem → Elem → Result Elem
  unfolding set_size_op set_eq
  process_one f name operand e =
      if str_eq name ".gt"
      then set_lower cddl false operand e
      else if str_eq name ".ge"
      then set_lower cddl true operand e
      else if str_eq name ".lt"
      then set_upper cddl false operand e
      else if str_eq name ".le"
      then set_upper cddl true operand e
      else if str_eq name ".size"
      then set_size_op operand e
      else if str_eq name ".eq"
      then set_eq operand e
      else if str_eq name ".default"
      then set_default cddl f operand e
      else raised Exception.key_error

  unfoldable pub process_all : ℕ → List (String × Elem) → Elem → Result Elem
  unfolding process_one
  process_all f [] e = ok e
  process_all f ((name, operand) ∷ mods) e =
      process_one f name operand e >>= λ x. process_all f mods x

  -- `waiting` gives the operators of an element that wait, in the order that the set of their names has, and
  -- their operands. The elements in an element are values here: one that stands in two places, as a
  -- member that is the default does, is processed in both.
  module _ (waiting : Elem → List (String × Elem)) where
    abbrev pub each_elem : (Elem → Result Elem) → Elems → Result Elems
    each_elem p no_elems = ok no_elems
    each_elem p (elems x xs) = do y ← p x; ys ← each_elem p xs; ok (elems y ys)

    abbrev pub each_member : (Elem → Result Elem) → Value → Result Value
    each_member p (members cs) = each_elem p cs >>= λ ds. ok (members ds)
    each_member p v = ok v

    abbrev pub each_slot : (Elem → Result Elem) → Slot → Result Slot
    each_slot p absent = ok absent
    each_slot p (present x) = p x >>= λ y. ok (present y)

    abbrev pub recurse : (Elem → Result Elem) → Elem → Result Elem
    recurse p (elem a v k c d) = do
      v' ← each_member p v
      c' ← each_slot p c
      k' ← each_slot p k
      d' ← each_slot p d
      ok (elem a v' k' c' d')

    unfoldable pub process_modifiers : ℕ → Elem → Result Elem
    unfolding process_all
    process_modifiers zero e = out_of_fuel
    process_modifiers (suc f) e =
        process_all f (waiting e) e >>= λ x. recurse (process_modifiers f) x
